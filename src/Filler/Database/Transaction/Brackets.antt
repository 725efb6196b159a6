-- ===== src/Filler/Database/Transaction/Brackets.antt =====
-- That the statements of a transaction of src/filler/database.ts stand between a BEGIN and its end.
use mathlib.Core.Path.{subst}
use atomicassets_api.Prelude.{true, false, not, ◌≡◌, refl, ap, sym, ◌∙◌, String, ◌⊎◌}
use atomicassets_api.Exec.{Exec, Outcome, ok, err, Failure, continue, ◌>>◌}
use atomicassets_api.Exec.Leads.{Fails, Result, Leads, Leads-then, Result-split}
use atomicassets_api.Filler.Database.Values.{Value}
use atomicassets_api.Filler.Database.Statement.{
  Statement, begin_transaction, commit_transaction, setting, Answer, answered, refused, Client,
}
use atomicassets_api.Filler.Database.Transaction.{
  ContractDbTransaction, client_query, outcome, open_transaction, register, begin,
}
use atomicassets_api.Filler.Database.Transaction.Watched.{Watched, watch, is_answered}
use atomicassets_api.Filler.Database.Transaction.Frame.{is_work, Frame, leave_transaction}
use atomicassets_api.Filler.Database.Transaction.Stable.{Leads-client_query}
use atomicassets_api.Filler.Database.Transaction.Sent.{
  opened, IsBracketed, Matches, follows, moved, begin_opens, work_stays, end_ends,
}

abbrev Any : Failure → Type 0
Any e = Unit {0}

Fails-Any : {A : Type 0} (o : Outcome A) → Fails Any o
Fails-Any (ok a) = tt
Fails-Any (err e) = tt

module _ {S : Type 0} (client : Client S) where
  -- The state knows whether a transaction is open, unless a BEGIN was refused.
  abbrev pub Knows : ContractDbTransaction (Watched S) → Type 0
  Knows t = Matches (opened t.world.log) t.in_transaction × (t.finalized ≡ false)

  abbrev Within : ContractDbTransaction (Watched S) → Type 0
  Within t = Knows t × (t.in_transaction ≡ true)

  -- `inTransaction` is set before BEGIN is sent.
  abbrev Opening : ContractDbTransaction (Watched S) → Type 0
  Opening t = Matches (opened t.world.log) false × (t.finalized ≡ false) × (t.in_transaction ≡ true)

  asks :
      (P Q : ContractDbTransaction (Watched S) → Type 0) (statement : Statement)
      → ((t : ContractDbTransaction (Watched S))
          → P t
          → Q (record t { world = ((watch client).query statement t.world).1 }))
      → Leads Any P Q (client_query (watch client) statement)
  asks P Q statement h = Leads-client_query (watch client) Any (λ m. tt) P Q statement h

  works :
      (statement : Statement)
      → is_work statement ≡ true
      → Leads Any Within Within (client_query (watch client) statement)
  works statement w = asks Within Within statement (λ t p.
      let good = is_answered (client.query statement t.world.base).0 in
      (
        (
          subst (Matches _) (sym p.1) (
              follows statement good (opened t.world.log) true true
                (subst (Matches (opened t.world.log)) p.1 p.0.0) (work_stays statement good w)),
          p.0.1,
        ),
        p.1,
      ))

  begun : Leads Any Opening Within (client_query (watch client) begin_transaction)
  begun = asks Opening Within begin_transaction (λ t p.
      let good = is_answered (client.query begin_transaction t.world.base).0 in
      (
        (
          subst (Matches _) (sym p.2) (
              follows begin_transaction good (opened t.world.log) false true p.0
                (begin_opens good)),
          p.1,
        ),
        p.2,
      ))

  works-then :
      (s : String) (m : Exec (ContractDbTransaction (Watched S)) (Unit {0}))
      → Leads Any Within Within m
      → Leads Any Within Within (client_query (watch client) (setting s) >> m)
  works-then s m h =
      Leads-then (client_query (watch client) (setting s)) m (works (setting s) refl) h (λ t p. p)

  opens : Leads Any Opening Within (open_transaction (watch client))
  opens =
      Leads-then (client_query (watch client) begin_transaction) _ begun
        (works-then "LOCAL synchronous_commit = off" _ (
          works-then "CONSTRAINTS ALL DEFERRED" _
            (works-then "LOCAL statement_timeout" register (record { at = λ t p. (p, tt) }))))
        (λ t p. p)

  starts : Leads Any Knows Within (begin (watch client))
  unfolding begin
  starts = record {
    at = λ t p.
        Result-split Any Within t.in_transaction (ok tt, t) _ (λ e. ((p, e), tt))
          (λ e.
            opens.at (record t { in_transaction = true })
              (subst (Matches (opened t.world.log)) e p.0, p.1, refl));
  }

  -- A commit in the middle of a rollback: the next transaction begins where it is answered.
  turn_of :
      (a : Answer) (t : ContractDbTransaction (Watched S)) (w : Watched S)
      → Matches (opened w.log) (not (is_answered a))
        × (t.finalized ≡ false)
        × (t.in_transaction ≡ true)
      → Result Any Within (
          continue
            (outcome a)
            (λ _. leave_transaction >> begin (watch client))
            (record t { world = w }))
  turn_of (answered r) t w p = starts.at (record t { world = w; in_transaction = false }) (p.0, p.1)
  turn_of (refused message) t w p = (((subst (Matches (opened w.log)) (sym p.2) p.0, p.1), p.2), tt)

  turns : Leads Any Within Within (
      client_query (watch client) commit_transaction >> (leave_transaction >> begin (watch client)))
  unfolding client_query
  turns = record {
    at = λ t p.
        let a = (client.query commit_transaction t.world.base).0 in
        turn_of a t ((watch client).query commit_transaction t.world).1 (
          follows commit_transaction (is_answered a) (opened t.world.log) true (not (is_answered a))
              (subst (Matches (opened t.world.log)) p.1 p.0.0)
              (end_ends commit_transaction (is_answered a) refl),
          p.0.1,
          p.1,
        );
  }

  abbrev bracket_frame : Frame (watch client) Any
  bracket_frame = record {
    At_rest = Knows;
    Inside = Within;
    weaken = λ t p. p.0;
    rest_alike = λ t u a p. (
      moved (opened u.world.log) (opened t.world.log) u.in_transaction t.in_transaction
          (ap (λ (w : Watched S). opened w.log) a.works) a.opened p.0,
      a.ended ∙ p.1,
    );
    inside_alike = λ t u a p. (
      (
        moved (opened u.world.log) (opened t.world.log) u.in_transaction t.in_transaction
            (ap (λ (w : Watched S). opened w.log) a.works) a.opened p.0.0,
        a.ended ∙ p.0.1,
      ),
      a.opened ∙ p.1,
    );
    begins = starts;
    queries = works;
    turns = turns;
    thrown_fails = λ message. tt;
    type_fails = tt;
    invalid_fails = tt;
  }

  module _ (text : Value → String) where
    -- Open, or finalized after statements that are bracketed.
    abbrev KnowsOrEnded : ContractDbTransaction (Watched S) → Type 0
    KnowsOrEnded t = Knows t ⊎ ((t.finalized ≡ true) × IsBracketed t.world.log)

    abbrev Closing : ContractDbTransaction (Watched S) → Type 0
    Closing t = IsBracketed t.world.log × (t.finalized ≡ false)
