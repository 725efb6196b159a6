-- ===== src/Filler/Database/Transaction/Stable.antt =====
-- Properties of a transaction of src/filler/database.ts that do not depend on whether it has begun.
use atomicassets_api.Prelude.{Bool, true, false, ℕ, String, List, ◌++◌, [], ◌∷◌}
use atomicassets_api.Exec.{Exec, ok, Failure, thrown, type_error, invalid_rollback_operation, ◌>>◌}
use atomicassets_api.Exec.Leads.{Fails, Leads, Leads-then, Result-if}
use atomicassets_api.Filler.Database.Statement.{
  Statement, begin_transaction, commit_transaction, setting, Answer, answered, refused, Client,
}
use atomicassets_api.Filler.Database.Transaction.{
  ContractDbTransaction, client_query, outcome, open_transaction, register, begin,
}
use atomicassets_api.Filler.Database.Transaction.Frame.{Alike, Frame, leave_transaction}

module _ {S : Type 0} (client : Client S) (E : Failure → Type 0)
    (fails : (message : String) → E (thrown message)) where
  Fails-outcome : (a : Answer) → Fails E (outcome a)
  Fails-outcome (answered r) = tt
  Fails-outcome (refused message) = fails message

  pub Leads-client_query :
      (P Q : ContractDbTransaction S → Type 0) (statement : Statement)
      → ((t : ContractDbTransaction S)
          → P t
          → Q (record t { world = (client.query statement t.world).1 }))
      → Leads E P Q (client_query client statement)
  unfolding client_query
  Leads-client_query P Q statement h = record {
    at = λ t p. (h t p, Fails-outcome (client.query statement t.world).0);
  }

  -- What neither a query nor the begin of a transaction changes.
  pub record Stable (P : ContractDbTransaction S → Type 0) : Type 0 where
    pub asked :
        (t : ContractDbTransaction S) (statement : Statement)
        → P t
        → P (record t { world = (client.query statement t.world).1 })
    pub registered :
        (t : ContractDbTransaction S) (l : List ℕ) → P t → P (record t { transactions = l })
    pub turned :
        (t : ContractDbTransaction S) (b : Bool) → P t → P (record t { in_transaction = b })
    pub alike : (t u : ContractDbTransaction S) → Alike t u → P t → P u

  module _ {P : ContractDbTransaction S → Type 0} (s : Stable P) where
    pub asks : (statement : Statement) → Leads E P P (client_query client statement)
    asks statement = Leads-client_query P P statement (λ t p. s.asked t statement p)

    asks-then :
        (statement : Statement) (m : Exec (ContractDbTransaction S) (Unit {0}))
        → Leads E P P m
        → Leads E P P (client_query client statement >> m)
    asks-then statement m h =
        Leads-then (client_query client statement) m (asks statement) h (λ t p. p)

    opens : Leads E P P (open_transaction client)
    opens = asks-then begin_transaction _ (
        asks-then (setting "LOCAL synchronous_commit = off") _ (
          asks-then (setting "CONSTRAINTS ALL DEFERRED") _ (
            asks-then (setting "LOCAL statement_timeout") register
              (record { at = λ t p. (s.registered t (t.transactions ++ t.id ∷ []) p, tt) }))))

    pub starts : Leads E P P (begin client)
    unfolding begin
    starts = record {
      at = λ t p.
          Result-if E P t.in_transaction (ok tt, t) _ (p, tt)
            (opens.at (record t { in_transaction = true }) (s.turned t true p));
    }

    abbrev pub stable_frame : E type_error → E invalid_rollback_operation → Frame client E
    stable_frame te ie = record {
      At_rest = P;
      Inside = P;
      weaken = λ t p. p;
      rest_alike = s.alike;
      inside_alike = s.alike;
      begins = starts;
      queries = λ statement h. asks statement;
      turns =
          Leads-then (client_query client commit_transaction) _ (asks commit_transaction)
            (Leads-then leave_transaction (begin client)
              (record { at = λ t p. (s.turned t false p, tt) }) starts (λ t p. p))
            (λ t p. p);
      thrown_fails = fails;
      type_fails = te;
      invalid_fails = ie;
    }
