-- ===== src/Filler/Database/Transaction/Release.antt =====
-- That a transaction of src/filler/database.ts gives its client back once.
use atomicassets_api.Prelude.{
  ℕ, suc, Bool, true, false, not, ◌≡◌, refl, ap, sym, ◌∙◌, String, List, [], ◌∷◌, filter, map, ◌==◌,
  ◌⊎◌, if_true, Bool-cases, inl, inr, if◌then◌else◌,
}
use atomicassets_api.Prelude.Predicates.{All}
use atomicassets_api.Exec.{Outcome, ok}
use atomicassets_api.Exec.Leads.{Fails, Leads, Leads-weaken}
use atomicassets_api.Filler.Database.Values.{Value}
use atomicassets_api.Filler.Database.Statement.{Statement, Client}
use atomicassets_api.Filler.Database.Transaction.{ContractDbTransaction, deregister}
use mathlib.Core.Path.{subst}
use atomicassets_api.Filler.Database.Transaction.Frame.{is_end}
use atomicassets_api.Filler.Database.Transaction.Finish.{finalize, end_transaction, commit, abort}
use atomicassets_api.Filler.Database.Transaction.Stable.{Stable}
use atomicassets_api.Filler.Database.Transaction.Watched.{Watched, watch}
use atomicassets_api.Filler.Database.Transaction.Locks.{
  IsNotWait, thrown-IsNotWait, loops_on-IsNotWait, Relocked, Locked, lock_frame, locking,
  Leads-end_transaction,
}
use atomicassets_api.Filler.Database.Transaction.Calls.{
  Step, call, IsWorkStep, Call, IsWork, take_step, take_steps, take_steps_lem, Leads-perform,
  Leads-commit, Leads-abort,
}

-- How often the client of a transaction must have been released.
abbrev times : Bool → ℕ
times true = 1
times false = 0

module _ {S : Type 0} (client : Client S) where
  abbrev pub IsReleased : ContractDbTransaction (Watched S) → Type 0
  IsReleased t = t.world.released ≡ times t.finalized

  Stable-IsReleased : Stable (watch client) IsNotWait thrown-IsNotWait IsReleased
  Stable-IsReleased = record {
    asked = λ t statement p. p;
    registered = λ t l p. p;
    turned = λ t b p. p;
    alike = λ t u a p. ap (λ (w : Watched S). w.released) a.works ∙ p ∙ sym (ap times a.ended);
  }

  Relocked-IsReleased : Relocked IsReleased
  Relocked-IsReleased = record { at = λ t b p. p }

  released_once :
      (P : ContractDbTransaction (Watched S) → Type 0) (b : Bool)
      (x y : Outcome (Unit {0}) × ContractDbTransaction (Watched S))
      → (b ≡ true → P x.1)
      → (b ≡ false → P y.1)
      → P (if◌then◌else◌ {A = Outcome (Unit {0}) × ContractDbTransaction (Watched S)} b x y).1
  released_once P true x y h k = h refl
  released_once P false x y h k = k refl

  module _ (text : Value → String) where
    finalize-IsReleased :
        (o : Outcome (Unit {0})) (t : ContractDbTransaction (Watched S))
        → IsReleased t
        → IsReleased (finalize (watch client) text (o, t)).1
    unfolding finalize deregister
    finalize-IsReleased o t p =
        released_once IsReleased t.finalized (o, t) _ (λ e. p)
          (λ e. ap (λ n. suc n) (p ∙ ap times e))

    -- Whatever calls, commits and aborts are made of a transaction whose lock is free, in whatever
    -- order, whatever the database answers and whatever the calls throw: none of them waits for a
    -- lock that it holds itself, the lock is free after them, and the client has been released once
    -- if the transaction is finalized, and not at all if it is not. The statements of `query` are
    -- none of BEGIN, COMMIT and ROLLBACK.
    pub take_steps-IsReleased :
        (ss : List Step) (t : ContractDbTransaction (Watched S))
        → All IsWorkStep ss
        → (t.locked ≡ false) × IsReleased t
        → All
            (λ (o : Outcome (Unit {0})). Fails IsNotWait o)
            (take_steps (watch client) text ss t).0
          × Locked IsReleased false (take_steps (watch client) text ss t).1
    take_steps-IsReleased =
        take_steps_lem
          (lock_frame (watch client) IsReleased Stable-IsReleased Relocked-IsReleased false)
          (lock_frame (watch client) IsReleased Stable-IsReleased Relocked-IsReleased true)
          (locking (watch client) IsReleased Stable-IsReleased Relocked-IsReleased)
          loops_on-IsNotWait text
          (Leads-end_transaction (watch client) IsReleased Stable-IsReleased Relocked-IsReleased
            text IsReleased Relocked-IsReleased finalize-IsReleased)

    -- A transaction that is open, and one that is ended: it is finalized, its client was released
    -- once, and it stands nowhere in `ContractDB.transactions`.
    abbrev pub IsLive : ContractDbTransaction (Watched S) → Type 0
    IsLive t = (t.finalized ≡ false) × (t.world.released ≡ 0)

    abbrev pub IsEnded : ContractDbTransaction (Watched S) → Type 0
    IsEnded t =
        (t.finalized ≡ true)
        × (t.world.released ≡ 1)
        × All (λ i. (i == t.id) ≡ false) t.transactions

    Stable-IsLive : Stable (watch client) IsNotWait thrown-IsNotWait IsLive
    Stable-IsLive = record {
      asked = λ t statement p. p;
      registered = λ t l p. p;
      turned = λ t b p. p;
      alike = λ t u a p. (a.ended ∙ p.0, ap (λ (w : Watched S). w.released) a.works ∙ p.1);
    }

    Relocked-IsLive : Relocked IsLive
    Relocked-IsLive = record { at = λ t b p. p }

    Relocked-IsEnded : Relocked IsEnded
    Relocked-IsEnded = record { at = λ t b p. p }

    All-filter : (n : ℕ) (l : List ℕ) → All (λ i. (i == n) ≡ false) (filter (λ i. not (i == n)) l)
    All-filter n [] = tt
    All-filter n (i ∷ l) = elim (Bool-cases (i == n)) [
      | inl e ↦ rw e (All-filter n l)
      | inr e ↦ rw e (e, All-filter n l)
    ]

    finalize-IsEnded :
        (o : Outcome (Unit {0})) (t : ContractDbTransaction (Watched S))
        → IsLive t
        → IsEnded (finalize (watch client) text (o, t)).1
    unfolding finalize deregister
    finalize-IsEnded o t (p, q) =
        released_once IsEnded t.finalized (o, t) _ (λ e. absurd (cc))
          (λ e. (refl, ap (λ n. suc n) q, All-filter t.id t.transactions))

    calls-IsLive :
        (cs : List Call) (t : ContractDbTransaction (Watched S))
        → All IsWork cs
        → Locked IsLive false t
        → Locked IsLive false (take_steps (watch client) text (map call cs) t).1
    unfolding take_steps take_step
    calls-IsLive [] t h p = p
    calls-IsLive (c ∷ cs) t (h, hs) p = calls-IsLive cs _ hs (
        ((Leads-perform (lock_frame (watch client) IsLive Stable-IsLive Relocked-IsLive false)
            (lock_frame (watch client) IsLive Stable-IsLive Relocked-IsLive true)
            (locking (watch client) IsLive Stable-IsLive Relocked-IsLive) loops_on-IsNotWait text c
            h).at
          t p).0)

    ends-IsEnded :
        (statement : Statement)
        → is_end statement ≡ true
        → Leads IsNotWait
            (Locked IsLive false)
            (Locked IsEnded false)
            (end_transaction (watch client) text statement)
    ends-IsEnded =
        Leads-end_transaction (watch client) IsLive Stable-IsLive Relocked-IsLive text IsEnded
          Relocked-IsEnded finalize-IsEnded

    abbrev IsLiveOrEnded : ContractDbTransaction (Watched S) → Type 0
    IsLiveOrEnded t = Locked IsLive false t ⊎ Locked IsEnded false t

    commit-IsLiveOrEnded :
        Leads IsNotWait (Locked IsLive false) IsLiveOrEnded (commit (watch client) text)
    commit-IsLiveOrEnded =
        Leads-commit (lock_frame (watch client) IsLive Stable-IsLive Relocked-IsLive false)
          (lock_frame (watch client) IsLive Stable-IsLive Relocked-IsLive true)
          (locking (watch client) IsLive Stable-IsLive Relocked-IsLive) loops_on-IsNotWait text
          IsLiveOrEnded (λ t p. inl p)
          (λ statement h.
            Leads-weaken _ (Locked IsEnded false) (ends-IsEnded statement h) (λ t p. inr p))

    abort-IsLive :
        Leads IsNotWait (Locked IsLive false) (Locked IsEnded false) (abort (watch client) text)
    abort-IsLive =
        Leads-abort (lock_frame (watch client) IsLive Stable-IsLive Relocked-IsLive false)
          (lock_frame (watch client) IsLive Stable-IsLive Relocked-IsLive true)
          (locking (watch client) IsLive Stable-IsLive Relocked-IsLive) loops_on-IsNotWait text
          (Locked IsEnded false) (λ t p e. absurd (cc)) ends-IsEnded

    abort_ended :
        (t : ContractDbTransaction (Watched S))
        → Locked IsEnded false t
        → abort (watch client) text t ≡ (ok tt, t)
    unfolding abort
    abort_ended t p = if_true t.finalized (ok tt, t) _ p.1.0

    abort_either :
        (t : ContractDbTransaction (Watched S))
        → IsLiveOrEnded t
        → Locked IsEnded false (abort (watch client) text t).1
    abort_either t (inl p) = (abort-IsLive.at t p).0
    abort_either t (inr p) =
        subst
          (λ (r : Outcome (Unit {0}) × ContractDbTransaction (Watched S)). Locked IsEnded false r.1)
          (sym (abort_ended t p)) p

    -- A transaction that is open and whose lock is free is ended once it is committed, and aborted
    -- where that throws or not, after any calls: then it is finalized, its client was released
    -- exactly once, it stands nowhere in the list of transactions, and its lock is free. This holds
    -- whatever the database answers and whatever the calls and the commit throw, where the statements
    -- of `query` are none of BEGIN, COMMIT and ROLLBACK.
    pub abort-IsEnded :
        (cs : List Call) (t : ContractDbTransaction (Watched S))
        → All IsWork cs
        → Locked IsLive false t
        → Locked IsEnded false
            (abort
              (watch client)
              text
              (commit (watch client) text (take_steps (watch client) text (map call cs) t).1).1).1
    abort-IsEnded cs t h p = abort_either _ ((commit-IsLiveOrEnded.at _ (calls-IsLive cs t h p)).0)
