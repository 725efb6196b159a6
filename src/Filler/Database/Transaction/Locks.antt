-- ===== src/Filler/Database/Transaction/Locks.antt =====
-- The lock of a transaction of src/filler/database.ts, beside a property that does not depend on it.
use atomicassets_api.Prelude.{
  Bool, true, false, ◌≡◌, ◌≢◌, refl, ◌∙◌, String, if◌then◌else◌, Bool-cases, inl, inr,
}
use atomicassets_api.Exec.{
  Exec, Outcome, ok, err, Failure, thrown, type_error, waits_for_itself, loops_on,
  invalid_rollback_operation, pure,
}
use atomicassets_api.Exec.Leads.{
  Fails, Result, Leads, Leads-then, Leads-pure, Leads-weaken, Result-if,
}
use atomicassets_api.Filler.Database.Values.{Value}
use atomicassets_api.Filler.Database.Statement.{Statement, Client}
use atomicassets_api.Filler.Database.Transaction.{
  ContractDbTransaction, with_lock, release_lock, client_query,
}
use atomicassets_api.Filler.Database.Transaction.Finish.{finalize, end_with, end_transaction}
use atomicassets_api.Filler.Database.Transaction.Frame.{is_end, Frame, Locking}
use atomicassets_api.Filler.Database.Transaction.Stable.{Leads-client_query, Stable, stable_frame}

-- A call fails, if it does, by returning: it does not wait for a lock that it holds itself.
abbrev pub IsNotWait : Failure → Type 0
IsNotWait e = e ≢ waits_for_itself

pub thrown-IsNotWait : (message : String) → IsNotWait (thrown message)
thrown-IsNotWait message e = absurd (cc)

pub type_error-IsNotWait : IsNotWait type_error
type_error-IsNotWait e = absurd (cc)

pub invalid-IsNotWait : IsNotWait invalid_rollback_operation
invalid-IsNotWait e = absurd (cc)

pub loops_on-IsNotWait : IsNotWait loops_on
loops_on-IsNotWait e = absurd (cc)

lock_free :
    {A : Type 0} (b : Bool) (x y : A) (P : A → Type 0) → b ≡ false → P y → P (if b then x else y)
lock_free true x y P e p = absurd (cc)
lock_free false x y P e p = p

module _ {S : Type 0} where
  -- What taking and giving back the lock does not change.
  pub record Relocked (Q : ContractDbTransaction S → Type 0) : Type 0 where
    pub at : (t : ContractDbTransaction S) (b : Bool) → Q t → Q (record t { locked = b })

  abbrev pub Locked : (ContractDbTransaction S → Type 0) → Bool → ContractDbTransaction S → Type 0
  Locked Q b t = (t.locked ≡ b) × Q t

  Result-release_lock :
      {A : Type 0} (Q : ContractDbTransaction S → Type 0) (k : Relocked Q)
      (r : Outcome A × ContractDbTransaction S)
      → Result IsNotWait Q r
      → Result IsNotWait (Locked Q false) (release_lock r)
  Result-release_lock Q k (o, t) (p, q) = ((refl, k.at t false p), q)

module _ {S : Type 0} (client : Client S) (Q : ContractDbTransaction S → Type 0)
    (stable : Stable client IsNotWait thrown-IsNotWait Q) (relocked : Relocked Q) where
  pub Stable-Locked : (b : Bool) → Stable client IsNotWait thrown-IsNotWait (Locked Q b)
  Stable-Locked b = record {
    asked = λ t statement p. (p.0, stable.asked t statement p.1);
    registered = λ t l p. (p.0, stable.registered t l p.1);
    turned = λ t c p. (p.0, stable.turned t c p.1);
    alike = λ t u a p. (a.lock ∙ p.0, stable.alike t u a p.1);
  }

  abbrev pub lock_frame : Bool → Frame client IsNotWait
  lock_frame b =
      stable_frame client IsNotWait thrown-IsNotWait (Stable-Locked b) type_error-IsNotWait
        invalid-IsNotWait

  -- A body that leads from one property to another, with the lock.
  Leads-hold :
      {A : Type 0} (R : ContractDbTransaction S → Type 0) (k : Relocked R)
      (m : Exec (ContractDbTransaction S) A)
      → Leads IsNotWait (Locked Q true) R m
      → Leads IsNotWait (Locked Q false) (Locked R false) (with_lock true m)
  unfolding with_lock
  Leads-hold R k m h = record {
    at = λ t p.
        lock_free t.locked (err waits_for_itself, t) (release_lock (m (record t { locked = true })))
          (Result IsNotWait (Locked R false)) p.0
          (Result-release_lock R k (m (record t { locked = true }))
            (h.at (record t { locked = true }) (refl, relocked.at t true p.1)));
  }

  pub locking : Locking (lock_frame false) (lock_frame true)
  locking = record {
    locks = λ m h. Leads-hold Q relocked m (Leads-weaken m (Locked Q true) h (λ t p. p.1));
  }

  -- The end of a transaction, to what `finalize` leads to.
  module _ (text : Value → String) (R : ContractDbTransaction S → Type 0) (k : Relocked R)
      (closes : (o : Outcome (Unit {0})) (t : ContractDbTransaction S)
        → Q t
        → R (finalize client text (o, t)).1) where
    Leads-end_with :
        (statement : Statement) → Leads IsNotWait (Locked Q true) Q (end_with client text statement)
    Leads-end_with statement = record {
      at = λ t p.
          Result-if IsNotWait Q t.finalized (ok tt, t) _ (p.1, tt)
            (Result-if IsNotWait Q t.in_transaction _ (ok tt, t)
              ((Leads-then (client_query client statement) (pure tt)
                  (Leads-client_query client IsNotWait thrown-IsNotWait Q Q statement
                    (λ u q. stable.asked u statement q))
                  (Leads-pure tt (λ u q. q)) (λ u q. q)).at
                t p.1)
              (p.1, tt));
    }

    outcome_kept :
        (o : Outcome (Unit {0})) (t : ContractDbTransaction S)
        → Fails IsNotWait o
        → Fails IsNotWait (finalize client text (o, t)).0
    unfolding finalize
    outcome_kept o t q = elim (Bool-cases t.finalized) [ inl e ↦ rw e q | inr e ↦ rw e q ]

    finalize_outcome :
        (r : Outcome (Unit {0}) × ContractDbTransaction S)
        → Result IsNotWait Q r
        → Result IsNotWait R (finalize client text r)
    finalize_outcome (o, t) (p, q) = (closes o t p, outcome_kept o t q)

    pub Leads-end_transaction :
        (statement : Statement)
        → is_end statement ≡ true
        → Leads IsNotWait (Locked Q false) (Locked R false) (end_transaction client text statement)
    unfolding end_transaction
    Leads-end_transaction statement h = Leads-hold R k _ (record {
      at = λ t p.
          finalize_outcome (end_with client text statement t) ((Leads-end_with statement).at t p);
    })
