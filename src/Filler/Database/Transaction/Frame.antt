-- ===== src/Filler/Database/Transaction/Frame.antt =====
-- What a property of transactions must satisfy for the operations of src/filler/database.ts to keep it.
use atomicassets_api.Prelude.{Bool, true, false, ◌≡◌, refl, String}
use atomicassets_api.Exec.{Exec, ok, Failure, thrown, type_error, invalid_rollback_operation, ◌>>◌}
use atomicassets_api.Exec.Leads.{Leads, Leads-then, Leads-weaken}
use atomicassets_api.Filler.Database.Statement.{
  Statement, begin_transaction, commit_transaction, roll_back_transaction, Client,
}
use atomicassets_api.Filler.Database.Transaction.{
  ContractDbTransaction, with_lock, client_query, begin,
}

-- Neither BEGIN nor COMMIT nor ROLLBACK
abbrev pub is_work : Statement → Bool
is_work begin_transaction = false
is_work commit_transaction = false
is_work roll_back_transaction = false
is_work _ = true

abbrev pub is_end : Statement → Bool
is_end commit_transaction = true
is_end roll_back_transaction = true
is_end _ = false

abbrev pub leave_transaction : {S : Type 0} → Exec (ContractDbTransaction S) (Unit {0})
leave_transaction t = (ok tt, record t { in_transaction = false })

module _ {S : Type 0} where
  -- The same lock, state and world: they differ in the buffers, the logs, the counter and the cache.
  pub record Alike (t u : ContractDbTransaction S) : Type 0 where
    pub lock : u.locked ≡ t.locked
    pub opened : u.in_transaction ≡ t.in_transaction
    pub ended : u.finalized ≡ t.finalized
    pub works : u.world ≡ t.world

-- A property `At_rest`, and what holds beside it once `begin` has been called.
pub record Frame {S : Type 0} (client : Client S) (E : Failure → Type 0) : Type 1 where
  pub At_rest : ContractDbTransaction S → Type 0
  pub Inside : ContractDbTransaction S → Type 0
  pub weaken : (t : ContractDbTransaction S) → Inside t → At_rest t
  pub rest_alike : (t u : ContractDbTransaction S) → Alike t u → At_rest t → At_rest u
  pub inside_alike : (t u : ContractDbTransaction S) → Alike t u → Inside t → Inside u
  pub begins : Leads E At_rest Inside (begin client)
  pub queries :
      (statement : Statement)
      → is_work statement ≡ true
      → Leads E Inside Inside (client_query client statement)
  pub turns :
      Leads E Inside Inside
        (client_query client commit_transaction >> (leave_transaction >> begin client))
  pub thrown_fails : (message : String) → E (thrown message)
  pub type_fails : E type_error
  pub invalid_fails : E invalid_rollback_operation

-- That an operation which takes the lock leads from one property to itself where its body leads from
-- another to itself.
pub record Locking {S : Type 0} {client : Client S} {E : Failure → Type 0}
    (outer inner : Frame client E) : Type 1 where
  pub locks :
      {A : Type 0} (m : Exec (ContractDbTransaction S) A)
      → Leads E inner.At_rest inner.At_rest m
      → Leads E outer.At_rest outer.At_rest (with_lock true m)

module _ {S A : Type 0} {client : Client S} {E : Failure → Type 0}
    (outer inner : Frame client E) where
  pub Leads-with_lock :
      (lock : Bool) (m : Exec (ContractDbTransaction S) A)
      → (lock ≡ true → Locking outer inner)
      → ((f : Frame client E) → Leads E f.At_rest f.At_rest m)
      → Leads E outer.At_rest outer.At_rest (with_lock lock m)
  unfolding with_lock
  Leads-with_lock true m may h = (may refl).locks m (h inner)
  Leads-with_lock false m may h = h outer

-- The test at the start of `begin`, and a body that is run once it is open.
module _ {S A : Type 0} {client : Client S} {E : Failure → Type 0} (f : Frame client E) where
  pub Leads-begin :
      (m : Exec (ContractDbTransaction S) A)
      → Leads E f.Inside f.Inside m
      → Leads E f.At_rest f.At_rest (begin client >> m)
  Leads-begin m h =
      Leads-weaken (begin client >> m) f.Inside (Leads-then (begin client) m f.begins h (λ u q. q))
        f.weaken

-- What holds inside a transaction, as a property of its own.
abbrev pub inside_frame :
    {S : Type 0} {client : Client S} {E : Failure → Type 0} → Frame client E → Frame client E
inside_frame f = record {
  At_rest = f.Inside;
  Inside = f.Inside;
  weaken = λ t p. p;
  rest_alike = f.inside_alike;
  inside_alike = f.inside_alike;
  begins = record { at = λ t p. f.begins.at t (f.weaken t p) };
  queries = f.queries;
  turns = f.turns;
  thrown_fails = f.thrown_fails;
  type_fails = f.type_fails;
  invalid_fails = f.invalid_fails;
}
