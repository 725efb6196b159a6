-- ===== src/Exec.antt =====
-- Asynchronous code of the program that mutates state and may reject: an action takes the state and
-- gives a result beside the new state. What was written before a throw stays written.
pub mod Leads
use atomicassets_api.Prelude.{List, [], ◌∷◌, String}

-- What the program throws. `thrown` carries the message of an error that a callback or the
-- database raises.
pub data Failure : Type 0 where
  type_error : Failure
  skipped_block below_floor : Failure
  invalid_rollback_operation : Failure
  abi_not_found : Failure
  stop_before_start : Failure
  -- not thrown: the call never returns, since it waits for a lock that its caller holds, or since
  -- its loop goes on
  waits_for_itself loops_on : Failure
  thrown : String → Failure

pub data Outcome {ℓ} (A : Type ℓ) : Type ℓ where
  ok : A → Outcome A
  err : Failure → Outcome A

abbrev pub Exec : Type 0 → Type 0 → Type 0
Exec S A = S → Outcome A × S

module _ {S A : Type 0} where
  abbrev pub pure : A → Exec S A
  pure a s = (ok a, s)

  abbrev pub raise : Failure → Exec S A
  raise e s = (err e, s)

module _ {S A B : Type 0} where
  abbrev pub continue : Outcome A → (A → Exec S B) → Exec S B
  continue (ok a) f s = f a s
  continue (err e) f s = (err e, s)

  infixl 5 ◌>>=◌ ◌>>◌
  abbrev pub ◌>>=◌ : Exec S A → (A → Exec S B) → Exec S B
  ◌>>=◌ m f s = continue (m s).0 f (m s).1

  abbrev pub ◌>>◌ : Exec S A → Exec S B → Exec S B
  ◌>>◌ m n s = continue (m s).0 (λ _. n) (m s).1

-- `for (const x of xs) { await body(x); }`: the first rejection leaves the loop.
module _ {S X : Type 0} where
  unfoldable pub for_each : (X → Exec S (Unit {0})) → List X → Exec S (Unit {0})
  for_each body [] s = (ok tt, s)
  for_each body (x ∷ xs) s = continue (body x s).0 (λ _. for_each body xs) (body x s).1
