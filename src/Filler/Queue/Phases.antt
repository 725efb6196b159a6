-- ===== src/Filler/Queue/Phases.antt =====
-- The order in which a batch should run, with no sort: one phase for each priority, in ascending
-- order; in a phase the jobs of that priority in the order of their arrival, then its completion.
use atomicassets_api.Prelude.{ℕ, zero, suc, ◌<◌, ◌≡◌, List, [], ◌∷◌, ◌++◌, map, filter, ◌==◌}
use atomicassets_api.Prelude.Predicates.{All}
use atomicassets_api.Exec.{Exec}
use atomicassets_api.Filler.Queue.{Job, PriorityListener, notify_priority}

pub data Event (S : Type 0) : Type 0 where
  job : Job S → Event S
  completed : ℕ → Event S

module _ {S : Type 0} where
  -- What an event does: a job runs, and a completion runs the listeners of that priority.
  abbrev pub perform : List (PriorityListener S) → Event S → Exec S (Unit {0})
  perform ls (job j) = j.run
  perform ls (completed p) = notify_priority ls p

  abbrev pub of_priority : ℕ → List (Job S) → List (Job S)
  of_priority p q = filter (λ (j : Job S). j.priority == p) q

  abbrev pub phase : ℕ → List (Job S) → List (Event S)
  phase p [] = []
  phase p (j ∷ js) = map job (j ∷ js) ++ completed p ∷ []

  -- The phases of the priorities from `lo` on, `n` of them.
  unfoldable pub phases : ℕ → ℕ → List (Job S) → List (Event S)
  phases lo zero q = []
  phases lo (suc n) q = phase lo (of_priority lo q) ++ phases (suc lo) n q

  -- The indexes are those of the arrival: one more than the number of jobs before.
  abbrev pub IsNumbered : ℕ → List (Job S) → Type 0
  IsNumbered k [] = Unit
  IsNumbered k (j ∷ js) = (j.index ≡ suc k) × IsNumbered (suc k) js

  abbrev pub IsBelow : ℕ → List (Job S) → Type 0
  IsBelow n = All (λ (j : Job S). j.priority < n)
