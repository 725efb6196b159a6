-- ===== src/Filler/Queue.antt =====
-- The job queue of src/filler/processor.ts: its sort and `executeHeadQueue`.
--
-- `S` is what a callback can write: the database transaction and the handlers' own fields. A
-- callback is an action on it. `lastPriority = -1` is `none`.
pub mod Phases
pub mod Order
pub mod Execution
use atomicassets_api.Prelude.{
  ℕ, Bool, true, false, not, Option, none, some, List, [], ◌∷◌, leb, ◌==◌, if◌then◌else◌,
}
use atomicassets_api.Exec.{Exec, pure, ◌>>◌, for_each}

-- An entry of `liveQueue`: the listener's callback with its arguments.
pub record Job (S : Type 0) : Type 0 where
  pub run : Exec S (Unit {0})
  pub priority : ℕ
  pub index : ℕ

-- `id` is the identity of the object.
pub record PriorityListener (S : Type 0) : Type 0 where
  pub id : ℕ
  pub callback : Exec S (Unit {0})
  pub threshold : ℕ
  pub priority : ℕ

module _ {S : Type 0} where
  -- The comparator returns a number that is not positive.
  abbrev pub job_le : Job S → Job S → Bool
  job_le a b = if a.priority == b.priority then leb a.index b.index else leb a.priority b.priority

  -- `queue.sort(...)`, a stable sort.
  unfoldable pub insert_job : Job S → List (Job S) → List (Job S)
  insert_job j [] = j ∷ []
  insert_job j (k ∷ ks) = if job_le j k then j ∷ k ∷ ks else k ∷ insert_job j ks

  unfoldable pub sort_jobs : List (Job S) → List (Job S)
  sort_jobs [] = []
  sort_jobs (j ∷ js) = insert_job j (sort_jobs js)

  -- The listeners whose threshold is the priority that has just been left.
  unfoldable pub notify_priority : List (PriorityListener S) → ℕ → Exec S (Unit {0})
  notify_priority ls p =
      for_each (λ (l : PriorityListener S). if l.threshold == p then l.callback else pure tt) ls

  -- `lastPriority >= 0 && job.priority !== lastPriority`
  abbrev leave : List (PriorityListener S) → Option ℕ → ℕ → Exec S (Unit {0})
  leave ls none q = pure tt
  leave ls (some p) q = if q == p then pure tt else notify_priority ls p

  -- The loop over the sorted jobs, from `lastPriority`, and the notification after it.
  unfoldable pub run_jobs : List (PriorityListener S) → Option ℕ → List (Job S) → Exec S (Unit {0})
  run_jobs ls none [] = pure tt
  run_jobs ls (some p) [] = notify_priority ls p
  run_jobs ls last (j ∷ js) =
      leave ls last j.priority >> (j.run >> run_jobs ls (some j.priority) js)

  -- `executeHeadQueue` on the queue that it has taken; `commits` are the commit listeners.
  unfoldable pub execute_head_queue :
      List (PriorityListener S) → List (Exec S (Unit {0})) → List (Job S) → Exec S (Unit {0})
  execute_head_queue ls commits queue =
      run_jobs ls none (sort_jobs queue) >> for_each (λ (c : Exec S (Unit {0})). c) commits

  -- `executeIrreversibleQueue` on the queue that it has taken
  unfoldable pub execute_irreversible_queue : List (Job S) → Exec S (Unit {0})
  execute_irreversible_queue queue = for_each (λ (j : Job S). j.run) (sort_jobs queue)
