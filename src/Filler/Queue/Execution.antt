-- ===== src/Filler/Queue/Execution.antt =====
-- `executeHeadQueue` runs the phases of the queue.
use atomicassets_api.Prelude.{
  ℕ, zero, suc, ◌≤◌, ◌≡◌, refl, sym, ap, ◌∙◌, fun_ext, Option, none, some, Bool, true, false, List,
  [], ◌∷◌, ◌++◌, map, ◌==◌, arith, Bool-cases, inl, inr, if◌then◌else◌,
}
use mathlib.Core.List.{append_assoc}
use atomicassets_api.Prelude.Predicates.{All}
use atomicassets_api.Exec.{Exec, Outcome, ok, err, pure, continue, for_each, ◌>>◌}
use atomicassets_api.Filler.Queue.{
  Job, PriorityListener, sort_jobs, notify_priority, run_jobs, execute_head_queue,
}
use atomicassets_api.Filler.Queue.Phases.{
  Event, job, completed, perform, of_priority, phase, phases, IsNumbered, IsBelow,
}
use atomicassets_api.Filler.Queue.Order.{buckets, buckets-AtLeast, sort_jobs-buckets}

module _ {S : Type 0} where
  -- the events of the loop, as a list
  events : Option ℕ → List (Job S) → List (Event S)
  events none [] = []
  events (some p) [] = completed p ∷ []
  events none (j ∷ js) = job j ∷ events (some j.priority) js
  events (some p) (j ∷ js) =
      if j.priority == p
      then job j ∷ events (some j.priority) js
      else completed p ∷ job j ∷ events (some j.priority) js

  module _ (ls : List (PriorityListener S)) (p : ℕ) (j : Job S) where
    events_step :
        (b : Bool) (es : List (Event S)) (rest : Exec S (Unit {0}))
        → rest ≡ for_each (perform ls) es
        → ((if b then pure tt else notify_priority ls p) >> (j.run >> rest))
          ≡ for_each (perform ls) (if b then job j ∷ es else completed p ∷ job j ∷ es)
    unfolding for_each
    events_step true es rest ih = λ i s. continue (j.run s).0 (λ _. ih i) (j.run s).1
    events_step false es rest ih = λ i s.
        continue (notify_priority ls p s).0 (λ _ t. continue (j.run t).0 (λ _. ih i) (j.run t).1)
          (notify_priority ls p s).1

  pure_last : (r : Outcome (Unit {0})) (s : S) → continue r (λ _. pure tt) s ≡ (r, s)
  pure_last (ok u) s = refl
  pure_last (err e) s = refl

  run_jobs-events :
      (ls : List (PriorityListener S)) (last : Option ℕ) (q : List (Job S))
      → run_jobs ls last q ≡ for_each (perform ls) (events last q)
  unfolding run_jobs events for_each
  run_jobs-events ls none [] = refl
  run_jobs-events ls (some p) [] =
      fun_ext λ s. sym (pure_last (notify_priority ls p s).0 (notify_priority ls p s).1)
  run_jobs-events ls none (j ∷ js) =
      λ i s. continue (j.run s).0 (λ _. run_jobs-events ls (some j.priority) js i) (j.run s).1
  run_jobs-events ls (some p) (j ∷ js) =
      events_step ls p j (j.priority == p) (events (some j.priority) js)
        (run_jobs ls (some j.priority) js) (run_jobs-events ls (some j.priority) js)

  abbrev Has : ℕ → List (Job S) → Type 0
  Has p = All (λ (j : Job S). j.priority ≡ p)

  events_same :
      (p : ℕ) (f r : List (Job S))
      → Has p f
      → events (some p) (f ++ r) ≡ map job f ++ events (some p) r
  unfolding events
  events_same p [] r h = refl
  events_same p (j ∷ f) r h =
      ground (arith, events_same p f r h.1, ap (λ q. events (some q) (f ++ r)) h.0)

  of_priority-Has : (p : ℕ) (q : List (Job S)) → Has p (of_priority p q)
  of_priority-Has p [] = tt
  of_priority-Has p (j ∷ q) = elim (Bool-cases (j.priority == p)) [
    | inl e ↦ rw e (ground arith, of_priority-Has p q)
    | inr e ↦ rw e (of_priority-Has p q)
  ]

  events_leave :
      (p : ℕ) (l : List (Job S))
      → All (λ (j : Job S). suc p ≤ j.priority) l
      → events (some p) l ≡ completed p ∷ events none l
  unfolding events
  events_leave p [] h = refl
  events_leave p (j ∷ l) h = ground arith

  events_bucket :
      (lo : ℕ) (f r : List (Job S))
      → Has lo f
      → All (λ (j : Job S). suc lo ≤ j.priority) r
      → events none (f ++ r) ≡ phase lo f ++ events none r
  unfolding events
  events_bucket lo [] r h k = refl
  events_bucket lo (j ∷ f) r h k =
      ap (λ es. job j ∷ es)
        (ap (λ q. events (some q) (f ++ r)) h.0
          ∙ events_same lo f r h.1
          ∙ ap (λ es. map job f ++ es) (events_leave lo r k)
          ∙ sym (append_assoc (map job f) (completed lo ∷ []) (events none r)))

  events-phases : (lo n : ℕ) (q : List (Job S)) → events none (buckets lo n q) ≡ phases lo n q
  unfolding phases buckets events
  events-phases lo zero q = refl
  events-phases lo (suc n) q =
      events_bucket lo (of_priority lo q) (buckets (suc lo) n q) (of_priority-Has lo q)
        (buckets-AtLeast (suc lo) n q)
      ∙ ap (λ es. phase lo (of_priority lo q) ++ es) (events-phases (suc lo) n q)

  -- On a numbered queue whose priorities lie below `n`, `executeHeadQueue` runs the phases of the
  -- priorities from 0 on: in each the jobs of that priority in the order of arrival, then the
  -- listeners of its completion, and after all phases the commit listeners. The first rejection
  -- ends the run, with what was written before it.
  pub execute_head_queue-phases :
      (ls : List (PriorityListener S)) (commits : List (Exec S (Unit {0}))) (n : ℕ)
      (q : List (Job S))
      → IsNumbered 0 q
      → IsBelow n q
      → execute_head_queue ls commits q
        ≡ (for_each (perform ls) (phases 0 n q) >> for_each (λ (c : Exec S (Unit {0})). c) commits)
  unfolding execute_head_queue
  execute_head_queue-phases ls commits n q h b =
      ap (λ (m : Exec S (Unit {0})). m >> for_each (λ (c : Exec S (Unit {0})). c) commits)
        (run_jobs-events ls none (sort_jobs q)
          ∙ ap (for_each (perform ls))
              (ap (events none) (sort_jobs-buckets 0 n q h b) ∙ events-phases 0 n q))
