-- ===== src/Filler/JobQueue/Pulsed.antt =====
-- That a pulse of the queue of src/filler/jobqueue.ts starts what is due.
use atomicassets_api.Prelude.{
  ℕ, true, ◌||◌, ◌≡◌, refl, sym, ap, ◌∙◌, inl, inr, Option, none, some, List, [], ◌∷◌, ◌++◌, filter,
  any, ◌==◌, Bool-cases, ==_iff, if_true, if_false,
}
use mathlib.Core.Path.{subst}
use mathlib.Core.List.{Mem, mem-cons_self, mem-cons_of_mem}
use atomicassets_api.Filler.JobQueue.{
  Priority, high, medium, low, value_of, Job, JobQueue, is_running, is_due, earlier, earliest,
  start, pulse_at, pulse,
}
use atomicassets_api.Filler.JobQueue.Running.{
  is_running-append, or_true, earliest-IsDue, due_priority, priorities, IsExclusive, pulsed, happen,
  happen-IsExclusive,
}

still_running :
    (p r : ℕ) (ps : List ℕ) → is_running p ps ≡ true → is_running p (ps ++ r ∷ []) ≡ true
still_running p r ps h = is_running-append p r ps ∙ rw h refl

now_running : (p : ℕ) (ps : List ℕ) → is_running p (ps ++ p ∷ []) ≡ true
now_running p ps =
    is_running-append p p ps ∙ or_true (is_running p ps) (p == p) ((==_iff p p).1 refl)

start-running :
    (o : Option Job) (q : JobQueue) (p : ℕ)
    → is_running p q.running_priorities ≡ true
    → is_running p (start o q).running_priorities ≡ true
start-running none q p h = h
start-running (some j) q p h = still_running p (value_of j.priority) q.running_priorities h

pulse_at-running :
    (now r p : ℕ) (q : JobQueue)
    → is_running p q.running_priorities ≡ true
    → is_running p (pulse_at now r q).running_priorities ≡ true
unfolding pulse_at
pulse_at-running now r p q h = elim (Bool-cases (is_running r q.running_priorities)) [
  | inl e ↦ rw e h
  | inr e ↦ rw e (start-running (earliest (filter (is_due r now) q.jobs)) q p h)
]

start-jobs : (o : Option Job) (q : JobQueue) → (start o q).jobs ≡ q.jobs
start-jobs none q = refl
start-jobs (some j) q = refl

pulse_at-jobs : (now p : ℕ) (q : JobQueue) → (pulse_at now p q).jobs ≡ q.jobs
unfolding pulse_at
pulse_at-jobs now p q = elim (Bool-cases (is_running p q.running_priorities)) [
  | inl e ↦ rw e refl
  | inr e ↦ rw e (start-jobs (earliest (filter (is_due p now) q.jobs)) q)
]

-- A list with a due job has an earliest one.
earliest_found :
    (p now : ℕ) (js : List Job)
    → any (is_due p now) js ≡ true
    → (j : Job) × (earliest (filter (is_due p now) js) ≡ some j)
unfolding earliest
earliest_found p now [] h = absurd (cc)
earliest_found p now (k ∷ js) h = elim (Bool-cases (is_due p now k)) [
  | inl e ↦ (
    earlier k (earliest (filter (is_due p now) js)),
    ap earliest (if_true (is_due p now k) _ _ e),
  )
  | inr e ↦
      let r = earliest_found p now js (sym (ap (λ b. b || any (is_due p now) js) e) ∙ h) in
      (r.0, ap earliest (if_false (is_due p now k) _ _ e) ∙ r.1)
]

start-found :
    (p now : ℕ) (o : Option Job) (q : JobQueue) (j : Job)
    → o ≡ some j
    → value_of j.priority ≡ p
    → is_running p (start o q).running_priorities ≡ true
start-found p now o q j e w =
    subst (λ x. is_running p (start x q).running_priorities ≡ true) (sym e)
      (subst (λ r. is_running r (q.running_priorities ++ value_of j.priority ∷ []) ≡ true) w
        (now_running (value_of j.priority) q.running_priorities))

pulse_at_lem :
    (now p : ℕ) (q : JobQueue)
    → any (is_due p now) q.jobs ≡ true
    → is_running p (pulse_at now p q).running_priorities ≡ true
unfolding pulse_at
pulse_at_lem now p q h = elim (Bool-cases (is_running p q.running_priorities)) [
  | inl e ↦ rw e e
  | inr e ↦
      let r = earliest_found p now q.jobs h in
      rw e (
        start-found p now (earliest (filter (is_due p now) q.jobs)) q r.0 r.1
          (due_priority p now r.0 (earliest-IsDue p now q.jobs r.0 r.1)))
]

pulse-running :
    (now : ℕ) (priority : Priority) (q : JobQueue)
    → any (is_due (value_of priority) now) q.jobs ≡ true
    → is_running (value_of priority) (pulse now q).running_priorities ≡ true
unfolding pulse
pulse-running now high q h =
    pulse_at-running now 3 1 (pulse_at now 2 (pulse_at now 1 q))
      (pulse_at-running now 2 1 (pulse_at now 1 q) (pulse_at_lem now 1 q h))
pulse-running now medium q h =
    pulse_at-running now 3 2 (pulse_at now 2 (pulse_at now 1 q))
      (pulse_at_lem now 2 (pulse_at now 1 q) (ap (any (is_due 2 now)) (pulse_at-jobs now 1 q) ∙ h))
pulse-running now low q h =
    pulse_at_lem now 3 (pulse_at now 2 (pulse_at now 1 q))
      (ap (any (is_due 3 now)) (pulse_at-jobs now 2 (pulse_at now 1 q) ∙ pulse_at-jobs now 1 q) ∙ h)

-- A running priority of a queue is that of a job in flight.
found_in_flight :
    (p : ℕ) (js : List Job)
    → is_running p (priorities js) ≡ true
    → (j : Job) × Mem j js × (value_of j.priority ≡ p)
found_in_flight p [] h = absurd (cc)
found_in_flight p (k ∷ js) h = elim (Bool-cases (value_of k.priority == p)) [
  | inl e ↦ (k, mem-cons_self, (==_iff _ _).0 e)
  | inr e ↦
      let r = found_in_flight p js (sym (ap (λ b. b || is_running p (priorities js)) e) ∙ h) in
      (r.0, mem-cons_of_mem k r.1, r.2)
]

-- No job waits for another priority: after a pulse of a queue whose running priorities are those of
-- its jobs in flight, no two of them of the same, there is a job in flight of each priority of which
-- a job is due.
pub pulse-in_flight :
    (now : ℕ) (priority : Priority) (q : JobQueue)
    → IsExclusive q
    → any (is_due (value_of priority) now) q.jobs ≡ true
    → (j : Job) × Mem j (pulse now q).in_flight × (value_of j.priority ≡ value_of priority)
unfolding happen pulse
pulse-in_flight now priority q x h = found_in_flight (value_of priority) (pulse now q).in_flight (
    subst (λ ps. is_running (value_of priority) ps ≡ true) (happen-IsExclusive (pulsed now) q x).0
      (pulse-running now priority q h))
