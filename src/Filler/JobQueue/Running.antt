-- ===== src/Filler/JobQueue/Running.antt =====
-- Which jobs of the queue of src/filler/jobqueue.ts run at a time.
use atomicassets_api.Prelude.{
  ℕ, Bool, true, false, not, ◌&&◌, ◌||◌, ◌≡◌, refl, sym, ap, ◌∙◌, inl, inr, String, Option, none,
  some, List, [], ◌∷◌, ◌++◌, map, filter, any, leb, ◌==◌, Bool-cases, ==_iff, if_true, if_false,
  if◌then◌else◌, arith,
}
use mathlib.Core.Path.{subst}
use atomicassets_api.Filler.JobQueue.{
  Priority, value_of, Job, JobQueue, add, is_running, is_due, earlier, earliest, start, pulse_at,
  pulse, is_job, without, others, settle, stop,
}

pub data Event : Type 0 where
  added : ℕ → String → ℕ → Priority → ℕ → Event
  pulsed : ℕ → Event
  settled : Job → ℕ → Event
  stopped : Event

unfoldable pub happen : Event → JobQueue → JobQueue
happen (added id name interval priority now) q = add id name interval priority now q
happen (pulsed now) q = pulse now q
-- A promise that is not in flight does not settle.
happen (settled j now) q = if any (is_job j) q.in_flight then settle j now q else q
happen stopped q = stop q

unfoldable pub happen_all : List Event → JobQueue → JobQueue
happen_all [] q = q
happen_all (e ∷ es) q = happen_all es (happen e q)

abbrev pub Distinct : List ℕ → Type 0
Distinct [] = Unit {0}
Distinct (p ∷ ps) = (is_running p ps ≡ false) × Distinct ps

abbrev pub priorities : List Job → List ℕ
priorities js = map (λ (j : Job). value_of j.priority) js

-- The running priorities are those of the jobs in flight, and no two of these have the same.
abbrev pub IsExclusive : JobQueue → Type 0
IsExclusive q = (q.running_priorities ≡ priorities q.in_flight) × Distinct q.running_priorities

pub is_running-append :
    (p r : ℕ) (ps : List ℕ) → is_running p (ps ++ r ∷ []) ≡ is_running p ps || r == p
is_running-append p r [] = elim (Bool-cases (r == p)) [ inl e ↦ rw e refl | inr e ↦ rw e refl ]
is_running-append p r (x ∷ ps) = elim (Bool-cases (x == p)) [
  | inl e ↦ rw e refl
  | inr e ↦ rw e (is_running-append p r ps)
]

or_false : (a b : Bool) → a || b ≡ false → (a ≡ false) × (b ≡ false)
or_false true b e = absurd (cc)
or_false false b e = (refl, e)

==_sym : (m n : ℕ) → (m == n) ≡ false → (n == m) ≡ false
==_sym m n e = ground arith

Distinct-append :
    (p : ℕ) (ps : List ℕ) → is_running p ps ≡ false → Distinct ps → Distinct (ps ++ p ∷ [])
Distinct-append p [] h d = (refl, tt)
Distinct-append p (x ∷ ps) h d =
    let r = or_false (x == p) (is_running p ps) h in
    (is_running-append x p ps ∙ rw (d.0, ==_sym x p r.0) refl, Distinct-append p ps r.1 d.1)

others_same : (p : ℕ) (ps : List ℕ) → is_running p ps ≡ false → others p ps ≡ ps
others_same p [] h = refl
others_same p (x ∷ ps) h =
    let r = or_false (x == p) (is_running p ps) h in
    if_true (not (x == p)) _ _ (ap not r.0) ∙ ap (λ l. x ∷ l) (others_same p ps r.1)

still_absent :
    (p x : ℕ) (ps : List ℕ) → is_running x ps ≡ false → is_running x (others p ps) ≡ false
still_absent p x [] h = refl
still_absent p x (y ∷ ps) h =
    let r = or_false (y == x) (is_running x ps) h in
    elim (Bool-cases (y == p)) [
      | inl e ↦ rw e (still_absent p x ps r.1)
      | inr e ↦ rw (e, r.0) (still_absent p x ps r.1)
    ]

Distinct-others : (p : ℕ) (ps : List ℕ) → Distinct ps → Distinct (others p ps)
Distinct-others p [] d = tt
Distinct-others p (x ∷ ps) d = elim (Bool-cases (x == p)) [
  | inl e ↦ rw e (Distinct-others p ps d.1)
  | inr e ↦ rw e (still_absent p x ps d.0, Distinct-others p ps d.1)
]

priorities-append :
    (js : List Job) (j : Job)
    → priorities (js ++ j ∷ []) ≡ priorities js ++ value_of j.priority ∷ []
priorities-append [] j = refl
priorities-append (k ∷ js) j = ap (λ l. value_of k.priority ∷ l) (priorities-append js j)

and_true : (a b : Bool) → a && b ≡ true → (a ≡ true) × (b ≡ true)
and_true true b e = (refl, e)
and_true false b e = absurd (cc)

pub or_true : (a b : Bool) → b ≡ true → a || b ≡ true
or_true true b e = refl
or_true false b e = e

runs_if_found :
    (j : Job) (ks : List Job)
    → any (is_job j) ks ≡ true
    → is_running (value_of j.priority) (priorities ks) ≡ true
runs_if_found j [] h = absurd (cc)
runs_if_found j (k ∷ ks) h = elim (Bool-cases (is_job j k)) [
  | inl e ↦ rw ((and_true (k.id == j.id) (value_of k.priority == value_of j.priority) e).1) refl
  | inr e ↦
      or_true (value_of k.priority == value_of j.priority) _
        (runs_if_found j ks (sym (ap (λ b. b || any (is_job j) ks) e) ∙ h))
]

differs :
    (m n : ℕ) (ps : List ℕ) → is_running m ps ≡ false → is_running n ps ≡ true → (m == n) ≡ false
differs m n ps h k = elim (Bool-cases (m == n)) [
  | inl e ↦
      let s = subst (λ r. is_running r ps ≡ false) ((==_iff m n).0 e) h in
      absurd (let x = sym k ∙ s in cc)
  | inr e ↦ e
]

others-without :
    (j : Job) (ks : List Job)
    → any (is_job j) ks ≡ true
    → Distinct (priorities ks)
    → others (value_of j.priority) (priorities ks) ≡ priorities (without j ks)
others-without j [] h d = absurd (cc)
others-without j (k ∷ ks) h d = elim (Bool-cases (is_job j k)) [
  | inl e ↦
      let same = (and_true (k.id == j.id) (value_of k.priority == value_of j.priority) e).1 in
      rw (e, same)
        (others_same (value_of j.priority) (priorities ks)
          (subst (λ p. is_running p (priorities ks) ≡ false) ((==_iff _ _).0 same) d.0))
  | inr e ↦
      let found = sym (ap (λ b. b || any (is_job j) ks) e) ∙ h in
      let apart : (value_of k.priority == value_of j.priority) ≡ false =
        differs (value_of k.priority) (value_of j.priority) (priorities ks) d.0
          (runs_if_found j ks found) in
      rw (e, apart) (ap (λ l. value_of k.priority ∷ l) (others-without j ks found d.1))
]

start-IsExclusive :
    (o : Option Job) (q : JobQueue) (p : ℕ)
    → ((j : Job) → o ≡ some j → value_of j.priority ≡ p)
    → is_running p q.running_priorities ≡ false
    → IsExclusive q
    → IsExclusive (start o q)
start-IsExclusive none q p w h e = e
start-IsExclusive (some j) q p w h (e, d) = (
  ap (λ l. l ++ value_of j.priority ∷ []) e ∙ sym (priorities-append q.in_flight j),
  Distinct-append (value_of j.priority) q.running_priorities
      (subst (λ r. is_running r q.running_priorities ≡ false) (sym (w j refl)) h) d,
)

some_inj : (i j : Job) → some i ≡ some j → i ≡ j
some_inj i j e = ap (λ o. elim o [ some k ↦ k | none ↦ i ]) e

pub due_priority : (p now : ℕ) (j : Job) → is_due p now j ≡ true → value_of j.priority ≡ p
due_priority p now j e =
    (==_iff (value_of j.priority) p).0
      ((and_true (value_of j.priority == p) (leb j.next_run now) e).0)

earlier-IsDue :
    (p now : ℕ) (k : Job) (o : Option Job) (j : Job)
    → is_due p now k ≡ true
    → ((i : Job) → o ≡ some i → is_due p now i ≡ true)
    → earlier k o ≡ j
    → is_due p now j ≡ true
earlier-IsDue p now k none j d h e = subst (λ i. is_due p now i ≡ true) e d
earlier-IsDue p now k (some i) j d h e = elim (Bool-cases (leb k.next_run i.next_run)) [
  | inl l ↦
      subst (λ x. is_due p now x ≡ true) (sym (if_true (leb k.next_run i.next_run) k i l) ∙ e) d
  | inr l ↦
      subst (λ x. is_due p now x ≡ true) (sym (if_false (leb k.next_run i.next_run) k i l) ∙ e)
        (h i refl)
]

-- The earliest of the due jobs is due itself.
pub earliest-IsDue :
    (p now : ℕ) (js : List Job) (j : Job)
    → earliest (filter (is_due p now) js) ≡ some j
    → is_due p now j ≡ true
unfolding earliest
earliest-IsDue p now [] j e = absurd (cc)
earliest-IsDue p now (k ∷ js) j e = elim (Bool-cases (is_due p now k)) [
  | inl d ↦
      earlier-IsDue p now k (earliest (filter (is_due p now) js)) j d (earliest-IsDue p now js)
        (some_inj _ _ (sym (ap earliest (if_true (is_due p now k) _ _ d)) ∙ e))
  | inr d ↦ earliest-IsDue p now js j (sym (ap earliest (if_false (is_due p now k) _ _ d)) ∙ e)
]

pulse_at-IsExclusive : (now p : ℕ) (q : JobQueue) → IsExclusive q → IsExclusive (pulse_at now p q)
unfolding pulse_at
pulse_at-IsExclusive now p q h = elim (Bool-cases (is_running p q.running_priorities)) [
  | inl e ↦ rw e h
  | inr e ↦
      subst IsExclusive
        (sym (
          if_false (is_running p q.running_priorities) q
            (start (earliest (filter (is_due p now) q.jobs)) q) e))
        (start-IsExclusive (earliest (filter (is_due p now) q.jobs)) q p
          (λ j f. due_priority p now j (earliest-IsDue p now q.jobs j f)) e h)
]

settle-IsExclusive :
    (j : Job) (now : ℕ) (q : JobQueue)
    → any (is_job j) q.in_flight ≡ true
    → IsExclusive q
    → IsExclusive (settle j now q)
unfolding settle
settle-IsExclusive j now q h (e, d) = (
  ap (others (value_of j.priority)) e ∙ others-without j q.in_flight h (subst Distinct e d),
  Distinct-others (value_of j.priority) q.running_priorities d,
)

pub happen-IsExclusive : (e : Event) (q : JobQueue) → IsExclusive q → IsExclusive (happen e q)
unfolding happen add pulse stop
happen-IsExclusive (added id name interval priority now) q h = h
happen-IsExclusive (pulsed now) q h =
    pulse_at-IsExclusive now 3 _ (pulse_at-IsExclusive now 2 _ (pulse_at-IsExclusive now 1 q h))
happen-IsExclusive (settled j now) q h = elim (Bool-cases (any (is_job j) q.in_flight)) [
  | inl e ↦
      subst IsExclusive (sym (if_true (any (is_job j) q.in_flight) (settle j now q) q e))
        (settle-IsExclusive j now q e h)
  | inr e ↦ subst IsExclusive (sym (if_false (any (is_job j) q.in_flight) (settle j now q) q e)) h
]
happen-IsExclusive stopped q h = h

-- At any time at most one job of each priority runs: after any sequence of adds, pulses, ends of jobs
-- and stops, from a queue where this holds, the running priorities are those of the jobs whose
-- promises have not settled, and no two of these jobs have the same priority.
pub happen_all-IsExclusive :
    (es : List Event) (q : JobQueue) → IsExclusive q → IsExclusive (happen_all es q)
unfolding happen_all
happen_all-IsExclusive [] q h = h
happen_all-IsExclusive (e ∷ es) q h =
    happen_all-IsExclusive es (happen e q) (happen-IsExclusive e q h)
