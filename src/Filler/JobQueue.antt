-- ===== src/Filler/JobQueue.antt =====
-- `JobQueue` of src/filler/jobqueue.ts. A job that runs is in `in_flight` until its promise settles.
use atomicassets_api.Prelude.{
  ℕ, ◌+◌, ◌*◌, Bool, true, false, not, ◌&&◌, ◌||◌, ◌≡◌, refl, sym, ap, ◌∙◌, ◌⊎◌, inl, inr, String,
  Option, none, some, List, [], ◌∷◌, ◌++◌, map, filter, any, ltb, leb, ◌==◌, Bool-cases,
  Option-cases, ==_iff, if◌then◌else◌, arith,
}
pub mod Running
pub mod Pulsed
mod Examples

-- `JobQueuePriority`
pub data Priority : Type 0 where
  high medium low : Priority

abbrev pub value_of : Priority → ℕ
value_of high = 1
value_of medium = 2
value_of low = 3

-- `Job`, less its function; `id` is the identity of the object.
pub record Job : Type 0 where
  pub id : ℕ
  pub name : String
  pub interval : ℕ
  pub priority : Priority
  pub next_run : ℕ

pub record JobQueue : Type 0 where
  pub jobs : List Job
  pub running_priorities : List ℕ
  pub in_flight : List Job

unfoldable pub new_queue : JobQueue
new_queue = record { jobs = []; running_priorities = []; in_flight = [] }

unfoldable pub add : ℕ → String → ℕ → Priority → ℕ → JobQueue → JobQueue
add id name interval_seconds priority now q = record q {
  jobs =
      q.jobs
      ++ (record {
        id = id;
        name = name;
        interval = interval_seconds * 1000;
        priority = priority;
        next_run = now;
      })
        ∷ [];
}

abbrev pub is_running : ℕ → List ℕ → Bool
is_running p ps = any (λ r. r == p) ps

abbrev pub is_due : ℕ → ℕ → Job → Bool
is_due p now j = (value_of j.priority == p) && leb j.next_run now

abbrev pub earlier : Job → Option Job → Job
earlier j none = j
earlier j (some k) = if leb j.next_run k.next_run then j else k

-- The first of the jobs that the sort by `nextRun` puts first.
unfoldable pub earliest : List Job → Option Job
earliest [] = none
earliest (j ∷ js) = some (earlier j (earliest js))

abbrev pub start : Option Job → JobQueue → JobQueue
start none q = q
start (some j) q = record q {
  running_priorities = q.running_priorities ++ value_of j.priority ∷ [];
  in_flight = q.in_flight ++ j ∷ [];
}

unfoldable pub pulse_at : ℕ → ℕ → JobQueue → JobQueue
unfolding earliest
pulse_at now p q =
    if is_running p q.running_priorities
    then q
    else start (earliest (filter (is_due p now) q.jobs)) q

unfoldable pub pulse : ℕ → JobQueue → JobQueue
unfolding pulse_at
pulse now q = pulse_at now 3 (pulse_at now 2 (pulse_at now 1 q))

abbrev pub reschedule : ℕ → ℕ → Job → Job
reschedule id now j = if j.id == id then record j { next_run = now + j.interval } else j

-- The object `j`
abbrev pub is_job : Job → Job → Bool
is_job j k = (k.id == j.id) && (value_of k.priority == value_of j.priority)

abbrev pub without : Job → List Job → List Job
without j [] = []
without j (k ∷ ks) = if is_job j k then ks else k ∷ without j ks

abbrev pub others : ℕ → List ℕ → List ℕ
others p ps = filter (λ r. not (r == p)) ps

-- The end of `run`, and of the promise that `pulse` waits for.
unfoldable pub settle : Job → ℕ → JobQueue → JobQueue
settle j now q = record {
  jobs = map (reschedule j.id now) q.jobs;
  running_priorities = others (value_of j.priority) q.running_priorities;
  in_flight = without j q.in_flight;
}

unfoldable pub stop : JobQueue → JobQueue
stop q = record q { jobs = [] }
