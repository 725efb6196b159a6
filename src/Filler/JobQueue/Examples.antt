-- ===== src/Filler/JobQueue/Examples.antt =====
-- A queue of src/filler/jobqueue.ts with three jobs, of two priorities.
use atomicassets_api.Prelude.{◌≡◌, refl, List, [], ◌∷◌}
use mathlib.Core.List.{Mem}
use atomicassets_api.Filler.JobQueue.{high, low, Job, JobQueue, new_queue, pulse, value_of}
use atomicassets_api.Filler.JobQueue.Running.{
  Event, added, pulsed, settled, stopped, happen_all, IsExclusive, happen_all-IsExclusive,
}
use atomicassets_api.Filler.JobQueue.Pulsed.{pulse-in_flight}

abbrev refresh : Job
refresh = record { id = 1; name = "refresh"; interval = 60000; priority = high; next_run = 5 }

abbrev events : List Event
events =
    added 1 "refresh" 60 high 5
    ∷ added 2 "stats" 60 high 6
    ∷ added 3 "prune" 600 low 7
    ∷ pulsed 10
    ∷ settled refresh 20
    ∷ pulsed 21
    ∷ stopped
    ∷ []

happen_all-IsExclusive_example : IsExclusive (happen_all events new_queue)
unfolding new_queue
happen_all-IsExclusive_example = happen_all-IsExclusive events new_queue (refl, tt)

abbrev prune : Job
prune = record { id = 3; name = "prune"; interval = 600000; priority = low; next_run = 7 }

abbrev waiting : JobQueue
waiting = record {
  jobs = refresh ∷ prune ∷ [];
  running_priorities = 3 ∷ [];
  in_flight = prune ∷ [];
}

pulse-in_flight_example :
    (j : Job) × Mem j (pulse 10 waiting).in_flight × (value_of j.priority ≡ value_of high)
pulse-in_flight_example = pulse-in_flight 10 high waiting (refl, (refl, tt)) refl
