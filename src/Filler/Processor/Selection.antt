-- ===== src/Filler/Processor/Selection.antt =====
-- What `processActionTrace` queues.
use atomicassets_api.Prelude.{
  ℕ, suc, ◌+◌, ◌≡◌, refl, sym, ap, ◌∙◌, true, false, ◌&&◌, List, [], ◌∷◌, ◌++◌, length,
  length-append, filter, ltb, arith, Bool-cases, inl, inr, if◌then◌else◌,
}
use mathlib.Core.List.{append_assoc, append-nil}
use atomicassets_api.Prelude.Predicates.{All}
use atomicassets_api.Exec.{ok, for_each}
use atomicassets_api.Filler.Types.{Block, Trace, Transaction}
use atomicassets_api.Filler.Modules.{FilterModule, check_trace}
use atomicassets_api.Filler.Queue.{Job}
use atomicassets_api.Filler.Queue.Phases.{IsNumbered}
use atomicassets_api.Filler.Processor.{
  ProcessingState, Processor, Listener, TraceCallback, is_head, selects, enqueue, offer_trace,
  process_action_trace, action_trace_needed,
}

abbrev L : Type 0 → Type 0 → Type 0
L S V = Listener (TraceCallback S V)

module _ {S V : Type 0} (block : Block) (tx : Transaction) (trace : Trace V) where
  -- The jobs of a list of listeners, numbered from the length of the queue that they join.
  abbrev pub jobs_from : ℕ → List (Listener (TraceCallback S V)) → List (Job S)
  jobs_from k [] = []
  jobs_from k (l ∷ ls) =
      record { run = l.callback block tx trace; priority = l.priority; index = k + 1 }
      ∷ jobs_from (k + 1) ls

  -- The listener uses the live queue in this state.
  abbrev pub IsLive : ProcessingState → Listener (TraceCallback S V) → Type 0
  IsLive st l = (is_head st && l.options.irreversible_queue) ≡ false

  abbrev chosen :
      Processor S V → List (Listener (TraceCallback S V)) → List (Listener (TraceCallback S V))
  chosen p ls = filter (selects p.state trace.account trace.name) ls

  abbrev with_jobs : Processor S V → List (Job S) → Processor S V
  with_jobs p js = record p { live_queue = p.live_queue ++ js }

  offer_trace_skip :
      (l : L S V) (p : Processor S V)
      → selects p.state trace.account trace.name l ≡ false
      → offer_trace block tx trace l p ≡ (ok tt, p)
  unfolding offer_trace selects
  offer_trace_skip l p h = ground arith

  offer_trace_push :
      (l : L S V) (p : Processor S V)
      → selects p.state trace.account trace.name l ≡ true
      → IsLive p.state l
      → offer_trace block tx trace l p
        ≡ (ok tt, with_jobs p (jobs_from (length p.live_queue) (l ∷ [])))
  unfolding offer_trace enqueue selects
  offer_trace_push l p h k = ground arith

  queue_after :
      (q : List (Job S)) (j : Job S) (ls : List (L S V))
      → (q ++ j ∷ []) ++ jobs_from (length (q ++ j ∷ [])) ls ≡ q ++ j ∷ jobs_from (length q + 1) ls
  queue_after q j ls =
      let one : length (q ++ j ∷ []) ≡ length q + 1 = omega (arith, length-append q (j ∷ [])) in
      ap (λ n. (q ++ j ∷ []) ++ jobs_from n ls) one
      ∙ append_assoc q (j ∷ []) (jobs_from (length q + 1) ls)

  offers :
      (ls : List (L S V)) (p : Processor S V)
      → All (IsLive p.state) ls
      → for_each (offer_trace block tx trace) ls p
        ≡ (ok tt, with_jobs p (jobs_from (length p.live_queue) (chosen p ls)))
  unfolding for_each
  offers [] p h = ap (λ q. (ok tt, record p { live_queue = q })) (sym (append-nil p.live_queue))
  offers (l ∷ ls) p h = elim (Bool-cases (selects p.state trace.account trace.name l)) [
    | inl e ↦
        rw (e, offer_trace_push l p e h.0)
          (offers ls (with_jobs p (jobs_from (length p.live_queue) (l ∷ []))) h.1
            ∙ ap (λ q. (ok tt, record p { live_queue = q }))
                (queue_after p.live_queue _ (chosen p ls)))
    | inr e ↦ rw (e, offer_trace_skip l p e) (offers ls p h.1)
  ]

  -- Where no listener diverts to the irreversible queue in the current state, a trace that the
  -- modules pass appends to the live queue one job for each listener that the state and the filters
  -- select, in the order of registration, numbered on from the queue's length, and changes nothing
  -- else; a trace that the modules reject changes nothing.
  pub process_action_trace-queue :
      (modules : List (FilterModule V)) (p : Processor S V)
      → All (IsLive p.state) p.trace_listeners
      → process_action_trace modules block tx trace p ≡ (
        ok tt,
        record p {
          live_queue =
              p.live_queue
              ++ jobs_from (length p.live_queue) (
                  if check_trace modules block tx trace
                  then filter (selects p.state trace.account trace.name) p.trace_listeners
                  else []);
        },
      )
  unfolding process_action_trace
  process_action_trace-queue modules p h = elim (Bool-cases (check_trace modules block tx trace)) [
    | inl e ↦ rw e (offers p.trace_listeners p h)
    | inr e ↦ rw e (ap (λ q. (ok tt, record p { live_queue = q })) (sym (append-nil p.live_queue)))
  ]

  jobs_from-IsNumbered : (k : ℕ) (ls : List (L S V)) → IsNumbered k (jobs_from k ls)
  jobs_from-IsNumbered k [] = tt
  jobs_from-IsNumbered k (l ∷ ls) =
      let e : k + 1 ≡ suc k = omega arith in (omega arith, rw e (jobs_from-IsNumbered (suc k) ls))

  not_chosen :
      (ls : List (L S V)) (p : Processor S V)
      → ltb 0 (length (chosen p ls)) ≡ false
      → for_each (offer_trace block tx trace) ls p ≡ (ok tt, p)
  unfolding for_each
  not_chosen [] p h = refl
  not_chosen (l ∷ ls) p h = elim (Bool-cases (selects p.state trace.account trace.name l)) [
    | inl e ↦ absurd (ground arith)
    | inr e ↦ rw (offer_trace_skip l p e) (not_chosen ls p (ground arith))
  ]

  -- A trace that `actionTraceNeeded` does not ask for is queued nowhere and cannot fail: whatever
  -- the state, the modules and the options of the listeners.
  pub process_action_trace-not_needed :
      (modules : List (FilterModule V)) (p : Processor S V)
      → (action_trace_needed p trace.account trace.name).0 ≡ false
      → process_action_trace modules block tx trace p ≡ (ok tt, p)
  unfolding process_action_trace action_trace_needed
  process_action_trace-not_needed modules p h =
      elim (Bool-cases (check_trace modules block tx trace)) [
        | inl e ↦ rw e (not_chosen p.trace_listeners p h)
        | inr e ↦ rw e refl
      ]
