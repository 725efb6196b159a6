-- ===== src/Filler/Receiver/Queueing.antt =====
-- What `processActionTrace` and `processContractRow` of src/filler/processor.ts leave alone.
use atomicassets_api.Prelude.{◌≡◌, refl, ◌∙◌, List, [], ◌∷◌, arith}
use atomicassets_api.Exec.{Exec, Outcome, ok, err, continue, for_each}
use atomicassets_api.Filler.Types.{Block, Trace, Transaction, Row}
use atomicassets_api.Filler.Modules.{FilterModule}
use atomicassets_api.Filler.Processor.{
  Processor, process_action_trace, process_contract_row, enqueue, offer_trace, offer_row, Listener,
  TraceCallback, DeltaCallback,
}

-- Queueing does not change the processing state.
module _ {S V : Type 0} where
  abbrev StateKept : Processor S V → Outcome (Unit {0}) × Processor S V → Type 0
  StateKept p done = done.1.state ≡ p.state

  continue_state :
      (p q : Processor S V) (o : Outcome (Unit {0})) (m : Exec (Processor S V) (Unit {0}))
      → q.state ≡ p.state
      → StateKept q (m q)
      → StateKept p (continue o (λ _. m) q)
  continue_state p q (ok u) m e h = h ∙ e
  continue_state p q (err f) m e h = e

  for_each_state :
      {X : Type 0} (body : X → Exec (Processor S V) (Unit {0}))
      → ((x : X) (p : Processor S V) → StateKept p (body x p))
      → (xs : List X) (p : Processor S V) → StateKept p (for_each body xs p)
  unfolding for_each
  for_each_state body h [] p = refl
  for_each_state body h (x ∷ xs) p =
      continue_state p (body x p).1 (body x p).0 (for_each body xs) (h x p)
        (for_each_state body h xs (body x p).1)

  offer_trace_state :
      (block : Block) (tx : Transaction) (t : Trace V) (l : Listener (TraceCallback S V))
      (p : Processor S V)
      → StateKept p (offer_trace block tx t l p)
  unfolding offer_trace enqueue
  offer_trace_state block tx t l p = ground arith

  offer_row_state :
      (block : Block) (d : Row V) (l : Listener (DeltaCallback S V)) (p : Processor S V)
      → StateKept p (offer_row block d l p)
  unfolding offer_row enqueue
  offer_row_state block d l p = ground arith

  pub process_action_trace_state :
      (modules : List (FilterModule V)) (block : Block) (tx : Transaction) (t : Trace V)
      (p : Processor S V)
      → StateKept p (process_action_trace modules block tx t p)
  unfolding process_action_trace
  process_action_trace_state modules block tx t p = ground (
    arith,
    for_each_state (offer_trace block tx t) (offer_trace_state block tx t) p.trace_listeners p,
  )

  pub process_contract_row_state :
      (modules : List (FilterModule V)) (block : Block) (d : Row V) (p : Processor S V)
      → StateKept p (process_contract_row modules block d p)
  unfolding process_contract_row
  process_contract_row_state modules block d p =
      ground
        (arith, for_each_state (offer_row block d) (offer_row_state block d) p.table_listeners p)
