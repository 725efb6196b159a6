-- ===== src/Filler/Processor.antt =====
-- The listener registry of src/filler/processor.ts and what it queues. The queues themselves are in
-- Queue.antt; `S` is what a callback can write and `V` a payload.
pub mod Selection
pub mod Registry
use atomicassets_api.Prelude.{
  ℕ, suc, ◌+◌, Bool, true, false, not, ◌&&◌, ◌||◌, String, str_eq, Option, none, some, List, [],
  ◌∷◌, ◌++◌, map, length, filter, any, leb, ltb, ◌==◌, if◌then◌else◌,
}
use atomicassets_api.Exec.{Exec, Outcome, ok, err, type_error, pure, raise, for_each}
use atomicassets_api.Filler.Types.{Block, Trace, Transaction, Row}
use atomicassets_api.Filler.Modules.{FilterModule, check_trace, check_delta}
use atomicassets_api.Filler.Queue.{
  Job, PriorityListener, execute_head_queue, execute_irreversible_queue,
}

pub data ProcessingState : Type 0 where
  head catchup : ProcessingState

abbrev pub is_head : ProcessingState → Bool
is_head head = true
is_head catchup = false

pub record ListenerOptions : Type 0 where
  pub deserialize : Bool
  pub head_only : Bool
  pub irreversible_queue : Bool

-- `defaultListenerOptions`
abbrev pub default_options : ListenerOptions
default_options = record { deserialize = true; head_only = false; irreversible_queue = false }

-- `TraceListenerElement` and `DeltaListenerElement`; `name` is the action or the table.
pub record Listener (C : Type 0) : Type 0 where
  pub id : ℕ
  pub contract : String
  pub name : String
  pub callback : C
  pub priority : ℕ
  pub options : ListenerOptions

-- An element of `commitListeners`, `committedListeners` or `forkListeners`.
pub record Hook (S : Type 0) : Type 0 where
  pub id : ℕ
  pub callback : Exec S (Unit {0})
  pub priority : ℕ

abbrev pub TraceCallback : Type 0 → Type 0 → Type 0
TraceCallback S V = Block → Transaction → Trace V → Exec S (Unit {0})

abbrev pub DeltaCallback : Type 0 → Type 0 → Type 0
DeltaCallback S V = Block → Row V → Exec S (Unit {0})

-- `next_id` gives every registered object its identity. The constructor sets `liveQueue` and not
-- `irreversibleQueue`, which stays undefined: `none`.
pub record Processor (S V : Type 0) : Type 0 where
  pub trace_listeners : List (Listener (TraceCallback S V))
  pub table_listeners : List (Listener (DeltaCallback S V))
  pub priority_listeners : List (PriorityListener S)
  pub commit_listeners : List (Hook S)
  pub committed_listeners : List (Hook S)
  pub fork_listeners : List (Hook S)
  pub state : ProcessingState
  pub live_queue : List (Job S)
  pub irreversible_queue : Option (List (Job S))
  pub next_id : ℕ

abbrev matches_name : String → String → Bool
matches_name val filter_name = str_eq filter_name "*" || str_eq val filter_name

unfoldable pub match_filter : String → String → String → String → Bool
match_filter val1 val2 filter1 filter2 = matches_name val1 filter1 && matches_name val2 filter2

module _ {C : Type 0} where
  -- `this.state === HEAD || !options.headOnly`
  abbrev pub active : ProcessingState → Listener C → Bool
  active st l = is_head st || not l.options.head_only

  unfoldable pub selects : ProcessingState → String → String → Listener C → Bool
  selects st contract name l = active st l && match_filter contract name l.contract l.name

  -- `splice` at the index of the object with that identity, if there is one.
  pub remove_listener : ℕ → List (Listener C) → List (Listener C)
  remove_listener i [] = []
  remove_listener i (l ∷ ls) = if l.id == i then ls else l ∷ remove_listener i ls

module _ {S : Type 0} where
  -- `push` and a stable sort by priority
  pub insert_hook : Hook S → List (Hook S) → List (Hook S)
  insert_hook h [] = h ∷ []
  insert_hook h (k ∷ ks) = if ltb h.priority k.priority then h ∷ k ∷ ks else k ∷ insert_hook h ks

  pub insert_priority_listener :
      PriorityListener S → List (PriorityListener S) → List (PriorityListener S)
  insert_priority_listener h [] = h ∷ []
  insert_priority_listener h (k ∷ ks) =
      if ltb h.priority k.priority then h ∷ k ∷ ks else k ∷ insert_priority_listener h ks

  pub remove_hook : ℕ → List (Hook S) → List (Hook S)
  remove_hook i [] = []
  remove_hook i (l ∷ ls) = if l.id == i then ls else l ∷ remove_hook i ls

  pub remove_priority_listener : ℕ → List (PriorityListener S) → List (PriorityListener S)
  remove_priority_listener i [] = []
  remove_priority_listener i (l ∷ ls) = if l.id == i then ls else l ∷ remove_priority_listener i ls

module _ {S V : Type 0} where
  -- The constructor.
  abbrev pub new_processor : ProcessingState → Processor S V
  new_processor st = record {
    trace_listeners = [];
    table_listeners = [];
    priority_listeners = [];
    commit_listeners = [];
    committed_listeners = [];
    fork_listeners = [];
    state = st;
    live_queue = [];
    irreversible_queue = none;
    next_id = 0;
  }

  unfoldable pub set_state : ProcessingState → Processor S V → Processor S V
  set_state st p = record p { state = st }

  -- Each registration gives the new registry, and the identity that its destructor removes.
  pub on_action_trace :
      String → String → TraceCallback S V → ℕ → ListenerOptions → Processor S V → Processor S V × ℕ
  on_action_trace contract action callback priority options p =
      let element : Listener (TraceCallback S V) = record {
        id = p.next_id;
        contract = contract;
        name = action;
        callback = callback;
        priority = priority;
        options = options;
      } in
      (
        record p { trace_listeners = p.trace_listeners ++ element ∷ []; next_id = suc p.next_id },
        p.next_id,
      )

  pub off_action_trace : ℕ → Processor S V → Processor S V
  off_action_trace i p = record p { trace_listeners = remove_listener i p.trace_listeners }

  pub on_contract_row :
      String → String → DeltaCallback S V → ℕ → ListenerOptions → Processor S V → Processor S V × ℕ
  on_contract_row contract table callback priority options p =
      let element : Listener (DeltaCallback S V) = record {
        id = p.next_id;
        contract = contract;
        name = table;
        callback = callback;
        priority = priority;
        options = options;
      } in
      (
        record p { table_listeners = p.table_listeners ++ element ∷ []; next_id = suc p.next_id },
        p.next_id,
      )

  pub off_contract_row : ℕ → Processor S V → Processor S V
  off_contract_row i p = record p { table_listeners = remove_listener i p.table_listeners }

  pub on_priority_complete : ℕ → Exec S (Unit {0}) → ℕ → Processor S V → Processor S V × ℕ
  on_priority_complete threshold callback priority p =
      let element : PriorityListener S = record {
        id = p.next_id;
        callback = callback;
        threshold = threshold;
        priority = priority;
      } in
      (
        record p {
          priority_listeners = insert_priority_listener element p.priority_listeners;
          next_id = suc p.next_id;
        },
        p.next_id,
      )

  pub off_priority_complete : ℕ → Processor S V → Processor S V
  off_priority_complete i p = record p {
    priority_listeners = remove_priority_listener i p.priority_listeners;
  }

  abbrev hook : Exec S (Unit {0}) → ℕ → Processor S V → Hook S
  hook callback priority p = record { id = p.next_id; callback = callback; priority = priority }

  pub on_commit : Exec S (Unit {0}) → ℕ → Processor S V → Processor S V × ℕ
  on_commit callback priority p = (
    record p {
      commit_listeners = insert_hook (hook callback priority p) p.commit_listeners;
      next_id = suc p.next_id;
    },
    p.next_id,
  )

  pub off_commit : ℕ → Processor S V → Processor S V
  off_commit i p = record p { commit_listeners = remove_hook i p.commit_listeners }

  pub on_committed : Exec S (Unit {0}) → ℕ → Processor S V → Processor S V × ℕ
  on_committed callback priority p = (
    record p {
      committed_listeners = insert_hook (hook callback priority p) p.committed_listeners;
      next_id = suc p.next_id;
    },
    p.next_id,
  )

  pub off_committed : ℕ → Processor S V → Processor S V
  off_committed i p = record p { committed_listeners = remove_hook i p.committed_listeners }

  pub on_fork : Exec S (Unit {0}) → ℕ → Processor S V → Processor S V × ℕ
  on_fork callback priority p = (
    record p {
      fork_listeners = insert_hook (hook callback priority p) p.fork_listeners;
      next_id = suc p.next_id;
    },
    p.next_id,
  )

  pub off_fork : ℕ → Processor S V → Processor S V
  off_fork i p = record p { fork_listeners = remove_hook i p.fork_listeners }

  -- `actionTraceNeeded` and `contractRowNeeded`: `process`, then `deserialize`.
  unfoldable pub action_trace_needed : Processor S V → String → String → Bool × Bool
  unfolding selects
  action_trace_needed p contract action =
      let listeners = filter (selects p.state contract action) p.trace_listeners in
      (
        ltb 0 (length listeners),
        any (λ (l : Listener (TraceCallback S V)). l.options.deserialize) listeners,
      )

  unfoldable pub contract_row_needed : Processor S V → String → String → Bool × Bool
  unfolding selects
  contract_row_needed p contract table =
      let listeners = filter (selects p.state contract table) p.table_listeners in
      (
        ltb 0 (length listeners),
        any (λ (l : Listener (DeltaCallback S V)). l.options.deserialize) listeners,
      )

  -- A job is queued under the number of jobs that are in the live queue, plus one.
  unfoldable pub enqueue : ListenerOptions → ℕ → Exec S (Unit {0}) → Exec (Processor S V) (Unit {0})
  enqueue options priority run p =
      let element : Job S = record {
        run = run;
        priority = priority;
        index = length p.live_queue + 1;
      } in
      if is_head p.state && options.irreversible_queue
      then elim p.irreversible_queue [
        | none ↦ (err type_error, p)
        | some q ↦ (ok tt, record p { irreversible_queue = some (q ++ element ∷ []) })
      ]
      else (ok tt, record p { live_queue = p.live_queue ++ element ∷ [] })

  -- The two tests with `continue`, in the source's order, and the push.
  unfoldable pub offer_trace :
      Block → Transaction → Trace V → Listener (TraceCallback S V) → Exec (Processor S V) (Unit {0})
  offer_trace block tx trace l p =
      if match_filter trace.account trace.name l.contract l.name
      then if l.options.head_only && not (is_head p.state)
        then (ok tt, p)
        else enqueue l.options l.priority (l.callback block tx trace) p
      else (ok tt, p)

  unfoldable pub offer_row :
      Block → Row V → Listener (DeltaCallback S V) → Exec (Processor S V) (Unit {0})
  offer_row block delta l p =
      if match_filter delta.code delta.table l.contract l.name
      then if l.options.head_only && not (is_head p.state)
        then (ok tt, p)
        else enqueue l.options l.priority (l.callback block delta) p
      else (ok tt, p)

  unfoldable pub process_action_trace :
      List (FilterModule V) → Block → Transaction → Trace V → Exec (Processor S V) (Unit {0})
  process_action_trace modules block tx trace p =
      if check_trace modules block tx trace
      then for_each (offer_trace block tx trace) p.trace_listeners p
      else (ok tt, p)

  unfoldable pub process_contract_row :
      List (FilterModule V) → Block → Row V → Exec (Processor S V) (Unit {0})
  process_contract_row modules block delta p =
      if check_delta modules block delta
      then for_each (offer_row block delta) p.table_listeners p
      else (ok tt, p)

  -- The live queue is emptied first; what runs acts on `S`.
  unfoldable pub take_head_queue : Processor S V → Processor S V × Exec S (Unit {0})
  take_head_queue p = (
    record p { live_queue = [] },
    execute_head_queue p.priority_listeners (map (λ (h : Hook S). h.callback) p.commit_listeners)
        p.live_queue,
  )

  unfoldable pub notify_fork : Processor S V → Exec S (Unit {0})
  notify_fork p = for_each (λ (h : Hook S). h.callback) p.fork_listeners

  unfoldable pub notify_commit : Processor S V → Exec S (Unit {0})
  notify_commit p = for_each (λ (h : Hook S). h.callback) p.committed_listeners

  -- On a queue that was never set `queue.sort` throws, after the assignment of an empty one.
  unfoldable pub take_irreversible_queue :
      Processor S V → Processor S V × Outcome (Exec S (Unit {0}))
  take_irreversible_queue p = (
    record p { irreversible_queue = some [] },
    elim p.irreversible_queue [
      | none ↦ err type_error
      | some q ↦ ok (execute_irreversible_queue q)
    ],
  )
