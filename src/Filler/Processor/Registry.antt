-- ===== src/Filler/Processor/Registry.antt =====
-- Registering a listener and calling the destructor that it returns leaves the registry as it was.
use atomicassets_api.Prelude.{ℕ, suc, ◌<◌, ◌≡◌, refl, ap, String, List, [], ◌∷◌, ◌++◌, arith}
use atomicassets_api.Prelude.Predicates.{All}
use atomicassets_api.Exec.{Exec}
use atomicassets_api.Filler.Queue.{PriorityListener}
use atomicassets_api.Filler.Processor.{
  Processor, Listener, ListenerOptions, Hook, TraceCallback, DeltaCallback, remove_listener,
  insert_hook, insert_priority_listener, remove_hook, remove_priority_listener, on_action_trace,
  off_action_trace, on_contract_row, off_contract_row, on_priority_complete, off_priority_complete,
  on_commit, off_commit, on_committed, off_committed, on_fork, off_fork, new_processor,
  ProcessingState,
}

module _ {C : Type 0} where
  abbrev OlderListeners : ℕ → List (Listener C) → Type 0
  OlderListeners n = All (λ (l : Listener C). l.id < n)

  remove_listener_last :
      (i : ℕ) (ls : List (Listener C)) (x : Listener C)
      → OlderListeners i ls
      → x.id ≡ i
      → remove_listener i (ls ++ x ∷ []) ≡ ls
  unfolding remove_listener
  remove_listener_last i [] x h e = ground arith
  remove_listener_last i (l ∷ ls) x h e = ground (arith, remove_listener_last i ls x h.1 e)

module _ {S : Type 0} where
  abbrev OlderHooks : ℕ → List (Hook S) → Type 0
  OlderHooks n = All (λ (l : Hook S). l.id < n)

  abbrev OlderPriorityListeners : ℕ → List (PriorityListener S) → Type 0
  OlderPriorityListeners n = All (λ (l : PriorityListener S). l.id < n)

  remove_hook-insert_hook :
      (i : ℕ) (x : Hook S) (ls : List (Hook S))
      → OlderHooks i ls
      → x.id ≡ i
      → remove_hook i (insert_hook x ls) ≡ ls
  unfolding remove_hook insert_hook
  remove_hook-insert_hook i x [] h e = ground arith
  remove_hook-insert_hook i x (l ∷ ls) h e = ground (arith, remove_hook-insert_hook i x ls h.1 e)

  remove_priority_listener-insert :
      (i : ℕ) (x : PriorityListener S) (ls : List (PriorityListener S))
      → OlderPriorityListeners i ls
      → x.id ≡ i
      → remove_priority_listener i (insert_priority_listener x ls) ≡ ls
  unfolding remove_priority_listener insert_priority_listener
  remove_priority_listener-insert i x [] h e = ground arith
  remove_priority_listener-insert i x (l ∷ ls) h e =
      ground (arith, remove_priority_listener-insert i x ls h.1 e)

-- Every registered object is older than the next identity.
pub record IsFresh {S V : Type 0} (p : Processor S V) : Type 0 where
  pub traces : OlderListeners p.next_id p.trace_listeners
  pub tables : OlderListeners p.next_id p.table_listeners
  pub priorities : OlderPriorityListeners p.next_id p.priority_listeners
  pub commits : OlderHooks p.next_id p.commit_listeners
  pub committed : OlderHooks p.next_id p.committed_listeners
  pub forks : OlderHooks p.next_id p.fork_listeners

module _ {S V : Type 0} where
  pub new_processor-IsFresh : (st : ProcessingState) → IsFresh {S = S} {V = V} (new_processor st)
  new_processor-IsFresh st = record {
    traces = tt;
    tables = tt;
    priorities = tt;
    commits = tt;
    committed = tt;
    forks = tt;
  }

  abbrev pub spent : Processor S V → Processor S V
  spent p = record p { next_id = suc p.next_id }

  -- In a registry whose objects have distinct identities, registering any listener (of traces, of
  -- rows, of a priority, of the commit, of what follows the commit, of a fork) and calling the
  -- destructor that it returns gives back every list of listeners as it was, in the same order.
  pub registrations_undone :
      (p : Processor S V)
      → IsFresh p
      → (contract name : String) (on_trace : TraceCallback S V) (on_row : DeltaCallback S V)
        (options : ListenerOptions) (threshold priority : ℕ) (run : Exec S (Unit {0}))
      → (let r = on_action_trace contract name on_trace priority options p in
          off_action_trace r.1 r.0 ≡ spent p)
        × (let r = on_contract_row contract name on_row priority options p in
            off_contract_row r.1 r.0 ≡ spent p)
        × (let r = on_priority_complete threshold run priority p in
            off_priority_complete r.1 r.0 ≡ spent p)
        × (let r = on_commit run priority p in off_commit r.1 r.0 ≡ spent p)
        × (let r = on_committed run priority p in off_committed r.1 r.0 ≡ spent p)
        × (let r = on_fork run priority p in off_fork r.1 r.0 ≡ spent p)
  unfolding on_action_trace off_action_trace on_contract_row off_contract_row on_priority_complete
      off_priority_complete on_commit off_commit on_committed off_committed on_fork off_fork
  registrations_undone p f contract name on_trace on_row options threshold priority run = (
    ap (λ ls. record (spent p) { trace_listeners = ls })
        (remove_listener_last p.next_id p.trace_listeners _ f.traces refl),
    ap (λ ls. record (spent p) { table_listeners = ls })
        (remove_listener_last p.next_id p.table_listeners _ f.tables refl),
    ap (λ ls. record (spent p) { priority_listeners = ls })
        (remove_priority_listener-insert p.next_id _ p.priority_listeners f.priorities refl),
    ap (λ ls. record (spent p) { commit_listeners = ls })
        (remove_hook-insert_hook p.next_id _ p.commit_listeners f.commits refl),
    ap (λ ls. record (spent p) { committed_listeners = ls })
        (remove_hook-insert_hook p.next_id _ p.committed_listeners f.committed refl),
    ap (λ ls. record (spent p) { fork_listeners = ls })
        (remove_hook-insert_hook p.next_id _ p.fork_listeners f.forks refl),
  )
