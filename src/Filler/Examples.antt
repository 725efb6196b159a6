-- ===== src/Filler/Examples.antt =====
-- Runs of the filler at concrete inputs.
use atomicassets_api.Prelude.{
  ℕ, ◌≤◌, ◌<◌, ◌≡◌, refl, ◌++◌, true, false, String, none, some, List, [], ◌∷◌, map, length, filter,
  if◌then◌else◌, arith,
}
use atomicassets_api.Prelude.Predicates.{All}
use atomicassets_api.Json.{Json, str, num, obj, arr, end, field, nil}
use atomicassets_api.Exec.{Exec, ok, for_each, ◌>>◌}
use atomicassets_api.Prelude.{◌==◌, ==_iff}
use atomicassets_api.Filler.Utils.Unique.{array_unique, first_ones, array_unique-first_ones}
use atomicassets_api.Filler.Semaphore.{
  acquiring, releasing, purging, new_semaphore, perform_all, IsFullIfWaiting,
  perform_all-IsFullIfWaiting,
}
use atomicassets_api.Filler.Types.{Block, Trace, Transaction}
use atomicassets_api.Filler.Utils.{array_chunk, array_chunk_lem, concat}
use atomicassets_api.Filler.Modules.{FilterModule, check_trace}
use atomicassets_api.Filler.Queue.{Job, PriorityListener, execute_head_queue}
use atomicassets_api.Filler.Queue.Phases.{perform, phases}
use atomicassets_api.Filler.Queue.Execution.{execute_head_queue-phases}
use atomicassets_api.Filler.Processor.{
  Processor, Listener, default_options, head, new_processor, process_action_trace, selects,
  match_filter, action_trace_needed, TraceCallback, DeltaCallback, on_action_trace,
  off_action_trace, on_contract_row, off_contract_row, on_priority_complete, off_priority_complete,
  on_commit, off_commit, on_committed, off_committed, on_fork, off_fork,
}
use atomicassets_api.Filler.Processor.Selection.{
  process_action_trace-queue, process_action_trace-not_needed, jobs_from,
}
use atomicassets_api.Filler.Processor.Registry.{registrations_undone, new_processor-IsFresh, spent}
use atomicassets_api.Filler.Notification.{
  Notification, Heap, trace, fork, free_reference, has_own, encode_notifications, envelope_json,
}
use atomicassets_api.Filler.Notification.References.{has_own-free_reference}
use atomicassets_api.Filler.Notification.Decode.{decode_message, is_well_formed_transaction}
use atomicassets_api.Filler.Notification.RoundTrip.{IsWellFormed, decode-encode, received}
use atomicassets_api.Filler.Notification.Safety.{decode_message-AreSafe, AreSafe}
use atomicassets_api.Filler.Notifier.{Notifier, new_notifier}

-- Two transactions of one id, of which the second has another body.
abbrev two_transactions : Heap
two_transactions r = record {
  id = "aa";
  body = obj (field "id" (str "aa") (field "traces" (arr nil) (field "n" (num r) end)));
}

abbrev block_object : Json
block_object = obj (field "block_num" (num 7) end)

abbrev action : ℕ → Notification
action tx = record {
  channel = some "transfers";
  type = trace;
  block = block_object;
  tx = some tx;
  trace = some (obj end);
  delta = none;
}

abbrev fork_notice : Notification
fork_notice = record {
  channel = none;
  type = fork;
  block = block_object;
  tx = none;
  trace = none;
  delta = none;
}

abbrev chunk : List Notification
chunk = action 0 ∷ action 1 ∷ fork_notice ∷ action 0 ∷ []

chunk-IsWellFormed : All (IsWellFormed two_transactions) chunk
unfolding is_well_formed_transaction
chunk-IsWellFormed =
    ((refl, refl, refl), ((refl, refl, refl), ((refl, tt, tt), ((refl, refl, refl), tt))))

decode-encode_example :
    let sent = encode_notifications two_transactions chunk in
    decode_message (envelope_json two_transactions sent.0 sent.1)
    ≡ ok (map (received two_transactions) chunk)
decode-encode_example = decode-encode two_transactions chunk (omega arith) chunk-IsWellFormed

abbrev busy : Notifier
busy = record (new_notifier 24) {
  notifications = chunk;
  publishable_flags = true ∷ false ∷ true ∷ true ∷ [];
}

abbrev message : Json
message =
    envelope_json two_transactions (encode_notifications two_transactions chunk).0
      (encode_notifications two_transactions chunk).1

decode_message-AreSafe_example : AreSafe (map (received two_transactions) chunk)
decode_message-AreSafe_example =
    decode_message-AreSafe message (map (received two_transactions) chunk)
      (decode-encode two_transactions chunk (omega arith) chunk-IsWellFormed)

has_own-free_reference_example :
    has_own (free_reference "aa" (("aa", 0) ∷ ("aa#1", 1) ∷ [])) (("aa", 0) ∷ ("aa#1", 1) ∷ [])
    ≡ false
has_own-free_reference_example = has_own-free_reference "aa" (("aa", 0) ∷ ("aa#1", 1) ∷ [])

-- A callback appends to a log.
abbrev note : String → Exec (List String) (Unit {0})
note s log = (ok tt, log ++ s ∷ [])

abbrev queued : List (Job (List String))
queued =
    record { run = note "late"; priority = 2; index = 1 }
    ∷ record { run = note "first"; priority = 0; index = 2 }
    ∷ record { run = note "second"; priority = 0; index = 3 }
    ∷ []

abbrev completion : List (PriorityListener (List String))
completion = record { id = 0; callback = note "done"; threshold = 0; priority = 0 } ∷ []

execute_head_queue-phases_example : execute_head_queue completion (note "commit" ∷ []) queued ≡ (
    for_each (perform completion) (phases 0 3 queued)
    >> for_each (λ (c : Exec (List String) (Unit {0})). c) (note "commit" ∷ []))
execute_head_queue-phases_example =
    execute_head_queue-phases completion (note "commit" ∷ []) 3 queued (refl, (refl, (refl, tt)))
      (omega arith, (omega arith, (omega arith, tt)))

abbrev block_seven : Block
block_seven = record { block_num = 7; timestamp = "2024"; json = end }

abbrev transaction : Transaction
transaction = record { ref = 0; id = "aa" }

abbrev transfer : Trace ℕ
transfer = record { global_sequence = 1; account = "token"; name = "transfer"; payload = 5 }

abbrev listener : String → Listener (TraceCallback (List String) ℕ)
listener name = record {
  id = 0;
  contract = "token";
  name = name;
  callback = λ b tx t. note "seen";
  priority = 3;
  options = default_options;
}

abbrev listening : Processor (List String) ℕ
listening = record (new_processor head) {
  trace_listeners = listener "transfer" ∷ listener "issue" ∷ listener "*" ∷ [];
}

abbrev positive : FilterModule ℕ
positive = record {
  trace_filter = some (λ b tx t. true);
  delta_filter = none;
  raw_trace_filter = some (λ n tx t. true);
  raw_delta_filter = none;
}

process_action_trace-queue_example :
    process_action_trace (positive ∷ []) block_seven transaction transfer listening ≡ (
      ok tt,
      record listening {
        live_queue =
            listening.live_queue
            ++ jobs_from block_seven transaction transfer (length listening.live_queue) (
                if check_trace (positive ∷ []) block_seven transaction transfer
                then filter
                    (selects listening.state transfer.account transfer.name)
                    listening.trace_listeners
                else []);
      },
    )
process_action_trace-queue_example =
    process_action_trace-queue block_seven transaction transfer (positive ∷ []) listening
      (refl, (refl, (refl, tt)))

other_not_needed : (action_trace_needed listening "other" "transfer").0 ≡ false
unfolding action_trace_needed match_filter
other_not_needed = refl

process_action_trace-not_needed_example :
    process_action_trace
      (positive ∷ [])
      block_seven
      transaction
      (record transfer { account = "other" })
      listening
    ≡ (ok tt, listening)
process_action_trace-not_needed_example =
    process_action_trace-not_needed block_seven transaction (record transfer { account = "other" })
      (positive ∷ []) listening other_not_needed

abbrev numbers : List ℕ
numbers = 1 ∷ 2 ∷ 3 ∷ []

array_chunk_lem_example :
    (concat (array_chunk numbers 2) ≡ numbers)
    × All (λ (c : List ℕ). (0 < length c) × (length c ≤ 2)) (array_chunk numbers 2)
array_chunk_lem_example = array_chunk_lem numbers 2 (omega arith)

abbrev silent : TraceCallback (List String) ℕ
silent b tx t log = (ok tt, log)

abbrev silent_row : DeltaCallback (List String) ℕ
silent_row b d log = (ok tt, log)

abbrev empty : Processor (List String) ℕ
empty = new_processor head

registrations_undone_example :
    (let r = on_action_trace "token" "transfer" silent 3 default_options empty in
      off_action_trace r.1 r.0 ≡ spent empty)
    × (let r = on_contract_row "token" "transfer" silent_row 3 default_options empty in
        off_contract_row r.1 r.0 ≡ spent empty)
    × (let r = on_priority_complete 2 (note "x") 3 empty in
        off_priority_complete r.1 r.0 ≡ spent empty)
    × (let r = on_commit (note "x") 3 empty in off_commit r.1 r.0 ≡ spent empty)
    × (let r = on_committed (note "x") 3 empty in off_committed r.1 r.0 ≡ spent empty)
    × (let r = on_fork (note "x") 3 empty in off_fork r.1 r.0 ≡ spent empty)
registrations_undone_example =
    registrations_undone empty (new_processor-IsFresh head) "token" "transfer" silent silent_row
      default_options 2 3 (note "x")

perform_all-IsFullIfWaiting_example : IsFullIfWaiting (
    perform_all
      (acquiring 1 ∷ acquiring 2 ∷ acquiring 3 ∷ releasing ∷ purging ∷ releasing ∷ [])
      (new_semaphore 1))
perform_all-IsFullIfWaiting_example =
    perform_all-IsFullIfWaiting 1
      (acquiring 1 ∷ acquiring 2 ∷ acquiring 3 ∷ releasing ∷ purging ∷ releasing ∷ [])

array_unique-first_ones_example :
    array_unique (λ a b. a == b) (3 ∷ 1 ∷ 3 ∷ 2 ∷ 1 ∷ [])
    ≡ first_ones (λ a b. a == b) [] (3 ∷ 1 ∷ 3 ∷ 2 ∷ 1 ∷ [])
array_unique-first_ones_example =
    array_unique-first_ones (λ a b. a == b) (λ n. (==_iff n n).1 refl) (3 ∷ 1 ∷ 3 ∷ 2 ∷ 1 ∷ [])
