-- ===== src/Filler/Notifier.antt =====
-- The notification queue of src/filler/notifier.ts. `W` is the world that publishing to Redis acts
-- on, `redis` the publishing of a message to the channel, and `byte_length` the size of its text.
pub mod Delivery
use atomicassets_api.Prelude.{
  ℕ, zero, suc, ◌+◌, ◌-◌, Bool, true, false, String, Option, none, some, List, [], ◌∷◌, ◌++◌, map,
  length, ltb, ◌==◌, if◌then◌else◌,
}
use atomicassets_api.Prelude.Int.{ℤ, lt_nat}
use atomicassets_api.Json.{Json, obj, end, Fields, get}
use atomicassets_api.Exec.{Outcome, ok, err, Exec}
use atomicassets_api.Filler.Utils.{array_chunk}
use atomicassets_api.Filler.Notification.{
  Notification, trace, delta, fork, Heap, Entry, encode_notifications, envelope_json, opt_field,
  notification_chunk_size,
}

-- The counters of src/metrics/filler-publish.ts that `publish` moves.
pub record Metrics : Type 0 where
  pub batches_skipped : ℕ
  pub skipped : ℕ
  pub published : ℕ
  pub transactions_published : ℕ
  pub bytes_published : ℕ
  pub publish_failures : ℕ

-- `ApiNotificationSender`; a distance of `none` is the positive infinity that it starts from.
pub record Notifier : Type 0 where
  pub notifications : List Notification
  pub publishable_flags : List Bool
  pub block_distance : Option ℤ
  pub head_distance_blocks : ℕ
  pub metrics : Metrics

abbrev pub new_notifier : ℕ → Notifier
new_notifier head_distance = record {
  notifications = [];
  publishable_flags = [];
  block_distance = none;
  head_distance_blocks = head_distance;
  metrics = record {
    batches_skipped = 0;
    skipped = 0;
    published = 0;
    transactions_published = 0;
    bytes_published = 0;
    publish_failures = 0;
  };
}

-- The whitelisted fields; one that the block does not have is undefined, and not serialized.
unfoldable pub prepare_notification_block : Fields → Json
prepare_notification_block b = obj (
    opt_field "block_id" (get "block_id" b) (
      opt_field "block_num" (get "block_num" b)
        (opt_field "timestamp" (get "timestamp" b) (opt_field "producer" (get "producer" b) end))))

unfoldable pub set_block_distance : ℤ → Notifier → Notifier
set_block_distance d n = record n { block_distance = some d }

-- `this.blockDistance < this.headDistanceBlocks`
abbrev pub is_near : Option ℤ → ℕ → Bool
is_near none h = false
is_near (some d) h = lt_nat d h

abbrev push : Notification → Bool → Notifier → Notifier
push x flag n = record n {
  notifications = n.notifications ++ x ∷ [];
  publishable_flags = n.publishable_flags ++ flag ∷ [];
}

unfoldable pub send_action_trace : String → Fields → ℕ → Json → Notifier → Notifier
unfolding prepare_notification_block
send_action_trace channel block tx action n =
    push
      (record {
        channel = some channel;
        type = trace;
        block = prepare_notification_block block;
        tx = some tx;
        trace = some action;
        delta = none;
      })
      (is_near n.block_distance n.head_distance_blocks) n

unfoldable pub send_contract_row : String → Fields → Json → Notifier → Notifier
unfolding prepare_notification_block
send_contract_row channel block row n =
    push
      (record {
        channel = some channel;
        type = delta;
        block = prepare_notification_block block;
        tx = none;
        trace = none;
        delta = some row;
      })
      (is_near n.block_distance n.head_distance_blocks) n

unfoldable pub send_fork : Fields → Notifier → Notifier
unfolding prepare_notification_block
send_fork block n =
    push
      (record {
        channel = none;
        type = fork;
        block = prepare_notification_block block;
        tx = none;
        trace = none;
        delta = none;
      })
      true n

-- `batch.filter((_notification, index) => flags[index])`
unfoldable pub publishable : List Notification → List Bool → List Notification
publishable [] flags = []
publishable (n ∷ ns) [] = []
publishable (n ∷ ns) (flag ∷ flags) =
    if flag then n ∷ publishable ns flags else publishable ns flags

module _ {W : Type 0} (heap : Heap) (redis : Json → Exec W (Unit {0}))
    (byte_length : Json → ℕ) where
  -- The message of a chunk.
  abbrev pub message : List Notification → Json
  message chunk = let sent = encode_notifications heap chunk in envelope_json heap sent.0 sent.1

  -- The counters of a published chunk.
  abbrev pub count_chunk : List Notification → Metrics → Metrics
  count_chunk chunk m = record m {
    published = m.published + length chunk;
    transactions_published = m.transactions_published + (encode_notifications heap chunk).2;
    bytes_published = m.bytes_published + byte_length (message chunk);
  }

  abbrev pub count_failure : Metrics → Metrics
  count_failure m = record m { publish_failures = m.publish_failures + 1 }

  -- The loop over the chunks; the first failure is caught, counted, and ends it.
  unfoldable pub publish_chunks : List (List Notification) → Metrics → W → Metrics × W
  publish_chunks [] m w = (m, w)
  publish_chunks (c ∷ cs) m w =
      let sent = redis (message c) w in
      let rest = publish_chunks cs (count_chunk c m) sent.1 in
      elim sent.0 [ ok u ↦ rest | err e ↦ (count_failure m, sent.1) ]

  abbrev pub count_skipped : ℕ → Metrics → Metrics
  count_skipped discarded m =
      if ltb 0 discarded
      then record m { batches_skipped = m.batches_skipped + 1; skipped = m.skipped + discarded }
      else m

  unfoldable pub publish : Notifier → W → Notifier × W
  unfolding publish_chunks publishable array_chunk
  publish n w =
      if length n.notifications == 0
      then (n, w)
      else let eligible = publishable n.notifications n.publishable_flags in
        let m = count_skipped (length n.notifications - length eligible) n.metrics in
        let done =
          if length eligible == 0
          then (m, w)
          else publish_chunks (array_chunk eligible notification_chunk_size) m w in
        (record n { notifications = []; publishable_flags = []; metrics = done.0 }, done.1)
