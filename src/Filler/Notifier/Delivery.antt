-- ===== src/Filler/Notifier/Delivery.antt =====
-- What the API receives of a published batch.
use atomicassets_api.Prelude.{ℕ, ◌+◌, ◌-◌, ◌≡◌, List, [], ◌∷◌, ◌++◌, map, length}
use atomicassets_api.Json.{Json}
use atomicassets_api.Exec.{Outcome, ok, Exec}
use atomicassets_api.Filler.Notification.{Notification, Heap}
use atomicassets_api.Filler.Notification.Decode.{Decoded, decode_message, ◌>>=◌}
use atomicassets_api.Filler.Notification.RoundTrip.{received}
use atomicassets_api.Filler.Notifier.{Notifier, Metrics, publishable, count_skipped}

-- A channel that delivers every message, in order.
abbrev pub delivering : Json → Exec (List Json) (Unit {0})
delivering m sent = (ok tt, sent ++ m ∷ [])

-- What the server dispatches for the messages of a channel.
unfoldable pub read_all : List Json → Outcome (List Decoded)
read_all [] = ok []
read_all (m ∷ ms) = do ds ← decode_message m; rest ← read_all ms; ok (ds ++ rest)

module _ (heap : Heap) (byte_length : Json → ℕ) where
  -- What `publish` leaves, on a channel that delivers.
  pub record Delivered (n : Notifier) (after : Notifier × List Json) : Type 0 where
    -- the API reads the notifications that were flagged, as they were queued and in that order
    pub read :
        read_all after.1
        ≡ ok (map (received heap) (publishable n.notifications n.publishable_flags))
    -- both queues are empty
    pub taken : (after.0.notifications ≡ []) × (after.0.publishable_flags ≡ [])
    -- each notification is counted once, as published or as skipped
    pub counted :
        after.0.metrics.published + after.0.metrics.skipped
        ≡ n.metrics.published + n.metrics.skipped + length n.notifications
    pub skipped :
        after.0.metrics.skipped + length (publishable n.notifications n.publishable_flags)
        ≡ n.metrics.skipped + length n.notifications

  abbrev eligible : Notifier → List Notification
  eligible n = publishable n.notifications n.publishable_flags

  -- the counters before the chunks are published
  abbrev discounted : Notifier → Metrics
  discounted n =
      count_skipped heap delivering byte_length (length n.notifications - length (eligible n))
        n.metrics
