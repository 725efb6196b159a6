-- ===== src/Api/NotificationRead.antt =====
-- `extractNotificationBlocks` and `readNotifiedRows` of src/api/notification-read.ts. `text` is the
-- `String` of a value, and `number` its `Number` where that is finite.
use atomicassets_api.Prelude.{
  ℕ, zero, suc, ◌+◌, ◌-◌, max, Bool, true, false, not, ◌≡◌, refl, String, str_eq, Option, none,
  some, List, [], ◌∷◌, any, filter, length, map, ltb, leb, ◌==◌, if◌then◌else◌,
}
use atomicassets_api.Exec.{Exec, Outcome, ok, err, type_error, pure, ◌>>=◌, ◌>>◌}
use atomicassets_api.Json.{Json, null, obj, get}
use atomicassets_api.Filler.Notification.{Notification, NotificationType, trace, delta, fork}
use atomicassets_api.Filler.Database.WriteBuffer.{lookup, put}
pub mod Attempts
pub mod Blocks
mod Examples

-- `identifier`: a key of the action data or of the row, or a function.
pub data Identifier : Type 0 where
  by_key : String → Identifier
  by_function : (Notification → Option Json) → Identifier

-- `value[key]`, which throws for null and undefined. Other values than objects have no such key.
abbrev member : String → Option Json → Outcome (Option Json)
member k none = err type_error
member k (some null) = err type_error
member k (some (obj fields)) = ok (get k fields)
member k (some j) = ok none

abbrev pub and_then : {A B : Type 0} → Outcome A → (A → Outcome B) → Outcome B
and_then (ok a) f = f a
and_then (err e) f = err e

abbrev delta_member : String → Option Json → Outcome (Option Json)
delta_member k none = ok none
delta_member k (some null) = ok none
delta_member k (some d) = and_then (member "value" (some d)) (member k)

abbrev trace_member : String → Option Json → Outcome (Option Json)
trace_member k none = ok none
trace_member k (some null) = ok none
trace_member k (some t) =
    and_then (member "act" (some t)) (λ act. and_then (member "data" act) (member k))

abbrev typed_member : NotificationType → String → Notification → Outcome (Option Json)
typed_member delta k n = delta_member k n.delta
typed_member trace k n = trace_member k n.trace
typed_member fork k n = ok none

unfoldable pub identifier_of : Identifier → Notification → Outcome (Option Json)
identifier_of (by_function f) n = ok (f n)
identifier_of (by_key k) n = typed_member n.type k n

abbrev block_field : Json → Option Json
block_field (obj fields) = get "block_num" fields
block_field _ = none

abbrev pub higher : ℕ → Option ℕ → Bool
higher n none = true
higher n (some known) = ltb known n

unfoldable pub note : Option (String × ℕ) → List (String × ℕ) → List (String × ℕ)
note none blocks = blocks
note (some (k, n)) blocks = if higher n (lookup k blocks) then put k n blocks else blocks

module _ (text : Json → String) (number : Json → Option ℕ) where
  abbrev finite : Option Json → Option ℕ
  finite none = none
  finite (some j) = number j

  abbrev keyed : String → Option ℕ → Option (String × ℕ)
  keyed k none = none
  keyed k (some n) = some (k, n)

  abbrev report_at : Notification → Option Json → Option (String × ℕ)
  report_at n none = none
  report_at n (some null) = none
  report_at n (some id) = keyed (text id) (finite (block_field n.block))

  -- What a notification reports: an identifier and a block. A fork reports nothing.
  unfoldable pub reported : Identifier → Notification → Outcome (Option (String × ℕ))
  unfolding identifier_of
  reported identifier n = elim n.type as (λ _. Outcome (Option (String × ℕ))) [
    | fork ↦ ok none
    | _ ↦ and_then (identifier_of identifier n) (λ id. ok (report_at n id))
  ]

  abbrev pub from_reports :
      List (String × ℕ) → List Notification → Identifier → Outcome (List (String × ℕ))
  unfolding reported note
  from_reports blocks [] identifier = ok blocks
  from_reports blocks (n ∷ ns) identifier =
      and_then (reported identifier n) (λ r. from_reports (note r blocks) ns identifier)

  unfoldable pub extract_notification_blocks :
      List Notification → Identifier → Outcome (List (String × ℕ))
  unfolding from_reports
  extract_notification_blocks notifications identifier = from_reports [] notifications identifier

-- A warning: the identifiers that are behind, and how many batches were not reported.
pub record Warning : Type 0 where
  pub channel : String
  pub ids : List String
  pub expected_block : ℕ
  pub attempts : ℕ
  pub suppressed_batches : ℕ

-- An entry of `warnState`
pub record WarnState : Type 0 where
  pub last_warn_at : ℕ
  pub suppressed : ℕ

-- The state: the map of the module, what is logged, the time, and what is queried.
pub record Reader (S : Type 0) : Type 0 where
  pub warn_state : List (String × WarnState)
  pub warnings : List Warning
  pub slept : ℕ
  pub world : S

-- `NotifiedRowsQuery`, with the defaults filled in. `query` is `db.query(sql, params)`, `clock` the
-- time, and `block_of` is none where the block column reads as no number.
pub record NotifiedRowsQuery (S R : Type 0) : Type 0 where
  pub query : Exec S (List R)
  pub clock : S → ℕ
  pub ids : List String
  pub expected_block_by_id : List (String × ℕ)
  pub key_of : R → String
  pub block_of : R → Option ℕ
  pub channel : String
  pub attempts : ℕ

module _ {S R : Type 0} (q : NotifiedRowsQuery S R) where
  abbrev unique : List String → List String
  unique [] = []
  unique (k ∷ ks) = k ∷ filter (λ j. not (str_eq j k)) (unique ks)

  unfoldable pub wanted : List String
  wanted = unique q.ids

  -- The last row of an identifier stays in the map.
  abbrev row_by_id : String → List R → Option R
  row_by_id k [] = none
  row_by_id k (row ∷ rows) = elim (row_by_id k rows) as (λ _. Option R) [
    | some r ↦ some r
    | none ↦ if str_eq (q.key_of row) k then some row else none
  ]

  abbrev reaches : ℕ → Option ℕ → Bool
  reaches expected none = false
  reaches expected (some n) = leb expected n

  abbrev row_behind : ℕ → Option R → Bool
  row_behind expected none = true
  row_behind expected (some row) = not (reaches expected (q.block_of row))

  abbrev behind_at : List R → String → Option ℕ → Bool
  behind_at rows k none = false
  behind_at rows k (some expected) = row_behind expected (row_by_id k rows)

  abbrev pub is_behind : List R → String → Bool
  is_behind rows k = behind_at rows k (lookup k q.expected_block_by_id)

  unfoldable pub behind : List R → List String
  unfolding wanted
  behind rows = filter (is_behind rows) wanted

  abbrev pub is_empty : List String → Bool
  is_empty [] = true
  is_empty (k ∷ ks) = false

  abbrev pub on_reader : {A : Type 0} → Exec S A → Exec (Reader S) A
  on_reader m r = let d = m r.world in (d.0, record r { world = d.1 })

  abbrev pub sleep_between : ℕ → Exec (Reader S) (Unit {0})
  sleep_between zero r = (ok tt, r)
  sleep_between (suc n) r = (ok tt, record r { slept = r.slept + 1 })

  abbrev expected_of : Option ℕ → ℕ
  expected_of none = 0
  expected_of (some n) = n

  abbrev highest : List String → ℕ
  highest [] = 0
  highest (k ∷ ks) = max (expected_of (lookup k q.expected_block_by_id)) (highest ks)

  abbrev warning : List String → ℕ → Warning
  warning ids suppressed = record {
    channel = q.channel;
    ids = ids;
    expected_block = highest ids;
    attempts = q.attempts;
    suppressed_batches = suppressed;
  }

  abbrev pub warn_at : List String → ℕ → Reader S → Option WarnState → Reader S
  warn_at ids now r none = record r {
    warnings = warning ids 0 ∷ r.warnings;
    warn_state = put q.channel (record { last_warn_at = now; suppressed = 0 }) r.warn_state;
  }
  warn_at ids now r (some w) =
      if leb 60000 (now - w.last_warn_at)
      then record r {
        warnings = warning ids w.suppressed ∷ r.warnings;
        warn_state = put q.channel (record { last_warn_at = now; suppressed = 0 }) r.warn_state;
      }
      else record r {
        warn_state = put q.channel (record w { suppressed = w.suppressed + 1 }) r.warn_state;
      }

  -- The report of the rows that stay behind, at most one in a minute for a channel.
  unfoldable pub warn : List String → Reader S → Reader S
  warn ids r = warn_at ids (q.clock r.world) r (lookup q.channel r.warn_state)

  abbrev pub stop_or : Bool → List R → Exec (Reader S) (List R) → Exec (Reader S) (List R)
  stop_or true found rest r = (ok found, r)
  stop_or false found rest r = rest r

  -- The attempts that are left, and the rows of the last one.
  unfoldable pub read_attempts : ℕ → List R → List String → Exec (Reader S) (List R)
  unfolding behind warn
  read_attempts zero rows lagging r = (ok rows, if is_empty lagging then r else warn lagging r)
  read_attempts (suc n) rows lagging r =
      (on_reader q.query >>= λ found.
      stop_or (is_empty (behind found)) found
        (sleep_between n >> read_attempts n found (behind found)))
        r

  unfoldable pub read_notified_rows : Exec (Reader S) (List R)
  unfolding read_attempts
  read_notified_rows = read_attempts q.attempts [] []
