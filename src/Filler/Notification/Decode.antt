-- ===== src/Filler/Notification/Decode.antt =====
-- `decodeNotificationMessage`, `decodeEntry` and `decodeLegacyEntry` of
-- src/filler/notification-format.ts, on the value that `JSON.parse` gives. The parser itself is the
-- language's. An error carries the source's message.
use atomicassets_api.Prelude.{
  Bool, true, false, not, ◌&&◌, String, str_eq, Option, none, some, List, [], ◌∷◌, map, length, all,
  ltb, ◌==◌, if◌then◌else◌,
}
use atomicassets_api.Json.{Json, null, num, str, arr, obj, Fields, end, get, keys, elements}
use atomicassets_api.Exec.{Outcome, ok, err, thrown}
use atomicassets_api.Filler.Notification.{
  NotificationType, trace, delta, fork, notification_format_version, notification_chunk_size,
}

-- A decoded `NotificationData`; a transaction is the shared parsed object.
pub record Decoded : Type 0 where
  pub channel : Option String
  pub type : NotificationType
  pub block : Json
  pub tx : Option Json
  pub trace : Option Json
  pub delta : Option Json

infixl 5 ◌>>=◌ ◌>>◌
abbrev pub ◌>>=◌ : {A B : Type 0} → Outcome A → (A → Outcome B) → Outcome B
ok a >>= f = f a
err e >>= f = err e

abbrev pub ◌>>◌ : {B : Type 0} → Outcome (Unit {0}) → Outcome B → Outcome B
ok u >> k = k
err e >> k = err e

abbrev pub require : Bool → String → Outcome (Unit {0})
require true message = ok tt
require false message = err (thrown message)

abbrev pub is_record : Option Json → Bool
is_record (some (obj fs)) = true
is_record (some null) = false
is_record _ = false

abbrev pub is_string : Option Json → Bool
is_string (some (str s)) = true
is_string (some null) = false
is_string _ = false

abbrev pub is_array : Option Json → Bool
is_array (some (arr xs)) = true
is_array (some null) = false
is_array _ = false

-- `value === null || value === undefined`
abbrev pub is_absent : Option Json → Bool
is_absent none = true
is_absent (some null) = true
is_absent (some _) = false

abbrev pub is_defined : Option Json → Bool
is_defined none = false
is_defined (some _) = true

abbrev pub fields_of : Option Json → Fields
fields_of (some (obj fs)) = fs
fields_of (some null) = end
fields_of _ = end

-- `entry.channel as string`, behind the test of its type
abbrev pub string_of : Option Json → Option String
string_of (some (str s)) = some s
string_of (some null) = none
string_of _ = none

unfoldable pub notification_type : Option Json → Option NotificationType
notification_type t = elim (string_of t) [
  | none ↦ none
  | some s ↦
      if str_eq s "trace"
      then some trace
      else if str_eq s "delta"
      then some delta
      else if str_eq s "fork"
      then some fork
      else none
]

unfoldable pub is_well_formed_transaction : Json → Bool
is_well_formed_transaction tx =
    is_record (some tx)
    && is_string (get "id" (fields_of (some tx)))
    && is_array (get "traces" (fields_of (some tx)))

-- The tests that the type of an entry asks for.
unfoldable pub check_entry : NotificationType → Fields → Outcome (Unit {0})
check_entry trace e = do
  require (is_string (get "tx_id" e)) "Notification entry has type trace but carries no tx_id"
  require (is_record (get "trace" e)) "Notification entry has type trace but carries no trace"
  require (is_string (get "channel" e)) "Notification entry has type trace but carries no channel"
check_entry delta e = do
  require (is_record (get "delta" e)) "Notification entry has type delta but carries no delta"
  require (is_string (get "channel" e)) "Notification entry has type delta but carries no channel"
check_entry fork e = do
  require (is_absent (get "channel" e)) "Notification entry has type fork but carries a channel"
  require (not (is_defined (get "tx_id" e))) "Notification entry has type fork but carries a tx_id"

abbrev pub entry_channel : NotificationType → Fields → Option String
entry_channel fork e = none
entry_channel _ e = string_of (get "channel" e)

-- The transaction of an entry: none, or the object behind the key.
unfoldable pub entry_tx : Fields → Option Json → Outcome (Option Json)
entry_tx txs none = ok none
entry_tx txs (some id) = elim (string_of (some id)) [
  | none ↦ err (thrown "Notification entry references a transaction the message does not carry")
  | some k ↦ elim (get k txs) [
    | none ↦ err (thrown "Notification entry references a transaction the message does not carry")
    | some tx ↦
        if is_well_formed_transaction tx
        then ok (some tx)
        else err (thrown "Notification entry references a transaction that is not well formed")
  ]
]

-- `decodeEntry` behind the test of the type, for an entry with the fields `e`.
unfoldable pub decode_typed : Fields → NotificationType → Fields → Outcome (Decoded × Option String)
unfolding check_entry entry_tx is_well_formed_transaction
decode_typed txs type e = do
  require (is_record (get "block" e)) "Notification entry carries no block"
  check_entry type e
  tx ← entry_tx txs (get "tx_id" e)
  ok (
    record {
      channel = entry_channel type e;
      type = type;
      block = elim (get "block" e) [ none ↦ null | some b ↦ b ];
      tx = tx;
      trace = get "trace" e;
      delta = get "delta" e;
    },
    string_of (get "tx_id" e),
  )

-- `decodeEntry`; beside the notification the key that it adds to `referencedTxIds`.
unfoldable pub decode_entry : Fields → Json → Outcome (Decoded × Option String)
unfolding decode_typed notification_type
decode_entry txs (obj e) = elim (notification_type (get "type" e)) [
  | none ↦ err (thrown "Notification entry carries an unsupported type")
  | some type ↦ decode_typed txs type e
]
decode_entry txs null = err (thrown "Notification entry is not an object")
decode_entry txs _ = err (thrown "Notification entry is not an object")

-- `array.map` of a function that may throw
unfoldable pub map_all {ℓ} : {A : Type ℓ} {B : Type 0} → (A → Outcome B) → List A → Outcome (List B)
map_all f [] = ok []
map_all f (x ∷ xs) = do y ← f x; ys ← map_all f xs; ok (y ∷ ys)

-- The tests of `decodeLegacyEntry` for the type of an entry `e` whose `data` is `d`.
unfoldable pub check_legacy : NotificationType → Fields → Fields → Outcome (Unit {0})
unfolding is_well_formed_transaction
check_legacy trace e d = do
  require (is_string (get "channel" e))
      "Legacy notification entry has type trace but carries no channel"
  require (is_record (get "trace" d))
      "Legacy notification entry has type trace but carries no trace"
  require (elim (get "tx" d) [ none ↦ false | some tx ↦ is_well_formed_transaction tx ])
      "Legacy notification entry has type trace but carries no well formed transaction"
check_legacy delta e d = do
  require (is_string (get "channel" e))
      "Legacy notification entry has type delta but carries no channel"
  require (is_record (get "delta" d))
      "Legacy notification entry has type delta but carries no delta"
check_legacy fork e d = do
  require (is_absent (get "channel" e))
      "Legacy notification entry has type fork but carries a channel"
  require (not (is_defined (get "tx" d))) "Legacy notification entry has type fork but carries a tx"

-- `decodeLegacyEntry` behind the test of the type, for an entry with the fields `e` and the field
-- `data`. The `data` object is handed on as it is; here its fields are named.
unfoldable pub decode_legacy_typed : NotificationType → Fields → Option Json → Outcome Decoded
unfolding check_legacy
decode_legacy_typed type e payload = do
  require (is_record payload && is_record (get "block" (fields_of payload)))
      "Legacy notification entry carries no block"
  check_legacy type e (fields_of payload)
  ok (record {
    channel = entry_channel type e;
    type = type;
    block = elim (get "block" (fields_of payload)) [ none ↦ null | some b ↦ b ];
    tx = get "tx" (fields_of payload);
    trace = get "trace" (fields_of payload);
    delta = get "delta" (fields_of payload);
  })

-- `decodeLegacyEntry`
unfoldable pub decode_legacy_entry : Json → Outcome Decoded
unfolding decode_legacy_typed notification_type
decode_legacy_entry (obj e) = elim (notification_type (get "type" e)) [
  | none ↦ err (thrown "Legacy notification entry carries an unsupported type")
  | some type ↦ decode_legacy_typed type e (get "data" e)
]
decode_legacy_entry null =
    err (thrown "Legacy notification array carries an entry that is not an object")
decode_legacy_entry _ =
    err (thrown "Legacy notification array carries an entry that is not an object")

-- `referencedTxIds.has(reference)`
unfoldable pub has_reference : String → List (Decoded × Option String) → Bool
has_reference k [] = false
has_reference k ((d, none) ∷ l) = has_reference k l
has_reference k ((d, some j) ∷ l) = if str_eq j k then true else has_reference k l

abbrev pub is_version : Option Json → Bool
is_version (some (num n)) = n == notification_format_version
is_version (some null) = false
is_version _ = false

abbrev pub item_list : Option Json → List Json
item_list (some (arr xs)) = elements xs
item_list (some null) = []
item_list _ = []

-- `parsed.txs === undefined ? {} : parsed.txs`
abbrev pub or_empty : Option Json → Json
or_empty none = obj end
or_empty (some j) = j

-- The compact form.
unfoldable pub decode_envelope : Fields → Outcome (List Decoded)
unfolding decode_entry map_all has_reference
decode_envelope e = do
  require (is_version (get "v" e)) "Unsupported notification format version"
  require (is_array (get "n" e)) "Notification envelope carries no entry array"
  require (is_record (some (or_empty (get "txs" e))))
      "Notification envelope carries a transaction map that is not an object"
  require (not (ltb notification_chunk_size (length (item_list (get "n" e)))))
      "Notification message carries more than 50 entries"
  decoded ←
      map_all (decode_entry (fields_of (some (or_empty (get "txs" e))))) (item_list (get "n" e))
  require (all (λ k. has_reference k decoded) (keys (fields_of (some (or_empty (get "txs" e))))))
      "Notification envelope carries a transaction no entry references"
  ok (map (λ (d : Decoded × Option String). d.0) decoded)

-- `decodeNotificationMessage`
unfoldable pub decode_message : Json → Outcome (List Decoded)
unfolding decode_envelope decode_legacy_entry map_all
decode_message (arr xs) = do
  require (not (ltb notification_chunk_size (length (elements xs))))
      "Notification message carries more than 50 entries"
  map_all decode_legacy_entry (elements xs)
decode_message (obj e) = decode_envelope e
decode_message null = err (thrown "Notification message is neither an array nor an object")
decode_message _ = err (thrown "Notification message is neither an array nor an object")
