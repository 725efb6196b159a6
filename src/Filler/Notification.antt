-- ===== src/Filler/Notification.antt =====
-- The notifications of the filler and their wire form: `encodeNotifications` of
-- src/filler/notification-format.ts. Decoding is in Notification/Decode.antt.
--
-- A transaction is an object, known by its reference; `Heap` gives what a reference points to. The
-- payloads of a notification are the JSON values that they serialize to.
pub mod References
pub mod Decode
pub mod Encoding
pub mod RoundTrip
pub mod Safety
use Prim.Native.String.{◌++◌ as append}
use atomicassets_api.Prelude.{
  ℕ, zero, suc, ◌+◌, Bool, true, false, String, str_eq, Option, none, some, List, [], ◌∷◌, ◌++◌,
  map, length, ◌==◌, if◌then◌else◌,
}
use atomicassets_api.Prelude.Decimal.{decimal}
use atomicassets_api.Json.{Json, Fields, end, field, null, str, num, obj, arr, items}

abbrev pub notification_format_version : ℕ
notification_format_version = 2

abbrev pub notification_chunk_size : ℕ
notification_chunk_size = 50

pub data NotificationType : Type 0 where
  trace delta fork : NotificationType

-- `EosioTransaction`: its id, and what it serializes to.
pub record TransactionObject : Type 0 where
  pub id : String
  pub body : Json

abbrev pub Heap : Type 0
Heap = ℕ → TransactionObject

-- `NotificationData`, its `data` object included.
pub record Notification : Type 0 where
  pub channel : Option String
  pub type : NotificationType
  pub block : Json
  pub tx : Option ℕ
  pub trace : Option Json
  pub delta : Option Json

-- `NotificationEnvelopeEntry`
pub record Entry : Type 0 where
  pub channel : Option String
  pub type : NotificationType
  pub block : Json
  pub tx_id : Option String
  pub trace : Option Json
  pub delta : Option Json

-- `references`, from the object to its key, and `txs`, from the key to the object.
pub record Table : Type 0 where
  pub references : List (ℕ × String)
  pub txs : List (String × ℕ)

unfoldable pub reference_of : ℕ → List (ℕ × String) → Option String
reference_of r [] = none
reference_of r ((j, k) ∷ l) = if j == r then some k else reference_of r l

unfoldable pub tx_of : String → List (String × ℕ) → Option ℕ
tx_of k [] = none
tx_of k ((j, r) ∷ l) = if str_eq j k then some r else tx_of k l

-- `Object.prototype.hasOwnProperty.call(txs, reference)`
unfoldable pub has_own : String → List (String × ℕ) → Bool
has_own k [] = false
has_own k ((j, r) ∷ l) = if str_eq j k then true else has_own k l

-- The candidate of a round: the id alone, then `id#1`, `id#2` and so on.
unfoldable pub candidate : String → ℕ → String
candidate id zero = id
candidate id (suc n) = append id (append "#" (decimal (suc n)))

-- `for (let suffix = 1; hasOwn(txs, reference); suffix += 1)`, on fuel.
unfoldable pub free_reference_from : ℕ → ℕ → String → List (String × ℕ) → String
free_reference_from zero n id txs = candidate id n
free_reference_from (suc f) n id txs =
    let next = free_reference_from f (suc n) id txs in
    if has_own (candidate id n) txs then next else candidate id n

-- The number of keys is fuel enough: References.antt.
unfoldable pub free_reference : String → List (String × ℕ) → String
unfolding free_reference_from
free_reference id txs = free_reference_from (length txs) 0 id txs

-- The branch for a notification with a transaction: its key, and the tables after it.
abbrev pub add_tx : Heap → ℕ → Table → String × Table
add_tx heap r t = elim (reference_of r t.references) [
  | some k ↦ (k, t)
  | none ↦
      let k = free_reference (heap r).id t.txs in
      (k, record { references = t.references ++ (r, k) ∷ []; txs = t.txs ++ (k, r) ∷ [] })
]

abbrev pub entry_of : Notification → Option String → Entry
entry_of n k = record {
  channel = n.channel;
  type = n.type;
  block = n.block;
  tx_id = k;
  trace = n.trace;
  delta = n.delta;
}

-- One round of the loop, for a notification with the given transaction.
unfoldable pub encode_with : Heap → Notification → Option ℕ → Table → Entry × Table
encode_with heap n none t = (entry_of n none, t)
encode_with heap n (some r) t = (entry_of n (some (add_tx heap r t).0), (add_tx heap r t).1)

abbrev pub encode_one : Heap → Notification → Table → Entry × Table
encode_one heap n t = encode_with heap n n.tx t

unfoldable pub encode_all : Heap → List Notification → Table → List Entry × Table
encode_all heap [] t = ([], t)
encode_all heap (n ∷ ns) t =
    let first = encode_one heap n t in
    let rest = encode_all heap ns first.1 in (first.0 ∷ rest.0, rest.1)

-- `encodeNotifications`: the entries, the transaction map and the number of its keys.
unfoldable pub encode_notifications : Heap → List Notification → List Entry × List (String × ℕ) × ℕ
unfolding encode_all encode_with
encode_notifications heap chunk =
    let done = encode_all heap chunk (record { references = []; txs = [] }) in
    (done.0, done.1.txs, length done.1.txs)

-- What `JSON.stringify(envelope)` parses back to: a field that is undefined is left out.
abbrev pub opt_field : String → Option Json → Fields → Fields
opt_field k none fs = fs
opt_field k (some v) fs = field k v fs

abbrev pub or_null : Option String → Json
or_null none = null
or_null (some s) = str s

abbrev pub opt_str : Option String → Option Json
opt_str none = none
opt_str (some s) = some (str s)

abbrev pub type_name : NotificationType → String
type_name trace = "trace"
type_name delta = "delta"
type_name fork = "fork"

unfoldable pub entry_json : Entry → Json
entry_json e = obj (
    field "channel" (or_null e.channel) (
      field "type" (str (type_name e.type)) (
        field "block" e.block (
          opt_field "tx_id" (opt_str e.tx_id)
            (opt_field "trace" e.trace (opt_field "delta" e.delta end))))))

unfoldable pub txs_json : Heap → List (String × ℕ) → Fields
txs_json heap [] = end
txs_json heap ((k, r) ∷ l) = field k (heap r).body (txs_json heap l)

unfoldable pub envelope_json : Heap → List Entry → List (String × ℕ) → Json
unfolding entry_json txs_json
envelope_json heap entries txs = obj (
    field "v" (num notification_format_version) (
      field "txs" (obj (txs_json heap txs)) (field "n" (arr (items (map entry_json entries))) end)))
