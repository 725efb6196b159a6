-- ===== src/Filler/Notification/RoundTrip.antt =====
-- Decoding what the encoder made of a chunk gives the chunk back.
use mathlib.Core.Path.{subst}
use mathlib.Core.Option
use text.Mathlib.TextPositions.{eq_refl}
use atomicassets_api.Prelude.{
  ℕ, suc, ◌≤◌, ◌≡◌, refl, sym, ap, true, String, Option, none, some, List, [], ◌∷◌, map, length,
  all, arith, inl, inr, ◌⊎◌,
}
use atomicassets_api.Json.{Json, get, keys, elements, items}
use atomicassets_api.Exec.{ok}
use atomicassets_api.Prelude.Predicates.{All}
use atomicassets_api.Filler.Notification.{
  Heap, Notification, NotificationType, trace, delta, fork, Entry, Table, tx_of, has_own,
  encode_all, encode_notifications, reference_of, entry_json, txs_json, envelope_json,
}
use atomicassets_api.Filler.Notification.Decode.{
  Decoded, is_record, is_well_formed_transaction, decode_entry, decode_message, map_all,
  has_reference,
}
use atomicassets_api.Filler.Notification.Encoding.{
  IsLinked, Leads, IsEntry, AreEntries, mentions, encode_all-Encoded,
}

get-txs_json :
    (heap : Heap) (k : String) (r : ℕ) (txs : List (String × ℕ))
    → tx_of k txs ≡ some r
    → get k (txs_json heap txs) ≡ some (heap r).body
unfolding tx_of txs_json
get-txs_json heap k r [] e = cc
get-txs_json heap k r ((j, q) ∷ l) e = ground (arith, get-txs_json heap k r l)

-- A payload of the type that the notification claims.
abbrev pub Shape : NotificationType → Option String → Option ℕ → Option Json → Option Json → Type 0
Shape trace (some c) (some r) (some t) d = is_record (some t) ≡ true
Shape delta (some c) x t (some d) = is_record (some d) ≡ true
Shape fork none none t d = Unit
Shape _ _ _ _ _ = ⊥

abbrev pub TxIsWellFormed : Heap → Option ℕ → Type 0
TxIsWellFormed heap none = Unit
TxIsWellFormed heap (some r) = is_well_formed_transaction (heap r).body ≡ true

-- What the filler sends: `sendActionTrace`, `sendContractRow` and `sendFork` with a block that is an
-- object, and transactions with an id and traces.
abbrev pub IsWellFormed : Heap → Notification → Type 0
IsWellFormed heap n =
    (is_record (some n.block) ≡ true)
    × TxIsWellFormed heap n.tx
    × Shape n.type n.channel n.tx n.trace n.delta

-- The notification as the API receives it: the transaction by value.
abbrev pub received : Heap → Notification → Decoded
received heap n = record {
  channel = n.channel;
  type = n.type;
  block = n.block;
  tx = Option.map (λ r. (heap r).body) n.tx;
  trace = n.trace;
  delta = n.delta;
}

module _ (heap : Heap) (txs : List (String × ℕ)) (block : Json)
    (h : is_record (some block) ≡ true) where
  decode_entry_lem :
      (type : NotificationType) (c : Option String) (x : Option ℕ) (t d : Option Json)
      (k : Option String)
      → TxIsWellFormed heap x
      → Shape type c x t d
      → Leads txs x k
      → decode_entry (txs_json heap txs) (
          entry_json
            (record { channel = c; type = type; block = block; tx_id = k; trace = t; delta = d }))
        ≡ ok (
          received heap
              (record { channel = c; type = type; block = block; tx = x; trace = t; delta = d }),
          k,
        )
  unfolding decode_entry entry_json
  decode_entry_lem trace (some c) (some r) (some t) none (some k) w s l =
      ground (arith, get-txs_json heap k r txs l)
  decode_entry_lem trace (some c) (some r) (some t) (some d) (some k) w s l =
      ground (arith, get-txs_json heap k r txs l)
  decode_entry_lem delta (some c) none none (some d) none w s l = ground arith
  decode_entry_lem delta (some c) none (some t) (some d) none w s l = ground arith
  decode_entry_lem delta (some c) (some r) none (some d) (some k) w s l =
      ground (arith, get-txs_json heap k r txs l)
  decode_entry_lem delta (some c) (some r) (some t) (some d) (some k) w s l =
      ground (arith, get-txs_json heap k r txs l)
  decode_entry_lem fork none none none none none w s l = ground arith
  decode_entry_lem fork none none none (some d) none w s l = ground arith
  decode_entry_lem fork none none (some t) none none w s l = ground arith
  decode_entry_lem fork none none (some t) (some d) none w s l = ground arith
  decode_entry_lem type c x t d k w s l = absurd (assumption)

module _ (heap : Heap) (txs : List (String × ℕ)) where
  decode_one :
      (n : Notification) (e : Entry)
      → IsWellFormed heap n
      → IsEntry txs n e
      → decode_entry (txs_json heap txs) (entry_json e) ≡ ok (received heap n, e.tx_id)
  decode_one n e w i =
      subst (λ f. decode_entry (txs_json heap txs) (entry_json f) ≡ ok (received heap n, e.tx_id))
        (sym i.0)
        (decode_entry_lem heap txs n.block w.0 n.type n.channel n.tx n.trace n.delta e.tx_id w.1 w.2
          i.1)

  abbrev pairs : List Notification → List Entry → List (Decoded × Option String)
  pairs [] _ = []
  pairs (n ∷ ns) [] = []
  pairs (n ∷ ns) (e ∷ es) = (received heap n, e.tx_id) ∷ pairs ns es

  decode_entries :
      (ns : List Notification) (es : List Entry)
      → All (IsWellFormed heap) ns
      → AreEntries txs ns es
      → map_all (decode_entry (txs_json heap txs)) (elements (items (map entry_json es)))
        ≡ ok (pairs ns es)
  unfolding map_all
  decode_entries [] [] w a = refl
  decode_entries [] (e ∷ es) w a = absurd a
  decode_entries (n ∷ ns) [] w a = absurd a
  decode_entries (n ∷ ns) (e ∷ es) w a =
      rw (decode_one n e w.0 a.0, decode_entries ns es w.1 a.1) refl

  pairs-received :
      (ns : List Notification) (es : List Entry)
      → AreEntries txs ns es
      → map (λ (d : Decoded × Option String). d.0) (pairs ns es) ≡ map (received heap) ns
  pairs-received [] [] a = refl
  pairs-received [] (e ∷ es) a = absurd a
  pairs-received (n ∷ ns) [] a = absurd a
  pairs-received (n ∷ ns) (e ∷ es) a = ap (λ l. received heap n ∷ l) (pairs-received ns es a.1)

  length-entries :
      (ns : List Notification) (es : List Entry)
      → AreEntries txs ns es
      → length (elements (items (map entry_json es))) ≡ length ns
  length-entries [] [] a = refl
  length-entries [] (e ∷ es) a = absurd a
  length-entries (n ∷ ns) [] a = absurd a
  length-entries (n ∷ ns) (e ∷ es) a = ap suc (length-entries ns es a.1)

  has_reference-pairs :
      (k : String) (ns : List Notification) (es : List Entry)
      → AreEntries txs ns es
      → mentions k es ≡ true
      → has_reference k (pairs ns es) ≡ true
  unfolding has_reference
  has_reference-pairs k [] [] a m = cc
  has_reference-pairs k [] (e ∷ es) a m = absurd a
  has_reference-pairs k (n ∷ ns) [] a m = absurd a
  has_reference-pairs k (n ∷ ns) (e ∷ es) a m = ground (arith, has_reference-pairs k ns es a.1)

-- Every key of a tail of the map is referenced.
all_referenced :
    (heap : Heap) (ps : List (Decoded × Option String)) (l : List (String × ℕ))
    → ((k : String) → has_own k l ≡ true → has_reference k ps ≡ true)
    → all (λ k. has_reference k ps) (keys (txs_json heap l)) ≡ true
unfolding txs_json has_own
all_referenced heap ps [] h = refl
all_referenced heap ps ((k, r) ∷ l) h =
    let here : has_reference k ps ≡ true = h k (ground (arith, eq_refl k)) in
    rw here (all_referenced heap ps l (λ j e. h j (ground arith)))

empty_IsLinked : IsLinked (record { references = []; txs = [] })
unfolding reference_of
empty_IsLinked r k e = cc

empty_own : (k : String) {B : Type 0} → (has_own k [] ≡ true) ⊎ B → B
unfolding has_own
empty_own k (inl e) = absurd (cc)
empty_own k (inr b) = b

decode_done :
    (heap : Heap) (chunk : List Notification) (es : List Entry) (txs : List (String × ℕ))
    → length chunk ≤ 50
    → All (IsWellFormed heap) chunk
    → AreEntries txs chunk es
    → ((k : String) → has_own k txs ≡ true → mentions k es ≡ true)
    → decode_message (envelope_json heap es txs) ≡ ok (map (received heap) chunk)
unfolding decode_message envelope_json
decode_done heap chunk es txs h w a own = ground (
  arith,
  length-entries heap txs chunk es a,
  decode_entries heap txs chunk es w a,
  all_referenced heap (pairs heap txs chunk es) txs
      (λ k e. has_reference-pairs heap txs k chunk es a (own k e)),
  pairs-received heap txs chunk es a,
)

-- A chunk of at most fifty well-formed notifications, published as an envelope and decoded by the
-- API, arrives as it was sent: the same notifications in the same order, each with the body of its
-- own transaction, also where distinct transactions carry one id.
pub decode-encode :
    (heap : Heap) (chunk : List Notification)
    → length chunk ≤ 50
    → All (IsWellFormed heap) chunk
    → (let sent = encode_notifications heap chunk in
        decode_message (envelope_json heap sent.0 sent.1) ≡ ok (map (received heap) chunk))
unfolding encode_notifications
decode-encode heap chunk h w =
    let start : Table = record { references = []; txs = [] } in
    let done = encode_all-Encoded heap chunk start empty_IsLinked in
    decode_done heap chunk (encode_all heap chunk start).0 (encode_all heap chunk start).1.txs h w
      done.entries (λ k e. empty_own k (done.own k e))
