-- ===== src/Filler/Notification/Safety.antt =====
-- What a listener may rely on in any message that the decoder accepts.
use mathlib.Core.Path.{subst}
use atomicassets_api.Prelude.{
  suc, ◌≤◌, ◌≡◌, ◌&&◌, refl, sym, ap, all, Bool, true, false, not, String, Option, none, some, List,
  [], ◌∷◌, map, length, ltb, arith, Option-cases, inl, inr,
}
use atomicassets_api.Json.{Json, null, str, arr, obj, Fields, get, keys, elements}
use atomicassets_api.Exec.{Outcome, ok, err}
use atomicassets_api.Prelude.Predicates.{All}
use atomicassets_api.Filler.Notification.{
  NotificationType, trace, delta, fork, notification_chunk_size,
}
use atomicassets_api.Filler.Notification.Decode.{
  Decoded, is_record, is_string, is_array, is_defined, fields_of, string_of, notification_type,
  is_well_formed_transaction, check_entry, entry_tx, check_legacy, decode_entry,
  decode_legacy_entry, decode_envelope, decode_message, decode_typed, decode_legacy_typed,
  is_version, or_empty, item_list, has_reference, map_all, entry_channel, require, ◌>>=◌, ◌>>◌,
}

-- A transaction that is there, an object with a text id and an array of traces.
abbrev pub HasTx : Option Json → Type 0
HasTx none = ⊥
HasTx (some tx) = is_well_formed_transaction tx ≡ true

-- The fields that a listener dereferences for each type are there and have their shape.
abbrev pub Safe :
    NotificationType → Option String → Option Json → Option Json → Option Json → Type 0
Safe trace (some c) tx t d = HasTx tx × (is_record t ≡ true)
Safe delta (some c) tx t d = is_record d ≡ true
Safe fork none none t d = Unit
Safe _ _ _ _ _ = ⊥

abbrev pub IsSafe : Decoded → Type 0
IsSafe d = (is_record (some d.block) ≡ true) × Safe d.type d.channel d.tx d.trace d.delta

bind_ok :
    {A B : Type 0} (m : Outcome A) (f : A → Outcome B) {b : B}
    → (m >>= f) ≡ ok b
    → (a : A) × (m ≡ ok a) × (f a ≡ ok b)
bind_ok (ok a) f h = (a, refl, h)
bind_ok (err e) f h = absurd (cc)

then_ok :
    {B : Type 0} (m : Outcome (Unit {0})) (k : Outcome B) {b : B}
    → (m >> k) ≡ ok b
    → (m ≡ ok tt) × (k ≡ ok b)
then_ok (ok u) k h = (refl, h)
then_ok (err e) k h = absurd (cc)

require_ok : (b : Bool) (message : String) {u : Unit {0}} → require b message ≡ ok u → b ≡ true
require_ok true message h = refl
require_ok false message h = absurd (cc)

is_string-some : (o : Option Json) → is_string o ≡ true → (s : String) × (string_of o ≡ some s)
is_string-some (some (str s)) h = (s, refl)
is_string-some o h = absurd (cc)

entry_tx_ok :
    (txs : Fields) (o : Option Json) (tx : Option Json)
    → is_string o ≡ true
    → entry_tx txs o ≡ ok tx
    → HasTx tx
unfolding entry_tx
entry_tx_ok txs (some (str k)) tx s h = ground arith
entry_tx_ok txs o tx s h = absurd (cc)

check_trace-Safe :
    (c : Option Json) (tx t d : Option Json)
    → HasTx tx
    → is_record t ≡ true
    → is_string c ≡ true
    → Safe trace (string_of c) tx t d
check_trace-Safe (some (str s)) tx t d w r h = (w, r)
check_trace-Safe c tx t d w r h = absurd (cc)

check_delta-Safe :
    (c : Option Json) (tx t d : Option Json)
    → is_record d ≡ true
    → is_string c ≡ true
    → Safe delta (string_of c) tx t d
check_delta-Safe (some (str s)) tx t d r h = r
check_delta-Safe c tx t d r h = absurd (cc)

absent_tx :
    (txs : Fields) (i tx : Option Json)
    → not (is_defined i) ≡ true
    → entry_tx txs i ≡ ok tx
    → tx ≡ none
unfolding entry_tx
absent_tx txs none tx h e = cc
absent_tx txs (some i) tx h e = absurd (cc)

check_entry-Safe :
    (type : NotificationType) (txs e : Fields) (tx : Option Json)
    → check_entry type e ≡ ok tt
    → entry_tx txs (get "tx_id" e) ≡ ok tx
    → Safe type (entry_channel type e) tx (get "trace" e) (get "delta" e)
unfolding check_entry
check_entry-Safe trace txs e tx h k =
    let (a, rest) = then_ok _ _ h in
    let (b, last) = then_ok _ _ rest in
    check_trace-Safe (get "channel" e) tx _ _
      (entry_tx_ok txs (get "tx_id" e) tx (require_ok _ _ a) k) (require_ok _ _ b)
      (require_ok _ _ last)
check_entry-Safe delta txs e tx h k =
    let (a, last) = then_ok _ _ h in
    check_delta-Safe (get "channel" e) tx (get "trace" e) (get "delta" e) (require_ok _ _ a)
      (require_ok _ _ last)
check_entry-Safe fork txs e tx h k =
    let (a, last) = then_ok _ _ h in
    let none_there : tx ≡ none = absent_tx txs (get "tx_id" e) tx (require_ok _ _ last) k in
    subst (λ x. Safe fork none x (get "trace" e) (get "delta" e)) (sym none_there) tt

legacy_tx :
    (o : Option Json)
    → elim o [ none ↦ false | some tx ↦ is_well_formed_transaction tx ] ≡ true
    → HasTx o
legacy_tx none h = absurd (cc)
legacy_tx (some tx) h = h

undefined : (o : Option Json) → not (is_defined o) ≡ true → o ≡ none
undefined none h = refl
undefined (some j) h = absurd (cc)

check_legacy-Safe :
    (type : NotificationType) (e d : Fields)
    → check_legacy type e d ≡ ok tt
    → Safe type (entry_channel type e) (get "tx" d) (get "trace" d) (get "delta" d)
unfolding check_legacy
check_legacy-Safe trace e d h =
    let (a, rest) = then_ok _ _ h in
    let (b, last) = then_ok _ _ rest in
    check_trace-Safe (get "channel" e) (get "tx" d) _ _
      (legacy_tx (get "tx" d) (require_ok _ _ last)) (require_ok _ _ b) (require_ok _ _ a)
check_legacy-Safe delta e d h =
    let (a, last) = then_ok _ _ h in
    check_delta-Safe (get "channel" e) (get "tx" d) (get "trace" d) (get "delta" d)
      (require_ok _ _ last) (require_ok _ _ a)
check_legacy-Safe fork e d h =
    let (a, last) = then_ok _ _ h in
    let none_there : get "tx" d ≡ none = undefined (get "tx" d) (require_ok _ _ last) in
    subst (λ x. Safe fork none x (get "trace" d) (get "delta" d)) (sym none_there) tt

typed_ok :
    (r : Bool) (message : String) (c : Outcome (Unit {0})) (m : Outcome (Option Json))
    (make : Option Json → Decoded × Option String) (d : Decoded × Option String)
    → (require r message >> (c >> (m >>= λ tx. ok (make tx)))) ≡ ok d
    → (tx : Option Json) × (r ≡ true) × (c ≡ ok tt) × (m ≡ ok tx) × (make tx ≡ d)
typed_ok true message (ok u) (ok tx) make d h = (tx, refl, refl, refl, cc)
typed_ok true message (ok u) (err e) make d h = absurd (cc)
typed_ok true message (err e) m make d h = absurd (cc)
typed_ok false message c m make d h = absurd (cc)

legacy_ok :
    (r : Bool) (message : String) (c : Outcome (Unit {0})) (made d : Decoded)
    → (require r message >> (c >> ok made)) ≡ ok d
    → (r ≡ true) × (c ≡ ok tt) × (made ≡ d)
legacy_ok true message (ok u) made d h = (refl, refl, cc)
legacy_ok true message (err e) made d h = absurd (cc)
legacy_ok false message c made d h = absurd (cc)

is_record_block :
    (o : Option Json)
    → is_record o ≡ true
    → is_record (some (elim o [ none ↦ null | some b ↦ b ])) ≡ true
is_record_block none h = absurd (cc)
is_record_block (some b) h = h

decode_typed-IsSafe :
    (txs : Fields) (type : NotificationType) (e : Fields) (d : Decoded × Option String)
    → decode_typed txs type e ≡ ok d
    → IsSafe d.0
unfolding decode_typed
decode_typed-IsSafe txs type e d h =
    let (tx, block, checked, found, same) =
      typed_ok (is_record (get "block" e)) "Notification entry carries no block"
        (check_entry type e) (entry_tx txs (get "tx_id" e)) _ d h in
    subst (λ (x : Decoded × Option String). IsSafe x.0) same
      (is_record_block (get "block" e) block, check_entry-Safe type txs e tx checked found)

decode_legacy_typed-IsSafe :
    (type : NotificationType) (e : Fields) (payload : Option Json) (d : Decoded)
    → decode_legacy_typed type e payload ≡ ok d
    → IsSafe d
unfolding decode_legacy_typed
decode_legacy_typed-IsSafe type e payload d h =
    let (block, checked, same) =
      legacy_ok (is_record payload && is_record (get "block" (fields_of payload)))
        "Legacy notification entry carries no block" (check_legacy type e (fields_of payload)) _ d
        h in
    subst IsSafe same (
      is_record_block (get "block" (fields_of payload)) (ground arith),
      check_legacy-Safe type e (fields_of payload) checked,
    )

decode_entry-IsSafe :
    (txs : Fields) (entry : Json) (d : Decoded × Option String)
    → decode_entry txs entry ≡ ok d
    → IsSafe d.0
unfolding decode_entry
decode_entry-IsSafe txs (obj e) d h = elim (Option-cases (notification_type (get "type" e))) [
  | inl t ↦ absurd (ground arith)
  | inr (type, t) ↦ decode_typed-IsSafe txs type e d (ground arith)
]
decode_entry-IsSafe txs _ d h = absurd (cc)

decode_legacy_entry-IsSafe :
    (entry : Json) (d : Decoded) → decode_legacy_entry entry ≡ ok d → IsSafe d
unfolding decode_legacy_entry
decode_legacy_entry-IsSafe (obj e) d h = elim (Option-cases (notification_type (get "type" e))) [
  | inl t ↦ absurd (ground arith)
  | inr (type, t) ↦ decode_legacy_typed-IsSafe type e (get "data" e) d (ground arith)
]
decode_legacy_entry-IsSafe _ d h = absurd (cc)

map_all_safe :
    {B : Type 0} (P : B → Type 0) (f : Json → Outcome B)
    → ((j : Json) (b : B) → f j ≡ ok b → P b)
    → (xs : List Json) (ys : List B) → map_all f xs ≡ ok ys
    → All P ys × (length ys ≡ length xs)
unfolding map_all
map_all_safe P f keep [] [] h = (tt, refl)
map_all_safe P f keep [] (y ∷ ys) h = absurd (cc)
map_all_safe P f keep (x ∷ xs) ys h =
    let (b, one, more) = bind_ok (f x) _ h in
    let (bs, rest, same) = bind_ok (map_all f xs) _ more in
    let (safe, count) = map_all_safe P f keep xs bs rest in
    let list : b ∷ bs ≡ ys = cc in
    subst (λ l. All P l × (length l ≡ length (x ∷ xs))) list ((keep x b one, safe), ap suc count)

All-first :
    (ds : List (Decoded × Option String))
    → All (λ (d : Decoded × Option String). IsSafe d.0) ds
    → All IsSafe (map (λ (d : Decoded × Option String). d.0) ds)
All-first [] h = tt
All-first (d ∷ ds) h = (h.0, All-first ds h.1)

length-first :
    (ds : List (Decoded × Option String))
    → length (map (λ (d : Decoded × Option String). d.0) ds) ≡ length ds
length-first [] = refl
length-first (d ∷ ds) = ap suc (length-first ds)

-- The number of the decoded rows, and what holds of each.
abbrev pub AreSafe : List Decoded → Type 0
AreSafe ds = All IsSafe ds × (length ds ≤ 50)

decode_envelope_safe : (e : Fields) (ds : List Decoded) → decode_envelope e ≡ ok ds → AreSafe ds
unfolding decode_envelope
decode_envelope_safe e ds h =
    let (a, h1) =
      then_ok (require (is_version (get "v" e)) "Unsupported notification format version") _ h in
    let (b, h2) =
      then_ok (require (is_array (get "n" e)) "Notification envelope carries no entry array") _
        h1 in
    let (c, h3) =
      then_ok
        (require (is_record (some (or_empty (get "txs" e))))
          "Notification envelope carries a transaction map that is not an object")
        _ h2 in
    let (small, h4) =
      then_ok
        (require (not (ltb notification_chunk_size (length (item_list (get "n" e)))))
          "Notification message carries more than 50 entries")
        _ h3 in
    let txs = fields_of (some (or_empty (get "txs" e))) in
    let (decoded, entries, h5) =
      bind_ok (map_all (decode_entry txs) (item_list (get "n" e))) _ h4 in
    let (all_used, h6) =
      then_ok
        (require (all (λ k. has_reference k decoded) (keys txs))
          "Notification envelope carries a transaction no entry references")
        _ h5 in
    let (safe, count) =
      map_all_safe (λ (d : Decoded × Option String). IsSafe d.0) (decode_entry txs)
        (decode_entry-IsSafe txs) (item_list (get "n" e)) decoded entries in
    let same : map (λ (d : Decoded × Option String). d.0) decoded ≡ ds = cc in
    subst AreSafe same
      (All-first decoded safe, ground (arith, length-first decoded, require_ok _ _ small))

-- Whatever JSON value a message parses to, if the decoder accepts it, there are at most fifty
-- notifications, and each has what its type promises: a trace a channel, an object and a
-- transaction with a text id and an array of traces; a row change a channel and an object; a fork
-- no channel and no transaction; all of them a block that is an object. This holds of both wire
-- forms.
pub decode_message-AreSafe :
    (message : Json) (ds : List Decoded) → decode_message message ≡ ok ds → AreSafe ds
unfolding decode_message
decode_message-AreSafe (arr xs) ds h =
    let (small, rest) =
      then_ok
        (require (not (ltb notification_chunk_size (length (elements xs))))
          "Notification message carries more than 50 entries")
        _ h in
    let (safe, count) =
      map_all_safe IsSafe decode_legacy_entry decode_legacy_entry-IsSafe (elements xs) ds rest in
    (safe, ground (arith, require_ok _ _ small))
decode_message-AreSafe (obj e) ds h = decode_envelope_safe e ds h
decode_message-AreSafe _ ds h = absurd (cc)
