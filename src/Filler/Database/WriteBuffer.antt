-- ===== src/Filler/Database/WriteBuffer.antt =====
-- `WriteBuffer` of src/filler/database.ts. `text` is the `String` of a value, and `insert_direct` the
-- method of the transaction that a flush calls.
use Prim.Native.String.{◌++◌ as append, compare}
use Prim.Native.Nat.{Ordering}
use atomicassets_api.Prelude.{
  ℕ, ◌+◌, ◌/◌, min, Bool, true, false, not, ◌&&◌, String, str_eq, Option, none, some, List, [], ◌∷◌,
  ◌++◌, map, length, set, ◌==◌, ltb, if◌then◌else◌,
}
use atomicassets_api.Exec.{Exec, Outcome, ok, err, type_error, raise, for_each}
use atomicassets_api.Filler.Utils.{array_chunk}
use atomicassets_api.Filler.Database.Values.{Value, Columns, at, columns}

pub data OnConflict : Type 0 where
  update nothing error : OnConflict

-- An entry of `pending`; `pk_index` is the map from the hash of a primary key to the row's index.
pub record Batch : Type 0 where
  pub table : String
  pub rows : List Columns
  pub pk_index : List (String × ℕ)
  pub primary_key : List String
  pub on_conflict : OnConflict
  pub reversible : Bool
  pub update_blacklist : List String

-- The map `pending`, in the order of insertion.
abbrev pub Pending : Type 0
Pending = List (String × Batch)

abbrev sum : List ℕ → ℕ
sum [] = 0
sum (n ∷ ns) = n + sum ns

unfoldable pub total_rows : Pending → ℕ
total_rows pending = sum (map (λ (e : String × Batch). length e.1.rows) pending)

abbrev pub join : String → List String → String
join by [] = ""
join by (s ∷ []) = s
join by (s ∷ t ∷ ts) = append s (append by (join by (t ∷ ts)))

abbrev conflict_name : OnConflict → String
conflict_name update = "update"
conflict_name nothing = "nothing"
conflict_name error = "error"

abbrev insert_key : String → List String → List String
insert_key k [] = k ∷ []
insert_key k (j ∷ js) = elim (compare k j) [ Ordering.gt ↦ j ∷ insert_key k js | _ ↦ k ∷ j ∷ js ]

-- `keys.sort()`
unfoldable pub sort_keys : List String → List String
sort_keys [] = []
sort_keys (k ∷ ks) = insert_key k (sort_keys ks)

-- The row with its columns in the order of the sorted keys.
unfoldable pub normalize : List String → Columns → Columns
normalize sorted row = map (λ k. (k, at k row)) sorted

unfoldable pub batch_key : String → OnConflict → List String → List String → List String → String
batch_key table mode primary_key sorted blacklist =
    join ":" (
      table ∷ conflict_name mode ∷ join "," primary_key ∷ join "," sorted ∷ join "," blacklist ∷ [])

abbrev pub lookup : {A : Type 0} → String → List (String × A) → Option A
lookup k [] = none
lookup k ((j, v) ∷ es) = if str_eq j k then some v else lookup k es

-- `pending.get(key)`, and a new batch where there is none; a key keeps its place.
abbrev pub put : {A : Type 0} → String → A → List (String × A) → List (String × A)
put k v [] = (k, v) ∷ []
put k v ((j, w) ∷ es) = if str_eq j k then (j, v) ∷ es else (j, w) ∷ put k v es

module _ (text : Value → String) where
  unfoldable pub pk_hash : List String → Columns → String
  pk_hash primary_key row = join "\0" (map (λ k. text (at k row)) primary_key)

  -- A row of a primary key that is in the batch replaces the row that is there.
  abbrev pub put_at : Columns → String → Batch → Option ℕ → Batch
  put_at row h b none = record b {
    pk_index = (h, length b.rows) ∷ b.pk_index;
    rows = b.rows ++ row ∷ [];
  }
  put_at row h b (some i) = record b { rows = set b.rows i row }

  unfoldable pub put_row : Columns → Batch → Batch
  put_row row b = let h = pk_hash b.primary_key row in put_at row h b (lookup h b.pk_index)

  unfoldable pub put_rows : List Columns → Batch → Batch
  put_rows [] b = b
  put_rows (row ∷ rows) b = put_rows rows (put_row row b)

  abbrev is_error : OnConflict → Bool
  is_error error = true
  is_error _ = false

  unfoldable pub add_rows : List Columns → Batch → Batch
  unfolding put_rows
  add_rows rows b =
      if ltb 0 (length b.primary_key) && not (is_error b.on_conflict)
      then put_rows rows b
      else record b { rows = b.rows ++ rows }

  -- `add`, on the array of rows
  unfoldable pub add :
      String → List Columns → List String → OnConflict → Bool → List String → Pending → Pending
  unfolding add_rows batch_key sort_keys normalize
  add table [] primary_key mode reversible blacklist pending = pending
  add table (first ∷ others) primary_key mode reversible blacklist pending =
      let sorted = sort_keys (columns first) in
      let key = batch_key table mode primary_key sorted blacklist in
      let created : Batch = record {
        table = table;
        rows = [];
        pk_index = [];
        primary_key = primary_key;
        on_conflict = mode;
        reversible = reversible;
        update_blacklist = blacklist;
      } in
      let batch = elim (lookup key pending) as (λ _. Batch) [ none ↦ created | some b ↦ b ] in
      put key (add_rows (map (normalize sorted) (first ∷ others)) batch) pending

-- `Math.min(Math.floor(65535 / numColumns), 500)`; a quotient by 0 is infinite.
unfoldable pub chunk_size : ℕ → ℕ
chunk_size n = if n == 0 then 500 else min (65535 / n) 500

abbrev pub chunks_of : List Columns → Option (List (List Columns))
chunks_of [] = none
chunks_of (first ∷ others) =
    some (array_chunk (first ∷ others) (chunk_size (length (columns first))))

-- The chunks that a batch is inserted in: `Object.keys` of a first row that is not there throws.
unfoldable pub batch_chunks : Batch → Option (List (List Columns))
unfolding chunk_size
batch_chunks b = chunks_of b.rows

module _ {S : Type 0} (insert_direct : Batch → List Columns → Exec S (Unit {0})) where
  unfoldable pub flush_batch : Batch → Exec S (Unit {0})
  unfolding batch_chunks
  flush_batch b = elim (batch_chunks b) [
    | none ↦ raise type_error
    | some chunks ↦ for_each (insert_direct b) chunks
  ]

  abbrev left_over : Pending → Outcome (Unit {0}) → Pending
  left_over pending (ok u) = []
  left_over pending (err e) = pending

  -- `flush`: `pending` is cleared after the last batch, unless one throws.
  unfoldable pub flush : Pending → S → (Outcome (Unit {0}) × S) × Pending
  unfolding flush_batch
  flush pending s =
      let done = for_each (λ (e : String × Batch). flush_batch e.1) pending s in
      (done, left_over pending done.0)
