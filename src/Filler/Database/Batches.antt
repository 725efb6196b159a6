-- ===== src/Filler/Database/Batches.antt =====
-- What a batch of the write buffer of src/filler/database.ts holds, and the bound on a flush.
use mathlib.Core.Path.{subst}
use native.Mathlib.Nat.{le-div_iff_mul-le}
use atomicassets_api.Prelude.{
  ℕ, suc, ◌*◌, ◌≤◌, ◌<◌, ◌≡◌, ◌⊎◌, inl, inr, refl, ap, sym, ◌∙◌, true, false, Bool-cases,
  Option-cases, String, str_eq, eq_iff, Option, none, some, List, [], ◌∷◌, ◌++◌, length, set, arith,
  if◌then◌else◌,
}
use atomicassets_api.Prelude.Predicates.{All, All-map}
use atomicassets_api.Filler.Utils.{array_chunk, array_chunk_lem, concat}
use atomicassets_api.Filler.Database.Values.{Value, Columns, columns}
use atomicassets_api.Filler.Database.WriteBuffer.{
  Batch, lookup, pk_hash, put_at, put_row, put_rows, chunk_size, batch_chunks,
}

module _ (hash : Columns → String) where
  -- The position of the first row of a primary key.
  abbrev pub position : String → List Columns → Option ℕ
  position h [] = none
  position h (r ∷ rs) =
      if str_eq (hash r) h
      then some 0
      else elim (position h rs) [ none ↦ none | some i ↦ some (suc i) ]

  -- The rows of a primary key.
  abbrev pub of_key : String → List Columns → List Columns
  of_key h [] = []
  of_key h (r ∷ rs) = if str_eq (hash r) h then r ∷ of_key h rs else of_key h rs

  -- The last of the rows of a primary key.
  abbrev pub last_of : String → List Columns → List Columns → List Columns
  last_of h [] before = before
  last_of h (r ∷ rs) before = last_of h rs (if str_eq (hash r) h then r ∷ [] else before)

  absent :
      (k : String) (r : Columns) (rs : List Columns)
      → position k (r ∷ rs) ≡ none
      → (str_eq (hash r) k ≡ false) × (position k rs ≡ none)
  absent k r rs p = ground arith

  -- The first row of a key is the first row, or a later one.
  present :
      (k : String) (r : Columns) (rs : List Columns) (i : ℕ)
      → position k (r ∷ rs) ≡ some i
      → ((str_eq (hash r) k ≡ true) × (i ≡ 0))
        ⊎ ((j : ℕ) × (str_eq (hash r) k ≡ false) × (position k rs ≡ some j) × (i ≡ suc j))
  present k r rs i p = elim (Bool-cases (str_eq (hash r) k)) [
    | inl e ↦ inl (e, ground arith)
    | inr e ↦ elim (Option-cases (position k rs)) [
      | inl q ↦ absurd (ground arith)
      | inr (j, q) ↦ inr (j, e, q, ground arith)
    ]
  ]

  no_rows : (l : List Columns) → length l ≤ 0 → l ≡ []
  no_rows [] h = refl
  no_rows (r ∷ rs) h = absurd (omega arith)

  str_eq_refl : (s : String) → str_eq s s ≡ true
  str_eq_refl s = (eq_iff s s).1 refl

  -- Replacing the first row of a key, if no other row has the key: what the key and the others have.
  replace_same :
      (row : Columns) (rows : List Columns) (i : ℕ)
      → position (hash row) rows ≡ some i
      → length (of_key (hash row) rows) ≤ 1
      → of_key (hash row) (set rows i row) ≡ row ∷ []
  replace_same row [] i p u = absurd (cc)
  replace_same row (r ∷ rs) i p u = elim (present (hash row) r rs i p) [
    | inl (e, z) ↦ rw z (
        rw (str_eq_refl (hash row))
          (ap (λ l. row ∷ l) (no_rows (of_key (hash row) rs) (ground arith))))
    | inr (j, e, q, z) ↦ rw (z, e) (replace_same row rs j q (ground arith))
  ]

  replace_other :
      (row : Columns) (rows : List Columns) (i : ℕ) (h : String)
      → position (hash row) rows ≡ some i
      → str_eq (hash row) h ≡ false
      → of_key h (set rows i row) ≡ of_key h rows
  replace_other row [] i h p k = absurd (cc)
  replace_other row (r ∷ rs) i h p k = elim (present (hash row) r rs i p) [
    | inl (e, z) ↦ rw (z, (eq_iff (hash r) (hash row)).0 e, k) refl
    | inr (j, e, q, z) ↦ rw (z, replace_other row rs j h q k) refl
  ]

  replace_position :
      (row : Columns) (rows : List Columns) (i : ℕ) (h : String)
      → position (hash row) rows ≡ some i
      → position h (set rows i row) ≡ position h rows
  replace_position row [] i h p = absurd (cc)
  replace_position row (r ∷ rs) i h p = elim (present (hash row) r rs i p) [
    | inl (e, z) ↦ rw (z, (eq_iff (hash r) (hash row)).0 e) refl
    | inr (j, e, q, z) ↦ rw (z, replace_position row rs j h q) refl
  ]

  push_position_same :
      (row : Columns) (rows : List Columns)
      → position (hash row) rows ≡ none
      → position (hash row) (rows ++ row ∷ []) ≡ some (length rows)
  push_position_same row [] p = rw (str_eq_refl (hash row)) refl
  push_position_same row (r ∷ rs) p =
      let a = absent (hash row) r rs p in rw (a.0, push_position_same row rs a.1) refl

  push_position_other :
      (row : Columns) (rows : List Columns) (h : String)
      → str_eq (hash row) h ≡ false
      → position h (rows ++ row ∷ []) ≡ position h rows
  push_position_other row [] h k = rw k refl
  push_position_other row (r ∷ rs) h k = rw (push_position_other row rs h k) refl

  push_same :
      (row : Columns) (rows : List Columns)
      → position (hash row) rows ≡ none
      → of_key (hash row) (rows ++ row ∷ []) ≡ row ∷ []
  push_same row [] p = rw (str_eq_refl (hash row)) refl
  push_same row (r ∷ rs) p = let a = absent (hash row) r rs p in rw (a.0, push_same row rs a.1) refl

  push_other :
      (row : Columns) (rows : List Columns) (h : String)
      → str_eq (hash row) h ≡ false
      → of_key h (rows ++ row ∷ []) ≡ of_key h rows
  push_other row [] h k = rw k refl
  push_other row (r ∷ rs) h k = rw (push_other row rs h k) refl

  pub record IsIndexed (index : List (String × ℕ)) (rows : List Columns) : Type 0 where
    pub positions : (h : String) → lookup h index ≡ position h rows
    pub unique : (h : String) → length (of_key h rows) ≤ 1

by_key : (P : String → Type 0) (k h : String) → P k → (str_eq k h ≡ false → P h) → P h
by_key P k h x f = elim (Bool-cases (str_eq k h)) [
  | inl e ↦ subst P ((eq_iff k h).0 e) x
  | inr e ↦ f e
]

module _ (text : Value → String) (hash : Columns → String) where
  -- The rows of each key are the row that was put, or what they were.
  abbrev IsPut : Columns → Batch → Batch → String → Type 0
  IsPut row b c h =
      of_key hash h c.rows ≡ (if str_eq (hash row) h then row ∷ [] else of_key hash h b.rows)

  put_at-IsPut :
      (row : Columns) (b : Batch) (o : Option ℕ) (h : String)
      → IsIndexed hash b.pk_index b.rows
      → position hash (hash row) b.rows ≡ o
      → IsPut row b (put_at text row (hash row) b o) h
  put_at-IsPut row b none h w e =
      by_key (IsPut row b (put_at text row (hash row) b none)) (hash row) h
        (rw (str_eq_refl hash (hash row)) (push_same hash row b.rows e))
        (λ k. rw k (push_other hash row b.rows h k))
  put_at-IsPut row b (some i) h w e =
      by_key (IsPut row b (put_at text row (hash row) b (some i))) (hash row) h
        (rw (str_eq_refl hash (hash row)) (replace_same hash row b.rows i e (w.unique (hash row))))
        (λ k. rw k (replace_other hash row b.rows i h e k))

  put_at-positions :
      (row : Columns) (b : Batch) (o : Option ℕ) (h : String)
      → IsIndexed hash b.pk_index b.rows
      → position hash (hash row) b.rows ≡ o
      → lookup h (put_at text row (hash row) b o).pk_index
        ≡ position hash h (put_at text row (hash row) b o).rows
  put_at-positions row b none h w e =
      by_key
        (λ k.
          lookup k (put_at text row (hash row) b none).pk_index
          ≡ position hash k (put_at text row (hash row) b none).rows)
        (hash row) h (rw (str_eq_refl hash (hash row)) (sym (push_position_same hash row b.rows e)))
        (λ k. rw k (w.positions h ∙ sym (push_position_other hash row b.rows h k)))
  put_at-positions row b (some i) h w e =
      w.positions h ∙ sym (replace_position hash row b.rows i h e)

  put_at-IsIndexed :
      (row : Columns) (b : Batch) (o : Option ℕ)
      → IsIndexed hash b.pk_index b.rows
      → position hash (hash row) b.rows ≡ o
      → IsIndexed hash
          (put_at text row (hash row) b o).pk_index
          (put_at text row (hash row) b o).rows
  put_at-IsIndexed row b o w e = record {
    positions = λ h. put_at-positions row b o h w e;
    unique = λ h. rw (put_at-IsPut row b o h w e) (elim (Bool-cases (str_eq (hash row) h)) [
      | inl k ↦ rw k (omega arith)
      | inr k ↦ rw k (w.unique h)
    ]);
  }

module _ (text : Value → String) (primary_key : List String) where
  abbrev pub hash_by : Columns → String
  hash_by = pk_hash text primary_key

  abbrev next : Columns → Batch → Batch
  next row b = put_at text row (hash_by row) b (lookup (hash_by row) b.pk_index)

  put_row-next :
      (row : Columns) (b : Batch) → b.primary_key ≡ primary_key → put_row text row b ≡ next row b
  unfolding put_row
  put_row-next row b e =
      ap (λ pk. put_at text row (pk_hash text pk row) b (lookup (pk_hash text pk row) b.pk_index)) e

  put_at-primary_key :
      (row : Columns) (h : String) (b : Batch) (o : Option ℕ)
      → (put_at text row h b o).primary_key ≡ b.primary_key
  put_at-primary_key row h b none = refl
  put_at-primary_key row h b (some i) = refl

  abbrev pub Latest : List Columns → Batch → Batch → Type 0
  Latest rows b c =
      IsIndexed hash_by c.pk_index c.rows
      × ((h : String) → of_key hash_by h c.rows ≡ last_of hash_by h rows (of_key hash_by h b.rows))

  -- Rows that are put one after another into a batch whose index is right leave an index that is
  -- right, with at most one row for each primary key: of the rows that were put, the last one with
  -- that key, or else the row that the batch had.
  pub put_rows-Latest :
      (rows : List Columns) (b : Batch)
      → b.primary_key ≡ primary_key
      → IsIndexed hash_by b.pk_index b.rows
      → Latest rows b (put_rows text rows b)
  unfolding put_rows
  put_rows-Latest [] b e w = (w, λ h. refl)
  put_rows-Latest (row ∷ rows) b e w =
      let o = lookup (hash_by row) b.pk_index in
      let at = sym (w.positions (hash_by row)) in
      let rest =
        put_rows-Latest rows (next row b) (put_at-primary_key row (hash_by row) b o ∙ e)
          (put_at-IsIndexed text hash_by row b o w at) in
      subst (Latest (row ∷ rows) b) (ap (put_rows text rows) (sym (put_row-next row b e))) (
        rest.0,
        λ h. rest.1 h ∙ ap (last_of hash_by h rows) (put_at-IsPut text hash_by row b o h w at),
      )

-- The statements that a batch is flushed in keep its rows in their order, hold from 1 to 500 rows
-- each, and bind at most 65535 parameters, if its rows have as many columns as the first of them and
-- these are from 1 to 65535.
pub batch_chunks-AreBound :
    (b : Batch) (first : Columns) (others : List Columns)
    → b.rows ≡ first ∷ others
    → 0 < length (columns first)
    → length (columns first) ≤ 65535
    → (cs : List (List Columns)) × (batch_chunks b ≡ some cs)
      × (concat cs ≡ b.rows)
      × All
          (λ c. (0 < length c) × (length c ≤ 500) × (length c * length (columns first) ≤ 65535))
          cs
unfolding batch_chunks chunk_size
batch_chunks-AreBound b first others e h k =
    let size = chunk_size (length (columns first)) in
    let chunks = array_chunk_lem (first ∷ others) size (ground arith) in
    (
      array_chunk (first ∷ others) size,
      rw e refl,
      chunks.0 ∙ sym e,
      All-map (λ c. (0 < length c) × (length c ≤ size)) _
          (λ c w. (w.0, ground (arith, w.1), (le-div_iff_mul-le h).0 (ground (arith, w.1))))
          (array_chunk (first ∷ others) size) chunks.1,
    )
