-- ===== src/Filler/Utils.antt =====
-- `arrayChunk` of src/utils/index.ts, and what the batches of the filler need of it.
use atomicassets_api.Prelude.{
  ℕ, zero, suc, ◌+◌, ◌-◌, ◌*◌, ◌/◌, ◌≤◌, ◌<◌, ◌≡◌, refl, ap, ◌∙◌, List, [], ◌∷◌, ◌++◌, length, take,
  drop, take-append-drop, length-take, length-drop, arith,
}
use atomicassets_api.Prelude.Predicates.{All}
pub mod Unique

-- `arr.slice(i * size, i * size + size)` for `i` from 0 to the number of chunks: the first chunk and
-- the chunks of what is left.
chunks : {A : Type 0} → ℕ → ℕ → List A → List (List A)
chunks zero size l = []
chunks (suc n) size l = take size l ∷ chunks n size (drop size l)

-- `Array.from({ length: Math.ceil(arr.length / size) }, ...)`; a size of 0 is an invalid array
-- length in the source, which the callers exclude.
unfoldable pub array_chunk : {A : Type 0} → List A → ℕ → List (List A)
unfolding chunks
array_chunk l size = chunks ((length l + (size - 1)) / size) size l

abbrev pub concat : {A : Type 0} → List (List A) → List A
concat [] = []
concat (c ∷ cs) = c ++ concat cs

enough : (len size : ℕ) → 0 < size → len ≤ ((len + (size - 1)) / size) * size
enough len size h = grind arith

not_too_many : (len size : ℕ) → 0 < size → ((len + (size - 1)) / size) * size < len + size
not_too_many len size h = grind arith

module _ {A : Type 0} where
  concat-chunks : (n size : ℕ) (l : List A) → length l ≤ n * size → concat (chunks n size l) ≡ l
  unfolding chunks
  concat-chunks zero size [] h = refl
  concat-chunks zero size (x ∷ l) h = absurd (omega arith)
  concat-chunks (suc n) size l h =
      ap (λ r. take size l ++ r)
        (concat-chunks n size (drop size l) (omega (arith, length-drop size l)))
      ∙ take-append-drop size l

  chunks_sizes :
      (n size : ℕ) (l : List A)
      → 0 < size
      → n * size < length l + size
      → All (λ c. (0 < length c) × (length c ≤ size)) (chunks n size l)
  unfolding chunks
  chunks_sizes zero size l p h = tt
  chunks_sizes (suc n) size l p h = (
    (omega (arith, length-take size l), omega (arith, length-take size l)),
    chunks_sizes n size (drop size l) p (omega (arith, length-drop size l)),
  )

  -- For a size that is not 0, the chunks put together are the list, in its order; none is longer
  -- than the size and none is empty.
  pub array_chunk_lem :
      (l : List A) (size : ℕ)
      → 0 < size
      → (concat (array_chunk l size) ≡ l)
        × All (λ c. (0 < length c) × (length c ≤ size)) (array_chunk l size)
  unfolding array_chunk
  array_chunk_lem l size h = (
    concat-chunks _ size l (enough (length l) size h),
    chunks_sizes _ size l h (not_too_many (length l) size h),
  )
