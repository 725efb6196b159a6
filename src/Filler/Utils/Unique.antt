-- ===== src/Filler/Utils/Unique.antt =====
-- `arrayUnique` of src/utils/index.ts, with the comparison of a call.
use atomicassets_api.Prelude.{
  ℕ, suc, ◌≡◌, refl, sym, ap, ◌∙◌, inl, inr, Bool, true, false, not, List, [], ◌∷◌, ◌++◌, any,
  length, ◌==◌, Bool-cases, if◌then◌else◌, arith,
}

module _ {A : Type 0} (compare : A → A → Bool) where
  -- `findIndex`, where a result that is no index of the list stands for -1
  abbrev find_index : (A → Bool) → List A → ℕ
  find_index p [] = 0
  find_index p (x ∷ xs) = if p x then 0 else suc (find_index p xs)

  -- The filter, on the elements from an index on.
  unfoldable pub unique_from : ℕ → List A → List A → List A
  unique_from i whole [] = []
  unique_from i whole (v ∷ vs) =
      let rest = unique_from (suc i) whole vs in
      if find_index (compare v) whole == i then v ∷ rest else rest

  unfoldable pub array_unique : List A → List A
  unfolding unique_from
  array_unique l = unique_from 0 l l

  -- The elements that compare to none before them.
  abbrev pub first_ones : List A → List A → List A
  first_ones seen [] = []
  first_ones seen (v ∷ vs) =
      let rest = first_ones (seen ++ v ∷ []) vs in if any (compare v) seen then rest else v ∷ rest

  append_assoc : (xs ys zs : List A) → (xs ++ ys) ++ zs ≡ xs ++ (ys ++ zs)
  append_assoc [] ys zs = refl
  append_assoc (x ∷ xs) ys zs = ap (λ l. x ∷ l) (append_assoc xs ys zs)

  length-snoc : (xs : List A) (x : A) → length (xs ++ x ∷ []) ≡ suc (length xs)
  length-snoc [] x = refl
  length-snoc (y ∷ xs) x = ap (λ n. suc n) (length-snoc xs x)

  suc_same : (m n : ℕ) → (suc m == suc n) ≡ (m == n)
  suc_same m n = ground arith

  -- The index of an element is its own exactly when it compares to none before it.
  find_index-append :
      (v : A) (seen vs : List A)
      → compare v v ≡ true
      → (find_index (compare v) (seen ++ v ∷ vs) == length seen) ≡ not (any (compare v) seen)
  find_index-append v [] vs h = rw h refl
  find_index-append v (s ∷ seen) vs h = elim (Bool-cases (compare v s)) [
    | inl e ↦ rw e (ground arith)
    | inr e ↦ rw e (
        suc_same (find_index (compare v) (seen ++ v ∷ vs)) (length seen)
        ∙ find_index-append v seen vs h)
  ]

  if_not : (b : Bool) (x y : List A) → (if not b then x else y) ≡ (if b then y else x)
  if_not true x y = refl
  if_not false x y = refl

  module _ (same : (v : A) → compare v v ≡ true) where
    unique_from-first_ones :
        (seen vs : List A) → unique_from (length seen) (seen ++ vs) vs ≡ first_ones seen vs
    unfolding unique_from
    unique_from-first_ones seen [] = refl
    unique_from-first_ones seen (v ∷ vs) =
        ap
          (λ b.
            if b
            then v ∷ unique_from (suc (length seen)) (seen ++ v ∷ vs) vs
            else unique_from (suc (length seen)) (seen ++ v ∷ vs) vs)
          (find_index-append v seen vs (same v))
        ∙ if_not (any (compare v) seen) _ _
        ∙ ap (λ l. if any (compare v) seen then l else v ∷ l)
            (ap (λ n. unique_from n (seen ++ v ∷ vs) vs) (sym (length-snoc seen v))
              ∙ ap (λ l. unique_from (length (seen ++ v ∷ [])) l vs)
                  (sym (append_assoc seen (v ∷ []) vs))
              ∙ unique_from-first_ones (seen ++ v ∷ []) vs)

    -- `arrayUnique` keeps, in order, the elements that compare to none before them, where every
    -- element compares to itself.
    pub array_unique-first_ones : (l : List A) → array_unique l ≡ first_ones [] l
    unfolding array_unique
    array_unique-first_ones l = unique_from-first_ones [] l
