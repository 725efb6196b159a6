-- ===== src/Filler/Notification/References.antt =====
-- The loop that looks for a key which the map does not hold ends, with such a key.
use Prim.Native.String.{◌++◌ as append, count}
use text.Mathlib.TextLemmas.{append_cancel_left, length-append}
use atomicassets_api.Prelude.{
  ℕ, zero, suc, ◌≤◌, ◌<◌, ◌≡◌, ◌≢◌, refl, sym, ap, ◌∙◌, true, false, String, str_eq, eq_iff, List,
  [], ◌∷◌, length, arith, Bool-cases, inl, inr, if◌then◌else◌,
}
use atomicassets_api.Prelude.Decimal.{decimal_inj}
use atomicassets_api.Filler.Notification.{has_own, candidate, free_reference_from, free_reference}

suffix_grows : (id s : String) → id ≡ append id (append "#" s) → ⊥
suffix_grows id s e =
    omega (arith, ap count e, length-append id (append "#" s), length-append "#" s)

candidate_inj : (id : String) (m n : ℕ) → candidate id m ≡ candidate id n → m ≡ n
unfolding candidate
candidate_inj id zero zero e = refl
candidate_inj id zero (suc n) e = absurd (suffix_grows id _ e)
candidate_inj id (suc m) zero e = absurd (suffix_grows id _ (sym e))
candidate_inj id (suc m) (suc n) e =
    decimal_inj (suc m) (suc n) (append_cancel_left "#" _ _ (append_cancel_left id _ _ e))

without : String → List (String × ℕ) → List (String × ℕ)
without k [] = []
without k ((j, r) ∷ l) = if str_eq j k then without k l else (j, r) ∷ without k l

length-without : (k : String) (l : List (String × ℕ)) → length (without k l) ≤ length l
unfolding without
length-without k [] = omega arith
length-without k ((j, r) ∷ l) = ground (arith, length-without k l)

length-without_lt :
    (k : String) (l : List (String × ℕ)) → has_own k l ≡ true → length (without k l) < length l
unfolding without has_own
length-without_lt k [] h = cc
length-without_lt k ((j, r) ∷ l) h = ground (arith, length-without k l, length-without_lt k l)

has_own-without :
    (j k : String) (l : List (String × ℕ)) → j ≢ k → has_own j (without k l) ≡ has_own j l
unfolding without has_own
has_own-without j k [] h = refl
has_own-without j k ((i, r) ∷ l) h = ground (arith, has_own-without j k l h, eq_iff i k, eq_iff i j)

-- A key that no later candidate takes can be left out of the map.
free_reference_from-without :
    (f n : ℕ) (id k : String) (l : List (String × ℕ))
    → ((m : ℕ) → n ≤ m → candidate id m ≢ k)
    → free_reference_from f n id (without k l) ≡ free_reference_from f n id l
unfolding free_reference_from
free_reference_from-without zero n id k l h = refl
free_reference_from-without (suc f) n id k l h = rw (
  has_own-without (candidate id n) k l (h n (omega arith)),
  free_reference_from-without f (suc n) id k l (λ m le. h m (omega arith)),
)

free_reference_from-eq-candidate :
    (f n : ℕ) (id : String) (l : List (String × ℕ))
    → (m : ℕ) × (n ≤ m) × (free_reference_from f n id l ≡ candidate id m)
unfolding free_reference_from
free_reference_from-eq-candidate zero n id l = (n, omega arith, refl)
free_reference_from-eq-candidate (suc f) n id l = elim (Bool-cases (has_own (candidate id n) l)) [
  | inl taken ↦
      let (m, le, e) = free_reference_from-eq-candidate f (suc n) id l in
      (m, omega arith, rw taken e)
  | inr free ↦ (n, omega arith, rw free refl)
]

free_reference_from-free :
    (f n : ℕ) (id : String) (l : List (String × ℕ))
    → length l ≤ f
    → has_own (free_reference_from f n id l) l ≡ false
unfolding free_reference_from has_own
free_reference_from-free zero n id [] h = refl
free_reference_from-free zero n id (x ∷ l) h = absurd (omega arith)
free_reference_from-free (suc f) n id l h = elim (Bool-cases (has_own (candidate id n) l)) [
  | inl taken ↦
      let k = candidate id n in
      let later : (m : ℕ) → suc n ≤ m → candidate id m ≢ k =
        λ m le e. omega (arith, candidate_inj id m n e) in
      let (m, le, found) = free_reference_from-eq-candidate f (suc n) id l in
      let other : free_reference_from f (suc n) id l ≢ k = λ e. later m le (sym found ∙ e) in
      rw taken (
        sym (has_own-without _ k l other)
        ∙ ap (λ x. has_own x (without k l))
            (sym (free_reference_from-without f (suc n) id k l later))
        ∙ free_reference_from-free f (suc n) id (without k l)
            (omega (arith, length-without_lt k l taken)))
  | inr free ↦ rw free free
]

-- Whatever the id and the map, the loop ends within as many rounds as the map has keys, and the key
-- that it finds is not in the map.
pub has_own-free_reference :
    (id : String) (txs : List (String × ℕ)) → has_own (free_reference id txs) txs ≡ false
unfolding free_reference
has_own-free_reference id txs = free_reference_from-free (length txs) 0 id txs (omega arith)
