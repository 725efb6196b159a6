-- ===== src/Prelude/Decimal.antt =====
-- The decimal text of a number, as `String(n)` gives it, and that distinct numbers have distinct
-- texts.
use Prim.Native.Nat.{ℕ, zero, suc, ◌/◌, ◌%◌, ◌<◌, ◌≤◌}
use Prim.Native.String.{String, ◌++◌, count}
use mathlib.Core.Path.{◌≡◌, refl, ap, sym, ◌∙◌}
use mathlib.Core.Logic.{inl, inr}
use native.Mathlib.Omega.{arith}
use text.Mathlib.Text.{◌==◌ as str_eq}
use text.Mathlib.TextLemmas.{length-append, append_inj}
use atomicassets_api.Prelude.Tests.{ltb, if◌then◌else◌, Bool-cases, ltb→lt}

digit : ℕ → String
digit zero = "0"
digit (suc zero) = "1"
digit (suc (suc zero)) = "2"
digit (suc (suc (suc zero))) = "3"
digit (suc (suc (suc (suc zero)))) = "4"
digit (suc (suc (suc (suc (suc zero))))) = "5"
digit (suc (suc (suc (suc (suc (suc zero)))))) = "6"
digit (suc (suc (suc (suc (suc (suc (suc zero))))))) = "7"
digit (suc (suc (suc (suc (suc (suc (suc (suc zero)))))))) = "8"
digit (suc (suc (suc (suc (suc (suc (suc (suc (suc n))))))))) = "9"

digit_value : String → ℕ
digit_value s =
    if str_eq s "0"
    then 0
    else if str_eq s "1"
    then 1
    else if str_eq s "2"
    then 2
    else if str_eq s "3"
    then 3
    else if str_eq s "4"
    then 4
    else if str_eq s "5"
    then 5
    else if str_eq s "6"
    then 6
    else if str_eq s "7"
    then 7
    else if str_eq s "8"
    then 8
    else 9

digit_value-digit : (d : ℕ) → d < 10 → digit_value (digit d) ≡ d
unfolding digit digit_value
digit_value-digit zero h = refl
digit_value-digit (suc zero) h = refl
digit_value-digit (suc (suc zero)) h = refl
digit_value-digit (suc (suc (suc zero))) h = refl
digit_value-digit (suc (suc (suc (suc zero)))) h = refl
digit_value-digit (suc (suc (suc (suc (suc zero))))) h = refl
digit_value-digit (suc (suc (suc (suc (suc (suc zero)))))) h = refl
digit_value-digit (suc (suc (suc (suc (suc (suc (suc zero))))))) h = refl
digit_value-digit (suc (suc (suc (suc (suc (suc (suc (suc zero)))))))) h = refl
digit_value-digit (suc (suc (suc (suc (suc (suc (suc (suc (suc n))))))))) h = omega arith

count-digit : (d : ℕ) → count (digit d) ≡ 1
unfolding digit
count-digit zero = refl
count-digit (suc zero) = refl
count-digit (suc (suc zero)) = refl
count-digit (suc (suc (suc zero))) = refl
count-digit (suc (suc (suc (suc zero)))) = refl
count-digit (suc (suc (suc (suc (suc zero))))) = refl
count-digit (suc (suc (suc (suc (suc (suc zero)))))) = refl
count-digit (suc (suc (suc (suc (suc (suc (suc zero))))))) = refl
count-digit (suc (suc (suc (suc (suc (suc (suc (suc zero)))))))) = refl
count-digit (suc (suc (suc (suc (suc (suc (suc (suc (suc n))))))))) = refl

decimal_from : ℕ → ℕ → String
decimal_from zero n = ""
decimal_from (suc f) n =
    let rest = decimal_from f (n / 10) ++ digit (n % 10) in if ltb n 10 then digit n else rest

-- Fuel above the number suffices, since each round divides it by ten.
unfoldable pub decimal : ℕ → String
unfolding decimal_from digit
decimal n = decimal_from (suc n) n

decimal_from_short : (f n : ℕ) → n < 10 → decimal_from (suc f) n ≡ digit n
unfolding decimal_from
decimal_from_short f n h = ground arith

decimal_from_long :
    (f n : ℕ) → 10 ≤ n → decimal_from (suc f) n ≡ decimal_from f (n / 10) ++ digit (n % 10)
unfolding decimal_from
decimal_from_long f n h = ground arith

count-decimal_from : (f n : ℕ) → n < f → 1 ≤ count (decimal_from f n)
count-decimal_from zero n h = absurd (omega arith)
count-decimal_from (suc f) n h = elim (Bool-cases (ltb n 10)) [
  | inl e ↦ rw (decimal_from_short f n (ltb→lt n 10 e)) (omega (arith, count-digit n))
  | inr e ↦ rw (decimal_from_long f n (ground arith)) (
      omega (arith, length-append (decimal_from f (n / 10)) (digit (n % 10)), count-digit (n % 10)))
]

short_long : (m f n : ℕ) → n / 10 < f → digit m ≡ decimal_from f (n / 10) ++ digit (n % 10) → ⊥
short_long m f n h e = omega (
  arith,
  ap count e,
  count-digit m,
  length-append (decimal_from f (n / 10)) (digit (n % 10)),
  count-digit (n % 10),
  count-decimal_from f (n / 10) h,
)

append_inj_right :
    (s₁ s₂ t₁ t₂ : String) → s₁ ++ t₁ ≡ s₂ ++ t₂ → count t₁ ≡ count t₂ → (s₁ ≡ s₂) × (t₁ ≡ t₂)
append_inj_right s₁ s₂ t₁ t₂ e k =
    append_inj e (omega (arith, ap count e, length-append s₁ t₁, length-append s₂ t₂, k))

digit_inj : (m n : ℕ) → m < 10 → n < 10 → digit m ≡ digit n → m ≡ n
digit_inj m n h k e = sym (digit_value-digit m h) ∙ ap digit_value e ∙ digit_value-digit n k

decimal_from_inj : (f g m n : ℕ) → m < f → n < g → decimal_from f m ≡ decimal_from g n → m ≡ n
decimal_from_inj zero g m n h k e = absurd (omega arith)
decimal_from_inj (suc f) zero m n h k e = absurd (omega arith)
decimal_from_inj (suc f) (suc g) m n h k e = elim (Bool-cases (ltb m 10)) [
  | inl a ↦ elim (Bool-cases (ltb n 10)) [
    | inl b ↦
        digit_inj m n (ltb→lt m 10 a) (ltb→lt n 10 b) (
          sym (decimal_from_short f m (ltb→lt m 10 a)) ∙ e ∙ decimal_from_short g n (ltb→lt n 10 b))
    | inr b ↦ absurd (
        short_long m g n (ground arith)
          (sym (decimal_from_short f m (ltb→lt m 10 a)) ∙ e ∙ decimal_from_long g n (ground arith)))
  ]
  | inr a ↦ elim (Bool-cases (ltb n 10)) [
    | inl b ↦ absurd (
        short_long n f m (ground arith) (
          sym (decimal_from_short g n (ltb→lt n 10 b))
          ∙ sym e
          ∙ decimal_from_long f m (ground arith)))
    | inr b ↦
        let both =
          append_inj_right _ _ _ _
            (sym (decimal_from_long f m (ground arith)) ∙ e ∙ decimal_from_long g n (ground arith))
            (count-digit (m % 10) ∙ sym (count-digit (n % 10))) in
        let q : m / 10 ≡ n / 10 =
          decimal_from_inj f g (m / 10) (n / 10) (ground arith) (ground arith) both.0 in
        let r : m % 10 ≡ n % 10 = digit_inj (m % 10) (n % 10) (omega arith) (omega arith) both.1 in
        omega arith
  ]
]

pub decimal_inj : (m n : ℕ) → decimal m ≡ decimal n → m ≡ n
unfolding decimal
decimal_inj m n e = decimal_from_inj (suc m) (suc n) m n (omega arith) (omega arith) e
