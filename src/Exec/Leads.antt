-- ===== src/Exec/Leads.antt =====
-- What an action makes of the state and how it may fail: from a state with `P`, whether it returns or
-- throws, it leads to one with `Q`, and it throws only what `E` allows.
use atomicassets_api.Prelude.{◌≡◌, refl, Bool, true, false, List, [], ◌∷◌, if◌then◌else◌}
use atomicassets_api.Exec.{Exec, Outcome, ok, err, Failure, pure, continue, for_each, ◌>>=◌, ◌>>◌}

abbrev pub Fails : {A : Type 0} → (Failure → Type 0) → Outcome A → Type 0
Fails E (ok a) = Unit {0}
Fails E (err e) = E e

abbrev pub Result : {S A : Type 0} → (Failure → Type 0) → (S → Type 0) → Outcome A × S → Type 0
Result E Q r = Q r.1 × Fails E r.0

module _ {S A : Type 0} where
  pub record Leads (E : Failure → Type 0) (P Q : S → Type 0) (m : Exec S A) : Type 0 where
    pub at : (s : S) → P s → Result E Q (m s)

module _ {S A : Type 0} {E : Failure → Type 0} {P Q : S → Type 0} where
  pub Leads-pure : (a : A) → ((s : S) → P s → Q s) → Leads E P Q (pure a)
  Leads-pure a w = record { at = λ s p. (w s p, tt) }

  pub Leads-if :
      (b : Bool) (m n : Exec S A) → Leads E P Q m → Leads E P Q n → Leads E P Q (if b then m else n)
  Leads-if true m n h k = h
  Leads-if false m n h k = k

  pub Leads-weaken :
      (m : Exec S A) (R : S → Type 0) → Leads E P R m → ((s : S) → R s → Q s) → Leads E P Q m
  Leads-weaken m R h w = record { at = λ s p. (w (m s).1 ((h.at s p).0), (h.at s p).1) }

module _ {S A : Type 0} (E : Failure → Type 0) (Q : S → Type 0) where
  -- A test of the state decides what is done.
  pub Result-if :
      (b : Bool) (x y : Outcome A × S)
      → Result E Q x
      → Result E Q y
      → Result E Q (if b then x else y)
  Result-if true x y h k = h
  Result-if false x y h k = k

  pub Result-split :
      (b : Bool) (x y : Outcome A × S)
      → (b ≡ true → Result E Q x)
      → (b ≡ false → Result E Q y)
      → Result E Q (if b then x else y)
  Result-split true x y h k = h refl
  Result-split false x y h k = k refl

module _ {S A B : Type 0} {E : Failure → Type 0} {Q R : S → Type 0} where
  Result-continue :
      (o : Outcome A) (f : A → Exec S B) (s : S)
      → ((a : A) → Leads E Q R (f a))
      → ((s : S) → Q s → R s)
      → Q s
      → Fails E o
      → Result E R (continue o f s)
  Result-continue (ok a) f s h w q x = (h a).at s q
  Result-continue (err e) f s h w q x = (w s q, x)

  pub Leads-continue :
      (o : Outcome A) (f : A → Exec S B)
      → Fails E o
      → ((a : A) → Leads E Q R (f a))
      → ((s : S) → Q s → R s)
      → Leads E Q R (continue o f)
  Leads-continue o f x h w = record { at = λ s q. Result-continue o f s h w q x }

  module _ {P : S → Type 0} where
    pub Leads-bind :
        (m : Exec S A) (f : A → Exec S B)
        → Leads E P Q m
        → ((a : A) → Leads E Q R (f a))
        → ((s : S) → Q s → R s)
        → Leads E P R (m >>= f)
    Leads-bind m f h k w = record {
      at = λ s p. Result-continue (m s).0 f (m s).1 k w ((h.at s p).0) ((h.at s p).1);
    }

    pub Leads-then :
        (m : Exec S A) (n : Exec S B)
        → Leads E P Q m
        → Leads E Q R n
        → ((s : S) → Q s → R s)
        → Leads E P R (m >> n)
    Leads-then m n h k w = Leads-bind m (λ _. n) h (λ _. k) w

module _ {S X : Type 0} {E : Failure → Type 0} {P : S → Type 0} where
  pub Leads-for_each :
      (body : X → Exec S (Unit {0}))
      → ((x : X) → Leads E P P (body x))
      → (xs : List X) → Leads E P P (for_each body xs)
  unfolding for_each
  Leads-for_each body h [] = record { at = λ s p. (p, tt) }
  Leads-for_each body h (x ∷ xs) = record {
    at =
        (Leads-bind {P = P} (body x) (λ _. for_each body xs) (h x) (λ _. Leads-for_each body h xs)
          (λ s p. p)).at;
  }
