-- ===== src/Filler/Retry/Tries.antt =====
-- How often `retryTransient` of src/utils/retry.ts tries, and how long it sleeps.
use mathlib.Core.Path.{subst}
use atomicassets_api.Prelude.{
  ℕ, zero, suc, ◌+◌, ◌≤◌, ◌<◌, Bool, true, false, ◌≡◌, refl, sym, ap, ◌∙◌, ◌⊎◌, inl, inr, List, [],
  ◌∷◌, ◌++◌, length, length-append, arith,
}
use atomicassets_api.Prelude.Predicates.{All, All-append}
use atomicassets_api.Filler.Retry.{
  Thrown, RetryOptions, Try, returned, rejected, exp_delay, or_retry, unless, retry_from,
  retry_transient,
}

module _ {S A : Type 0} (options : RetryOptions S) (fn : S → Try A × S) where
  -- The state after a number of attempts, and what the next one gives.
  abbrev pub state_after : ℕ → S → S
  state_after zero s = s
  state_after (suc n) s = state_after n (fn s).1

  abbrev pub try_at : ℕ → S → Try A
  try_at n s = (fn (state_after n s)).0

  -- A rejection that is tried again
  abbrev pub IsRetried : Try A → Type 0
  IsRetried (returned a) = ⊥
  IsRetried (rejected e) = options.should_retry e ≡ true

  -- The attempt whose result is given, after others that were rejected and tried again; it is not such,
  -- or the last. Between two attempts is one delay, of at most the maximum.
  pub record Tried (retries : ℕ) (s : S) (slept : List ℕ) (r : (Try A × S) × List ℕ) : Type 0 where
    pub count : ℕ
    pub bounded : count ≤ retries
    pub result : r.0.0 ≡ try_at count s
    pub state : r.0.1 ≡ state_after (suc count) s
    pub earlier : (i : ℕ) → i < count → IsRetried (try_at i s)
    pub ended : (count ≡ retries) ⊎ (IsRetried (try_at count s) → ⊥)
    pub delays : length r.1 ≡ length slept + count
    pub capped : All (λ d. d ≤ options.max_delay_ms) slept → All (λ d. d ≤ options.max_delay_ms) r.1

  first :
      (n : ℕ) (s : S) (slept : List ℕ) (r : Try A × S)
      → fn s ≡ r
      → (0 ≡ n) ⊎ (IsRetried r.0 → ⊥)
      → Tried n s slept (r, slept)
  first n s slept r e h = record {
    count = 0;
    bounded = omega arith;
    result = ap (λ x. x.0) (sym e);
    state = ap (λ x. x.1) (sym e);
    earlier = λ i l. absurd (omega (arith, l));
    ended = subst (λ (x : Try A × S). (0 ≡ n) ⊎ (IsRetried x.0 → ⊥)) (sym e) h;
    delays = omega arith;
    capped = λ c. c;
  }

  later_retried :
      (s : S) (k : ℕ)
      → IsRetried (fn s).0
      → ((i : ℕ) → i < k → IsRetried (try_at i (fn s).1))
      → (i : ℕ) → i < suc k
      → IsRetried (try_at i s)
  later_retried s k h g zero l = h
  later_retried s k h g (suc i) l = g i (omega (arith, l))

  later :
      (n : ℕ) (s : S) (slept : List ℕ) (d : ℕ) (r : (Try A × S) × List ℕ)
      → IsRetried (fn s).0
      → d ≤ options.max_delay_ms
      → Tried n (fn s).1 (slept ++ d ∷ []) r
      → Tried (suc n) s slept r
  later n s slept d r h b t = record {
    count = suc t.count;
    bounded = omega (arith, t.bounded);
    result = t.result;
    state = t.state;
    earlier = later_retried s t.count h t.earlier;
    ended = elim t.ended [ inl e ↦ inl (ap (λ k. suc k) e) | inr g ↦ inr g ];
    delays = omega (arith, t.delays, length-append slept (d ∷ []));
    capped = λ c. t.capped (All-append (λ k. k ≤ options.max_delay_ms) slept (d ∷ []) c (b, tt));
  }

  module _ (jitters : (d : ℕ) (s : S) → options.jitter d s ≤ d) where
    delay_capped :
        (n : ℕ) (s : S) → options.jitter (exp_delay options fn n) s ≤ options.max_delay_ms
    unfolding exp_delay
    delay_capped n s = omega (arith, jitters (exp_delay options fn n) s)

    go_on :
        (n attempt : ℕ) (s : S) (slept : List ℕ) (e : Thrown) (t : S) (b : Bool)
        → fn s ≡ (rejected e, t)
        → options.should_retry e ≡ b
        → ((slept : List ℕ) → Tried n t slept (retry_from options fn n (attempt + 1) slept t))
        → Tried (suc n) s slept (
            unless options fn b
              (retry_from options fn n
                (attempt + 1)
                (slept ++ options.jitter (exp_delay options fn attempt) t ∷ [])
                t)
              ((rejected e, t), slept))
    go_on n attempt s slept e t false f h k =
        first (suc n) s slept (rejected e, t) f (inr (λ l. let x = sym l ∙ h in absurd (cc)))
    go_on n attempt s slept e t true f h k =
        later n s slept (options.jitter (exp_delay options fn attempt) t) _
          (subst (λ (x : Try A × S). IsRetried x.0) (sym f) h) (delay_capped attempt t)
          (subst
            (λ (x : Try A × S).
              Tried n x.1 (slept ++ options.jitter (exp_delay options fn attempt) t ∷ []) (
                retry_from options fn n (attempt + 1)
                  (slept ++ options.jitter (exp_delay options fn attempt) t ∷ []) t))
            (sym f) (k (slept ++ options.jitter (exp_delay options fn attempt) t ∷ [])))

    after_try :
        (n attempt : ℕ) (s : S) (slept : List ℕ) (r : Try A × S)
        → fn s ≡ r
        → ((slept : List ℕ) (t : S)
            → Tried n t slept (retry_from options fn n (attempt + 1) slept t))
        → Tried (suc n) s slept (
            or_retry options fn
              (λ e t.
                unless options fn
                  (options.should_retry e)
                  (retry_from options fn n
                    (attempt + 1)
                    (slept ++ options.jitter (exp_delay options fn attempt) t ∷ [])
                    t)
                  ((rejected e, t), slept))
              slept
              r)
    after_try n attempt s slept (returned a, t) f k =
        first (suc n) s slept (returned a, t) f (inr (λ l. l))
    after_try n attempt s slept (rejected e, t) f k =
        go_on n attempt s slept e t (options.should_retry e) f refl (λ l. k l t)

    retry_from-Tried :
        (n attempt : ℕ) (slept : List ℕ) (s : S)
        → Tried n s slept (retry_from options fn n attempt slept s)
    unfolding retry_from
    retry_from-Tried zero attempt slept s = first 0 s slept (fn s) refl (inl refl)
    retry_from-Tried (suc n) attempt slept s =
        after_try n attempt s slept (fn s) refl (λ l t. retry_from-Tried n (attempt + 1) l t)

    -- `retryTransient` ends after at most `retries` further attempts. What it returns or throws is the
    -- result of its last attempt; every attempt before that was rejected with an error that is
    -- tried again, and the last one was not, or no retry is left. It sleeps once between two
    -- attempts, at most the maximal delay, where the random factor does not exceed 1.
    pub retry_transient-Tried : (s : S) → Tried options.retries s [] (retry_transient options fn s)
    unfolding retry_transient
    retry_transient-Tried s = retry_from-Tried options.retries 0 [] s
