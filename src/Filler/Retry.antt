-- ===== src/Filler/Retry.antt =====
-- `retryTransient` and `isTransientNetworkError` of src/utils/retry.ts. `jitter` stands for the rounded
-- product with a random factor, which takes the delay and the world.
use Prim.Native.Char.{code}
use atomicassets_api.Prelude.{
  ℕ, zero, suc, ◌+◌, ◌*◌, ◌^◌, ◌≤◌, ◌<◌, min, Bool, true, false, ◌&&◌, ◌||◌, ◌≡◌, refl, sym, ap,
  ◌∙◌, ◌⊎◌, inl, inr, String, str_eq, List, [], ◌∷◌, ◌++◌, any, length, ◌==◌, Bool-cases,
  if◌then◌else◌, arith,
}
use atomicassets_api.Prelude.Predicates.{All, All-append}
use atomicassets_api.Prelude.Texts.{has_part}
pub mod Tries
mod Examples

-- A field of a thrown value: a text, another value, or none (undefined or null).
pub data Field : Type 0 where
  absent other : Field
  text : String → Field

-- A thrown value, and its `cause`, where it has one.
pub data Thrown : Type 0 where
  thrown : Field → Field → Field → Thrown
  caused : Field → Field → Field → Thrown → Thrown

-- `TRANSIENT_CODES`
abbrev transient_codes : List String
transient_codes =
    "ECONNREFUSED" ∷ "ECONNRESET" ∷ "ETIMEDOUT" ∷ "EAI_AGAIN" ∷ "ENOTFOUND" ∷ "EPIPE"
    ∷ "EHOSTUNREACH" ∷ "ENETUNREACH" ∷ "UND_ERR_CONNECT_TIMEOUT" ∷ "UND_ERR_SOCKET" ∷ []

-- `err.code ?? err.errno`
abbrev code_or_errno : Field → Field → Field
code_or_errno absent errno = errno
code_or_errno code errno = code

abbrev has_code : Field → Bool
has_code (text s) = any (λ c. str_eq c s) transient_codes
has_code _ = false

abbrev fetch_failed : Field → Bool
unfolding has_part
fetch_failed (text s) = has_part "fetch failed" s
fetch_failed _ = false

abbrev is_transient_link : Field → Field → Field → Bool
unfolding fetch_failed
is_transient_link code errno message = has_code (code_or_errno code errno) || fetch_failed message

-- The walk along the causes, with the depths that are left.
abbrev walk : ℕ → Thrown → Bool
unfolding is_transient_link
walk zero e = false
walk (suc n) (thrown code errno message) = is_transient_link code errno message
walk (suc n) (caused code errno message cause) =
    is_transient_link code errno message || walk n cause

unfoldable pub is_transient_network_error : Thrown → Bool
unfolding walk
is_transient_network_error e = walk 5 e

-- `RetryOptions`, less the label, with the defaults of the others filled in.
pub record RetryOptions (S : Type 0) : Type 0 where
  pub retries : ℕ
  pub base_delay_ms : ℕ
  pub max_delay_ms : ℕ
  pub should_retry : Thrown → Bool
  pub jitter : ℕ → S → ℕ

-- What an attempt gives.
pub data Try (A : Type 0) : Type 0 where
  returned : A → Try A
  rejected : Thrown → Try A

module _ {S A : Type 0} (options : RetryOptions S) (fn : S → Try A × S) where
  -- The capped exponential delay before an attempt.
  unfoldable pub exp_delay : ℕ → ℕ
  exp_delay attempt = min options.max_delay_ms (options.base_delay_ms * 2 ^ attempt)

  abbrev pub or_retry :
      (Thrown → S → (Try A × S) × List ℕ) → List ℕ → Try A × S → (Try A × S) × List ℕ
  or_retry retry slept (returned a, s) = ((returned a, s), slept)
  or_retry retry slept (rejected e, s) = retry e s

  abbrev pub unless : Bool → (Try A × S) × List ℕ → (Try A × S) × List ℕ → (Try A × S) × List ℕ
  unless true x y = x
  unless false x y = y

  -- The loop, with the retries that are left and those that were made, which gives also the delays
  -- that were slept.
  unfoldable pub retry_from : ℕ → ℕ → List ℕ → S → (Try A × S) × List ℕ
  unfolding exp_delay
  retry_from zero attempt slept s = (fn s, slept)
  retry_from (suc n) attempt slept s =
      or_retry
        (λ e t.
          unless (options.should_retry e)
            (retry_from n (attempt + 1) (slept ++ options.jitter (exp_delay attempt) t ∷ []) t)
            ((rejected e, t), slept))
        slept (fn s)

  unfoldable pub retry_transient : S → (Try A × S) × List ℕ
  unfolding retry_from
  retry_transient = retry_from options.retries 0 []
