-- ===== src/Filler/Retry/Examples.antt =====
-- A request of src/utils/retry.ts that is answered at the third attempt.
use atomicassets_api.Prelude.{ℕ, suc, String, [], ltb, if◌then◌else◌, arith}
use atomicassets_api.Filler.Retry.{
  text, absent, Thrown, thrown, caused, is_transient_network_error, RetryOptions, Try, returned,
  rejected, retry_transient,
}
use atomicassets_api.Filler.Retry.Tries.{Tried, retry_transient-Tried}

abbrev options : RetryOptions ℕ
options = record {
  retries = 5;
  base_delay_ms = 250;
  max_delay_ms = 4000;
  should_retry = is_transient_network_error;
  jitter = λ d s. d;
}

abbrev refused : Thrown
refused = caused absent absent (text "fetch failed") (thrown (text "ECONNREFUSED") absent absent)

abbrev request : ℕ → Try String × ℕ
request n = (if ltb n 2 then rejected refused else returned "head", suc n)

retry_transient-Tried_example : Tried options request 5 0 [] (retry_transient options request 0)
retry_transient-Tried_example = retry_transient-Tried options request (λ d s. omega arith) 0
