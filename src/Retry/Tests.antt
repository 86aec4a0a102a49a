-- ===== src/Retry/Tests.antt =====
-- A call that fails twice.
use trust_gate.Prelude.{ℕ, zero, suc, true, String, some}
use trust_gate.Retry.{Attempt, returned, threw, RetryOptions, with_retry}
use trust_gate.Retry.Stopping.{Stops, with_retry-Stops}

abbrev options : RetryOptions String
options = record {
  retries = 3;
  base_delay_ms = 100;
  should_retry = λ _. true;
  jitter = λ _ raw. raw;
  on_retry = λ _ _ _. some 250;
  retry_after_ms = λ _. 0;
}

abbrev third_time : ℕ → Attempt String ℕ
third_time zero = threw "down"
third_time (suc zero) = threw "down"
third_time (suc (suc n)) = returned 7

with_retry-Stops_example : Stops options third_time 0 (with_retry options third_time)
with_retry-Stops_example = with_retry-Stops options third_time
