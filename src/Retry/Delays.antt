-- ===== src/Retry/Delays.antt =====
-- How long `withRetry` sleeps behind a failed attempt.
use trust_gate.Prelude.{ℕ, ◌*◌, ◌^◌, ◌≡◌, Option, none, some, max, arith}
use trust_gate.Retry.{Attempt, RetryOptions, longer, computed_delay_ms, sleep_ms}

-- the milliseconds of an override, 0 if the callback returned none
abbrev pub override_ms : Option ℕ → ℕ
override_ms none = 0
override_ms (some n) = n

longer-max : (n : ℕ) (o : Option ℕ) → longer n o ≡ max n (override_ms o)
unfolding longer
longer-max n none = omega arith
longer-max n (some m) = ground arith

-- The sleep is the longest of the computed delay, the override of the callback and the delay that
-- the error asks for.
sleep_ms-max :
    {E A : Type 0} (options : RetryOptions E) (fn : ℕ → Attempt E A) (attempt : ℕ) (e : E)
    → let computed = options.jitter attempt (options.base_delay_ms * 2 ^ attempt) in
      sleep_ms options fn attempt e
      ≡ max
          (max computed (override_ms (options.on_retry attempt e computed)))
          (options.retry_after_ms e)
unfolding sleep_ms computed_delay_ms
sleep_ms-max options fn attempt e =
    let computed : ℕ = options.jitter attempt (options.base_delay_ms * 2 ^ attempt) in
    ground (arith, longer-max computed (options.on_retry attempt e computed))
