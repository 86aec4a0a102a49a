-- ===== src/Retry.antt =====
-- src/utils/retry.ts: `withRetry`, with the attempts and the sleeps that it makes.
pub mod Stopping
pub mod Delays
mod Tests
use trust_gate.Prelude.{
  ◌≡◌, refl, ◌⊎◌, inl, inr, String, codes, contains_any, ℕ, zero, suc, ◌+◌, ◌-◌, ◌*◌, ◌^◌, Bool,
  not, ◌||◌, Option, none, some, List, [], ◌∷◌, ltb, ◌=?◌, if◌then◌else◌,
}

-- One call of `fn`: its value, or the error that it throws.
pub data Attempt (E A : Type 0) : Type 0 where
  returned : A → Attempt E A
  threw : E → Attempt E A

-- How the whole call ends. `lastError` is undefined until an attempt has failed.
pub data Outcome (E A : Type 0) : Type 0 where
  value : A → Outcome E A
  error : Option E → Outcome E A

pub Outcome-cases :
    {E A : Type 0} (o : Outcome E A) → ((a : A) × (o ≡ value a)) ⊎ ((e : Option E) × (o ≡ error e))
Outcome-cases (value a) = inl (a, refl)
Outcome-cases (error e) = inr (e, refl)

-- What is observed on the way: an attempt, or a sleep in milliseconds behind a failed attempt,
-- with the delay that was computed for it.
pub data Step (E A : Type 0) : Type 0 where
  tried : ℕ → Attempt E A → Step E A
  slept : (attempt : ℕ) → E → (computed_delay_ms sleep_ms : ℕ) → Step E A

-- `RetryOptions`. `jitter attempt raw` is `trunc(raw + (Math.random() * 2 - 1) * raw * jitterPct)`,
-- cut off at 0; it is `raw` where `jitterPct` is 0. `on_retry` is what the callback returns, and
-- `retry_after_ms` is `extractRetryAfterMs`.
pub record RetryOptions (E : Type 0) : Type 0 where
  pub retries : ℕ
  pub base_delay_ms : ℕ
  pub should_retry : E → Bool
  pub jitter : ℕ → ℕ → ℕ
  pub on_retry : ℕ → E → ℕ → Option ℕ
  pub retry_after_ms : E → ℕ

-- the override of `onRetry` counts only if it is longer
unfoldable pub longer : ℕ → Option ℕ → ℕ
longer sleep_ms none = sleep_ms
longer sleep_ms (some override) = if ltb sleep_ms override then override else sleep_ms

module _ {E A : Type 0} (options : RetryOptions E) (fn : ℕ → Attempt E A) where
  unfoldable pub computed_delay_ms : ℕ → ℕ
  computed_delay_ms attempt = options.jitter attempt (options.base_delay_ms * 2 ^ attempt)

  unfoldable pub sleep_ms : ℕ → E → ℕ
  unfolding longer
  sleep_ms attempt err =
      let computed = computed_delay_ms attempt in
      let chosen = longer computed (options.on_retry attempt err computed) in
      let retry_after = options.retry_after_ms err in
      if ltb chosen retry_after then retry_after else chosen

  -- the `for` loop, with the rounds that are left
  unfoldable pub loop : ℕ → ℕ → Option E → Outcome E A × List (Step E A)
  loop zero attempt last_error = (error last_error, [])
  loop (suc rounds) attempt last_error = elim (fn attempt) [
    | returned a ↦ (value a, tried attempt (returned a) ∷ [])
    | threw err ↦
        let rest = loop rounds (attempt + 1) (some err) in
        if attempt =? options.retries || not (options.should_retry err)
        then (error (some err), tried attempt (threw err) ∷ [])
        else (
          rest.0,
          tried attempt (threw err)
              ∷ slept attempt err (computed_delay_ms attempt) (sleep_ms attempt err)
              ∷ rest.1,
        )
  ]

  unfoldable pub with_retry : Outcome E A × List (Step E A)
  with_retry = loop (options.retries + 1) 0 none

-- `isTransientNetworkError`, of the message of an error
unfoldable pub is_transient_network_error : String → Bool
unfolding contains_any
is_transient_network_error message =
    contains_any
      ("account not found" ∷ "timeout" ∷ "timed out" ∷ "econnreset" ∷ "etimedout" ∷ "network" ∷ [])
      (codes message)

-- the options where none are given, for errors with a message
unfoldable pub default_options : {E : Type 0} → (E → String) → RetryOptions E
unfolding is_transient_network_error
default_options message_of = record {
  retries = 3;
  base_delay_ms = 500;
  should_retry = λ e. is_transient_network_error (message_of e);
  jitter = λ attempt raw. raw;
  on_retry = λ attempt e computed. none;
  retry_after_ms = λ e. 0;
}
