-- ===== src/Webhook/Calls.antt =====
-- What a webhook call tries, and how often it reports it.
use trust_gate.Prelude.{
  append-nil, ℕ, ◌+◌, ◌*◌, ◌≤◌, ◌<◌, ◌≡◌, ◌≢◌, ◌↔◌, refl, String, Text, true, false, Option, none,
  some, List, [], ◌∷◌, length, length-append, arith,
}
use trust_gate.Retry.{threw, error, Step, tried, slept, with_retry}
use trust_gate.Retry.Stopping.{count_tried, count_slept, with_retry-Stops, with_retry-final}
use trust_gate.Webhook.{
  WebhookServiceOptions, WebhookError, http, is_webhook_retryable_error, classify_webhook_error,
  PostJsonResult, Fetched, responded, failed, body_failed, is_ok, parse_retry_after_seconds,
  attempt_once, retry_options, attempt_hooks, hooks, post_json,
}

-- For an HTTP status below 600 the retry predicate and the classification agree: the error is
-- retried exactly when it has a retry reason.
retryable_iff_reason :
    (status : ℕ) (body : String) (retry_after : Option ℕ)
    → status < 600
    → (is_webhook_retryable_error (http status body retry_after) ≡ true)
      ↔ ((classify_webhook_error (http status body retry_after)).1 ≢ none)
unfolding is_webhook_retryable_error classify_webhook_error
retryable_iff_reason status body retry_after h = ground arith

module _ (options : WebhookServiceOptions) (number : Text → Option ℕ) (jitter : ℕ → ℕ → ℕ)
    (fetch : ℕ → Fetched) where
  attempt_once_rejected :
      (status : ℕ) (body : String) (header : Option Text)
      → fetch 0 ≡ responded status body header
      → 300 ≤ status
      → attempt_once options number jitter fetch 0
        ≡ threw (http status body (parse_retry_after_seconds number header))
  unfolding attempt_once
  attempt_once_rejected status body header answered high =
      let rejected : is_ok status ≡ false = ground arith in rw (answered, attempt_once, rejected)

  client_error_final :
      (status : ℕ) (body : String) (retry_after : Option ℕ)
      → status < 500
      → status ≢ 408
      → status ≢ 429
      → (retry_options options number jitter fetch).should_retry (http status body retry_after)
        ≡ false
  unfolding retry_options is_webhook_retryable_error
  client_error_final status body retry_after high a b = ground arith

  length-attempt_hooks :
      (index : ℕ)
      → ((e : WebhookError) → fetch index ≢ body_failed e)
      → length (attempt_hooks options number jitter fetch index) ≡ 1
  unfolding attempt_hooks
  length-attempt_hooks index h = go (fetch index) refl
    where
      go :
          (f : Fetched)
          → fetch index ≡ f
          → length (attempt_hooks options number jitter fetch index) ≡ 1
      go (responded s b r) e = rw (e, attempt_hooks)
      go (failed x) e = rw (e, attempt_hooks)
      go (body_failed x) e = absurd (h x e)

  -- A 4xx answer other than 408 and 429 to the first attempt ends the call with that error, and the
  -- hook is called once.
  post_json_client_error :
      (status : ℕ) (body : String) (header : Option Text)
      → fetch 0 ≡ responded status body header
      → 400 ≤ status
      → status < 500
      → status ≢ 408
      → status ≢ 429
      → let call = post_json options number jitter fetch in
        (call.0 ≡ error (some (http status body (parse_retry_after_seconds number header))))
        × (length call.1 ≡ 1)
  unfolding post_json hooks
  post_json_client_error status body header answered low high a b =
      rw
        (
          with_retry-final (retry_options options number jitter fetch)
              (attempt_once options number jitter fetch)
              (http status body (parse_retry_after_seconds number header))
              (attempt_once_rejected status body header answered (omega arith))
              (client_error_final status body (parse_retry_after_seconds number header) high a b),
          append-nil,
        )
        (refl, length-attempt_hooks 0 (λ e h. cc (answered, h)))

  length-hooks :
      (steps : List (Step WebhookError PostJsonResult))
      → ((index : ℕ) (e : WebhookError) → fetch index ≢ body_failed e)
      → length (hooks options number jitter fetch steps) ≡ count_tried steps + count_slept steps
  unfolding hooks
  length-hooks [] h = omega arith
  length-hooks (tried index r ∷ steps) h = omega (
    arith,
    length-append {0} (attempt_hooks options number jitter fetch index)
        (hooks options number jitter fetch steps),
    length-attempt_hooks index (h index),
    length-hooks steps h,
  )
  length-hooks (slept attempt e computed ms ∷ steps) h = omega (arith, length-hooks steps h)

  -- Where no body fails to be read, a call of n attempts calls the hook 2 n - 1 times: each attempt
  -- that is retried is reported twice.
  pub length-post_json :
      ((index : ℕ) (e : WebhookError) → fetch index ≢ body_failed e)
      → let run =
          with_retry
            (retry_options options number jitter fetch)
            (attempt_once options number jitter fetch) in
        length (post_json options number jitter fetch).1 + 1 ≡ 2 * count_tried run.1
  unfolding post_json
  length-post_json h =
      let stops =
        with_retry-Stops (retry_options options number jitter fetch)
          (attempt_once options number jitter fetch) in
      let run =
        with_retry (retry_options options number jitter fetch)
          (attempt_once options number jitter fetch) in
      omega (arith, length-hooks run.1 h, stops.attempts, stops.sleeps)
