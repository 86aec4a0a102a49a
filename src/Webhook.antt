-- ===== src/Webhook.antt =====
-- src/services/webhookService.ts: one webhook call, over `withRetry`, and the calls of the
-- `onAttempt` hook that it makes. `fetch` is the sequence of what the network answers.
pub mod Calls
mod Tests
use trust_gate.Prelude.{
  ℕ, suc, ◌+◌, ◌*◌, ◌≤◌, String, Text, Bool, true, false, not, ◌&&◌, ◌||◌, Option, none, some, List,
  [], ◌∷◌, ◌++◌, ltb, leb, ◌=?◌, if◌then◌else◌, contains_any, max,
}
use trust_gate.Money.{trim}
use trust_gate.Retry.{
  Attempt, returned, threw, Outcome, Step, tried, slept, RetryOptions, with_retry,
}

pub record WebhookServiceOptions : Type 0 where
  pub max_retries : ℕ
  pub base_backoff_ms : ℕ

-- A `WebhookHttpError`, an `AbortError`, or any other error with its `type` and its message.
pub data WebhookError : Type 0 where
  http : (status : ℕ) → (body_text : String) → (retry_after_seconds : Option ℕ) → WebhookError
  abort : WebhookError
  other : (type : Option Text) → (message : Text) → WebhookError

-- '2xx', '3xx', '4xx', '5xx', 'network', 'timeout'
pub data StatusClass : Type 0 where
  success redirect client_error server_error network timeout : StatusClass

-- '5xx', '429', '408', 'network', 'timeout'
pub data RetryReason : Type 0 where
  server_error too_many_requests request_timeout network timeout : RetryReason

-- `number text` is the value of `Number(text)` if that is a non-negative integer, `none` if not.
unfoldable pub parse_retry_after_seconds : (number : Text → Option ℕ) → Option Text → Option ℕ
parse_retry_after_seconds number none = none
parse_retry_after_seconds number (some raw) = elim (trim raw) [ [] ↦ none | c ∷ s ↦ number (c ∷ s) ]

unfoldable pub classify_status : ℕ → StatusClass
classify_status status =
    if leb 500 status
    then StatusClass.server_error
    else if leb 400 status
    then StatusClass.client_error
    else if leb 300 status
    then StatusClass.redirect
    else StatusClass.success

abbrev type_pattern : List String
type_pattern = "network" ∷ "timeout" ∷ "fetch" ∷ []

abbrev message_pattern : List String
message_pattern =
    "fetch failed" ∷ "econnreset" ∷ "etimedout" ∷ "dns" ∷ "enotfound" ∷ "tls" ∷ "socket" ∷ "aborted"
    ∷ "timeout" ∷ "timed out" ∷ []

abbrev type_matches : Option Text → Bool
type_matches none = false
type_matches (some type) = contains_any type_pattern type

unfoldable pub is_webhook_retryable_error : WebhookError → Bool
is_webhook_retryable_error (http status _ _) =
    if status =? 408 || status =? 429 then true else leb 500 status && ltb status 600
is_webhook_retryable_error abort = true
is_webhook_retryable_error (other type message) =
    if type_matches type then true else contains_any message_pattern message

http_reason : ℕ → Option RetryReason
http_reason status =
    if status =? 429
    then some RetryReason.too_many_requests
    else if status =? 408
    then some RetryReason.request_timeout
    else if leb 500 status
    then some RetryReason.server_error
    else none

unfoldable pub classify_webhook_error : WebhookError → StatusClass × Option RetryReason
unfolding http_reason classify_status
classify_webhook_error (http status _ _) = (classify_status status, http_reason status)
classify_webhook_error abort = (StatusClass.timeout, some RetryReason.timeout)
classify_webhook_error (other _ _) = (StatusClass.network, some RetryReason.network)

-- `extractRetryAfterMs` of src/utils/retry.ts
unfoldable pub extract_retry_after_ms : WebhookError → ℕ
extract_retry_after_ms (http _ _ (some s)) = if ltb 0 s then s * 1000 else 0
extract_retry_after_ms (http _ _ none) = 0
extract_retry_after_ms abort = 0
extract_retry_after_ms (other _ _) = 0

pub record PostJsonResult : Type 0 where
  pub status : ℕ
  pub body_text : String
  pub attempts : ℕ

-- What one `fetch` does: a response with its body and its `Retry-After` header, an error before a
-- response, or an error while the body of a response is read.
pub data Fetched : Type 0 where
  responded : (status : ℕ) → (body_text : String) → (retry_after : Option Text) → Fetched
  failed body_failed : WebhookError → Fetched

-- The argument of `onAttempt`.
pub record HookInfo : Type 0 where
  pub attempt_index : ℕ
  pub total_attempts : ℕ
  pub status_class : StatusClass
  pub http_status : Option ℕ
  pub will_retry : Bool
  pub sleep_ms : Option ℕ

abbrev pub is_ok : ℕ → Bool
is_ok status = leb 200 status && ltb status 300

http_status_of : WebhookError → Option ℕ
http_status_of (http status _ _) = some status
http_status_of abort = none
http_status_of (other _ _) = none

is_abort : WebhookError → Bool
is_abort abort = true
is_abort (http _ _ _) = false
is_abort (other _ _) = false

module _ (options : WebhookServiceOptions) (number : Text → Option ℕ) (jitter : ℕ → ℕ → ℕ)
    (fetch : ℕ → Fetched) where
  -- the error of a response outside 200 to 299
  response_error : ℕ → String → Option Text → WebhookError
  response_error status body header = http status body (parse_retry_after_seconds number header)

  -- what `withRetry` is given to repeat
  pub attempt_once : ℕ → Attempt WebhookError PostJsonResult
  unfolding response_error
  attempt_once index = elim (fetch index) [
    | responded status body header ↦
        if is_ok status
        then returned (record { status = status; body_text = body; attempts = index + 1 })
        else threw (response_error status body header)
    | failed e ↦ threw e
    | body_failed e ↦ threw e
  ]

  pub retry_options : RetryOptions WebhookError
  retry_options = record {
    retries = options.max_retries;
    base_delay_ms = max 50 options.base_backoff_ms;
    should_retry = is_webhook_retryable_error;
    jitter = jitter;
    on_retry = λ _ _ _. none;
    retry_after_ms = extract_retry_after_ms;
  }

  abbrev will_retry_after : WebhookError → ℕ → Bool
  will_retry_after e index = is_webhook_retryable_error e && leb (index + 1) options.max_retries

  -- the hook calls inside one attempt
  attempt_hooks : ℕ → List HookInfo
  unfolding response_error classify_status is_abort
  attempt_hooks index = elim (fetch index) [
    | responded status body header ↦
        record {
          attempt_index = index;
          total_attempts = options.max_retries + 1;
          status_class = classify_status status;
          http_status = some status;
          will_retry =
              if is_ok status
              then false
              else will_retry_after (response_error status body header) index;
          sleep_ms = none;
        }
        ∷ []
    | failed e ↦
        record {
          attempt_index = index;
          total_attempts = options.max_retries + 1;
          status_class = if is_abort e then StatusClass.timeout else StatusClass.network;
          http_status = none;
          will_retry = will_retry_after e index;
          sleep_ms = none;
        }
        ∷ []
    | body_failed e ↦ []
  ]

  -- the hook call of `onRetry`, before each sleep
  retry_hook : ℕ → WebhookError → ℕ → HookInfo
  unfolding classify_webhook_error http_status_of
  retry_hook attempt e computed = record {
    attempt_index = attempt + 1;
    total_attempts = options.max_retries + 1;
    status_class = (classify_webhook_error e).0;
    http_status = http_status_of e;
    will_retry = true;
    sleep_ms = some computed;
  }

  pub hooks : List (Step WebhookError PostJsonResult) → List HookInfo
  unfolding attempt_hooks retry_hook
  hooks [] = []
  hooks (tried index _ ∷ steps) = attempt_hooks index ++ hooks steps
  hooks (slept attempt e computed _ ∷ steps) = retry_hook attempt e computed ∷ hooks steps

  -- How the call ends, and the hook calls in order.
  pub post_json : Outcome WebhookError PostJsonResult × List HookInfo
  post_json = let run = with_retry retry_options attempt_once in (run.0, hooks run.1)
