-- ===== src/Webhook/Tests.antt =====
-- Deliveries that are answered at once.
use trust_gate.Prelude.{◌≡◌, ℕ, ◌+◌, ◌*◌, none, length}
use trust_gate.Retry.{with_retry}
use trust_gate.Retry.Stopping.{count_tried}
use trust_gate.Webhook.{Fetched, responded, retry_options, attempt_once, post_json}
use trust_gate.Webhook.Calls.{length-post_json}
use trust_gate.Samples.{sample_worker, sample_fetch, webhook_options}

abbrev gone : ℕ → Fetched
gone _ = responded 410 "gone" none

length-post_json_example :
    let run =
      with_retry
        (retry_options webhook_options sample_worker.number sample_worker.jitter sample_fetch)
        (attempt_once webhook_options sample_worker.number sample_worker.jitter sample_fetch) in
    length (post_json webhook_options sample_worker.number sample_worker.jitter sample_fetch).1 + 1
    ≡ 2 * count_tried run.1
length-post_json_example =
    length-post_json webhook_options sample_worker.number sample_worker.jitter sample_fetch
      (λ i e h. cc)
