-- ===== src/Worker.antt =====
-- src/services/workerService.ts: the worker that publishes the outbox and handles its events. One
-- tick is taken as one instant.
pub mod Backoff
pub mod Releases
pub mod Tables
pub mod Loop
mod Tests
use trust_gate.Prelude.{
  ℕ, ◌+◌, ◌-◌, ◌*◌, ◌^◌, min, String, Bool, true, false, not, ◌&&◌, ◌||◌, Option, none, some, List,
  [], ◌∷◌, ◌++◌, Text, concat, length, ◌==◌, if◌then◌else◌,
}
use trust_gate.Models.{
  Task, TaskStatus, status_text, is_completed, is_completing, Payload, to_task_dto,
}
use trust_gate.Retry.{Outcome, value, error}
use trust_gate.Webhook.{WebhookError, Fetched, WebhookServiceOptions, PostJsonResult, post_json}
use trust_gate.Outbox.{OutboxEvent, find_by_id}
use trust_gate.Publisher.{Message, Queues, publish_once}
use trust_gate.Consumption.{
  EventConsumptionRecord, StartArgs, Started, try_start, mark_succeeded, mark_failed,
  list_due_retries,
}
use trust_gate.Server.{
  World, Env, Result, ok, err, EscrowCall, find_task, save_task, selected_bid, emit, log_call,
}

-- The options of the worker, the webhook service that it is given, and what it does not implement:
-- `add_error` is the message of what `xAdd` throws for an event, if it throws, `fetch n` is what
-- the calls of `fetch` do in the delivery `n`, and `error_text` is the message of an error.
pub record WorkerEnv : Type 0 where
  pub server : Env
  pub max_attempts : ℕ
  pub webhook : Option WebhookServiceOptions
  pub number : Text → Option ℕ
  pub jitter : ℕ → ℕ → ℕ
  pub add_error : OutboxEvent → Option String
  pub fetch : ℕ → ℕ → Fetched
  pub error_text : Option WebhookError → String

-- The state of the server, the messages added to the stream, the acknowledged entries, and the
-- number of webhook deliveries.
pub record WorkerState : Type 0 where
  pub world : World
  pub stream : List Message
  pub acked : List String
  pub deliveries : ℕ

-- An entry that Redis hands to the worker. Its `payload` is `none` where the text is not JSON.
pub record StreamEntry : Type 0 where
  pub id : String
  pub event_id : String
  pub type : String
  pub payload : Option Payload

-- What a handler throws, if it throws, and the state behind it.
abbrev pub Handled : Type 0
Handled = Option String × WorkerState

-- the instant that `computeBackoff` chooses
unfoldable pub compute_backoff : (attempt now : ℕ) → ℕ
compute_backoff attempt now = now + min 300000 (2000 * 2 ^ (attempt - 1))

-- `p.taskId ?? ''` and `p.escrowId ?? ''`
unfoldable pub completion_fields : Payload → String × String
completion_fields (Payload.completion_requested task_id escrow_id) = (task_id, escrow_id)
completion_fields (Payload.bid_placed bid) = (bid.task_id, bid.escrow_id)
completion_fields (Payload.task_expired task_id) = (task_id, "")
completion_fields (Payload.result_published task_id _ _ _) = (task_id, "")
completion_fields (Payload.task_created _) = ("", "")
completion_fields (Payload.task_assigned _ _) = ("", "")
completion_fields (Payload.task_completed _ _ _) = ("", "")
completion_fields (Payload.other _) = ("", "")

-- `p.taskId ?? ''`, `p.executorPublicKey ?? ''` and `p.payloadHash ?? ''`
unfoldable pub result_fields : Payload → String × String × String
result_fields (Payload.result_published task_id executor payload_hash _) =
    (task_id, executor, payload_hash)
result_fields (Payload.bid_placed bid) = (bid.task_id, bid.executor_public_key, "")
result_fields (Payload.completion_requested task_id _) = (task_id, "", "")
result_fields (Payload.task_expired task_id) = (task_id, "", "")
result_fields (Payload.task_created _) = ("", "", "")
result_fields (Payload.task_assigned _ _) = ("", "", "")
result_fields (Payload.task_completed _ _ _) = ("", "", "")
result_fields (Payload.other _) = ("", "", "")

abbrev pub on_world : (World → World) → WorkerState → WorkerState
on_world f s = record s { world = f s.world }

-- what `p.taskId` throws where the payload is null
abbrev pub null_error : String
null_error = "Cannot read properties of null (reading 'taskId')"

module _ (env : WorkerEnv) where
  -- the task is saved as COMPLETED and announced
  pub complete_task : String → Task → Payload → World → World
  complete_task event_id updated_task payload w =
      emit env.server "task_completed" "task" updated_task.id payload (save_task updated_task w)

  -- the milestone of a completing task is released
  pub release_task : String → Task → World → Option String × World
  unfolding complete_task
  release_task event_id task w = elim (selected_bid task.id w) [
    | none ↦ (some "no selected bid found for this task", w)
    | some winning_bid ↦
        let called = log_call (EscrowCall.release_milestone winning_bid.escrow_id) w in
        let updated_task : Task = record task { status = TaskStatus.completed } in
        elim (env.server.release_answer w.escrow_calls winning_bid.escrow_id) [
          | ok release ↦ (
            none,
            complete_task event_id updated_task
                (Payload.task_completed (to_task_dto updated_task) release event_id) called,
          )
          | err message ↦ (some message, called)
        ]
  ]

  pub handle_task_completion_requested : String → Option Payload → World → Option String × World
  unfolding release_task completion_fields concat
  handle_task_completion_requested event_id none w = (some null_error, w)
  handle_task_completion_requested event_id (some payload) w =
      let (task_id, escrow_id) = completion_fields payload in
      if (task_id == "") || (escrow_id == "")
      then (some "invalid payload", w)
      else (elim (find_task task_id w) [
        | none ↦ (some "task not found", w)
        | some task ↦
            if is_completed task.status
            then (none, w)
            else if not (is_completing task.status)
            then (
              some (
                  concat "task is not completing (status: " (concat (status_text task.status) ")")),
              w,
            )
            else release_task event_id task w
      ])

  -- `webhookService.postJson`: what it throws, if it throws
  pub deliver : WebhookServiceOptions → ℕ → Option String
  deliver options delivery = elim (post_json options env.number env.jitter (env.fetch delivery)).0 [
    | value result ↦ none
    | error e ↦ some (env.error_text e)
  ]

  pub deliver_result : WebhookServiceOptions → Payload → WorkerState → Handled
  unfolding deliver result_fields
  deliver_result options payload s =
      let (task_id, executor_public_key, payload_hash) = result_fields payload in
      if (task_id == "") || ((executor_public_key == "") || (payload_hash == ""))
      then (some "invalid payload", s)
      else (deliver options s.deliveries, record s { deliveries = s.deliveries + 1 })

  pub handle_result_published : Option Payload → WorkerState → Handled
  unfolding deliver_result
  handle_result_published payload s = elim env.webhook [
    | none ↦ (none, s)
    | some options ↦ elim payload [
      | none ↦ (some null_error, s)
      | some p ↦ deliver_result options p s
    ]
  ]

  pub dispatch : (event_id type : String) → Option Payload → WorkerState → Handled
  unfolding handle_task_completion_requested handle_result_published
  dispatch event_id type payload s =
      if type == "task_completion_requested"
      then (let (thrown, w) = handle_task_completion_requested event_id payload s.world in
          (thrown, record s { world = w }))
      else if type == "result_published"
      then handle_result_published payload s
      else (none, s)

  -- `markSucceeded`, or `markFailed` with the time of the next try
  pub settle : (handler_name event_id : String) → (attempt : ℕ) → Handled → WorkerState
  unfolding compute_backoff
  settle handler_name event_id attempt (none, s) =
      on_world
        (λ w. record w { consumptions = mark_succeeded handler_name event_id w.now w.consumptions })
        s
  settle handler_name event_id attempt (some message, s) =
      on_world
        (λ w. record w {
          consumptions =
              mark_failed handler_name event_id message (some (compute_backoff attempt w.now)) w.now
                w.consumptions;
        })
        s
