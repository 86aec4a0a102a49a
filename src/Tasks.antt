-- ===== src/Tasks.antt =====
-- src/controllers/taskController.ts: the handlers of `/tasks`.
pub mod Requests
pub mod Creation
pub mod Completion
pub mod Tables
mod Tests
use trust_gate.Prelude.{
  ℕ, ◌+◌, String, Bool, true, false, not, Option, none, some, List, [], ◌∷◌, ◌++◌, ◌==◌,
  if◌then◌else◌,
}
use trust_gate.Money.{calculate_listing_fee_stroops}
use trust_gate.Models.{
  Task, Bid, TaskStatus, is_assigned, is_completed, is_completing, Payload, to_task_dto, to_bid_dto,
  ReleaseResult,
}
use trust_gate.Schema.{
  RequestBody, TaskInput, create_task_schema, create_task_local_request_schema,
  complete_task_signed_request_schema, complete_task_local_request_schema, stroops_of,
}
use trust_gate.Server.{
  draw_uuid, World, Env, Result, ok, err, EscrowCall, FeedTick, find_task, save_task, selected_bid,
  emit, is_denied, log_call,
}
use trust_gate.Server.Columns.{task_row}
use trust_gate.Retry.{value, error}
use trust_gate.Charge.{insufficient_balance, charge_network, count_sent, transfers}
use trust_gate.Charge
use trust_gate.Server.Action.{
  Body, Action, ◌>>=◌, ◌>>◌, pure, respond, respond_if, gets, modify, or_respond,
}
use trust_gate.Auction.{
  AuctionError, Selection, selected, refused, select_winner, task_not_found, task_not_open, no_bids,
}

module _ (env : Env) where
  -- `taskFeedService.publishTask`, whose failure is only logged
  pub publish_task : Task → World → World
  publish_task task w =
      let sequence = w.sequence + 1 in
      let tick : FeedTick = record { sequence = sequence; task_id = task.id; timestamp = w.now } in
      if env.publish_fails sequence
      then record w { sequence = sequence }
      else record w { sequence = sequence; ticks = w.ticks ++ tick ∷ [] }

  pub emit_created : Task → World → World
  emit_created task w =
      if env.has_outbox
      then emit env "task_created" "task" task.id (Payload.task_created (to_task_dto task)) w
      else w

  pub new_task : TaskInput → ℕ → World → Task
  new_task input reserve_price_stroops w = record {
    id = env.uuid w.uuids;
    requester_public_key = input.requester;
    reserve_price_stroops = reserve_price_stroops;
    description = input.description;
    deadline = input.deadline;
    status = TaskStatus.opened;
  }

  -- the row of the task is saved, and the task is announced
  pub publish_new : (row task : Task) → World → World
  unfolding publish_task emit_created
  publish_new row task w = emit_created task (publish_task task (save_task row w))

  -- An error of the parser or of the database rejects the handler, which Express answers with 500.
  pub save_and_publish : TaskInput → Action Task
  unfolding new_task publish_new task_row
  save_and_publish input = do
    reserve_price_stroops ← or_respond (stroops_of input.reserve_price) 500 "Internal Server Error"
    task ← gets (new_task input reserve_price_stroops)
    modify draw_uuid
    row ← or_respond (task_row env task) 500 "Internal Server Error"
    modify (publish_new row task)
    pure task

  -- the secret that signs must be that of the key
  pub check_requester : String → String → Action (Unit {0})
  check_requester requester secret = do
    public_key ← or_respond (env.key_of_secret secret) 400 "invalid secret"
    respond_if (not (public_key == requester)) 400 "secret does not match requester"

  -- `mppChargeService.chargeListingFee`, with the answers to what it throws; every transfer that it
  -- sends is recorded
  pub charge_listing_fee : String → ℕ → Action (Unit {0})
  charge_listing_fee requester reserve_price_stroops = do
    let fee = calculate_listing_fee_stroops reserve_price_stroops
    token ← gets (λ w. env.token_contract w.charges requester)
    let (outcome, steps) = Charge.charge_listing_fee token reserve_price_stroops
    modify (λ w. record w {
      charges = w.charges ++ transfers (count_sent token fee steps) requester fee;
    })
    elim outcome [
      | value result ↦ pure tt
      | error (some insufficient_balance) ↦ respond 402 (Body.error "payment required")
      | error (some (charge_network prefix message)) ↦
          respond 502 (Body.error "listing fee charge failed")
      | error none ↦ respond 502 (Body.error "listing fee charge failed")
    ]

  -- `POST /tasks` on the local network
  pub create : RequestBody → Action (Unit {0})
  unfolding save_and_publish check_requester charge_listing_fee
  create body = do
    respond_if env.safety.pause_new_tasks 503 "new tasks are paused"
    now ← gets (λ w. w.now)
    parsed ←
        or_respond (create_task_local_request_schema env.date_parse now body) 400 "invalid request"
    reserve_price_stroops ←
        or_respond (stroops_of parsed.0.reserve_price) 400 "invalid reservePrice"
    check_requester parsed.0.requester parsed.1
    charge_listing_fee parsed.0.requester reserve_price_stroops
    task ← save_and_publish parsed.0
    respond 201 (Body.task (to_task_dto task))

  -- `POST /tasks` behind the payment gate of the other networks
  pub create_paid : RequestBody → Action (Unit {0})
  unfolding save_and_publish
  create_paid body = do
    respond_if env.safety.pause_new_tasks 503 "new tasks are paused"
    now ← gets (λ w. w.now)
    input ← or_respond (create_task_schema env.date_parse now body) 400 "invalid request"
    task ← save_and_publish input
    respond 201 (Body.task (to_task_dto task))

  -- `GET /tasks/:id`
  pub get_by_id : String → Action (Unit {0})
  get_by_id task_id = do
    found ← gets (find_task task_id)
    task ← or_respond found 404 "task not found"
    respond 200 (Body.task (to_task_dto task))

  pub emit_assigned : Task → Bid → World → World
  emit_assigned task winning_bid w =
      if env.has_outbox
      then emit env "task_assigned" "task" task.id
          (Payload.task_assigned (to_task_dto task) (to_bid_dto winning_bid)) w
      else w

  -- what `select` makes of the outcome of `selectWinner`
  pub answer_selection : Selection → Action (Unit {0})
  unfolding emit_assigned
  answer_selection (selected task winning_bid) = do
    modify (emit_assigned task winning_bid)
    respond 200 (Body.assignment (to_task_dto task) (to_bid_dto winning_bid))
  answer_selection (refused task_not_found) = respond 404 (Body.error "task not found")
  answer_selection (refused (task_not_open status)) =
      respond 409 (Body.error_with_status "task is not open for selection" status)
  answer_selection (refused no_bids) = respond 409 (Body.error "no pending bids for this task")

  -- `POST /tasks/:id/select`
  pub select : String → Action (Unit {0})
  unfolding answer_selection
  select task_id w = let (selection, w') = select_winner task_id w in answer_selection selection w'

  pub read_requester : RequestBody → Action String
  unfolding check_requester
  read_requester body =
      if env.is_local
      then (do
        parsed ← or_respond (complete_task_local_request_schema body) 400 "invalid request"
        check_requester parsed.0 parsed.1
        pure parsed.0)
      else or_respond (complete_task_signed_request_schema body) 400 "invalid request"

  -- what is checked before the milestone is released
  pub check_assigned : Task → Action (Unit {0})
  check_assigned task =
      if is_completed task.status
      then respond 200 (Body.task_with_status (to_task_dto task) "already completed")
      else if is_completing task.status
      then respond 202 (Body.task_with_status (to_task_dto task) "completion in progress")
      else if not (is_assigned task.status)
      then respond 409 (Body.error_with_status "task is not assigned" task.status)
      else pure tt

  -- without an outbox the milestone is released at once
  pub release_now : Task → Bid → Action (Unit {0})
  release_now task winning_bid = do
    answer ← gets (λ w. env.release_answer w.escrow_calls winning_bid.escrow_id)
    modify (log_call (EscrowCall.release_milestone winning_bid.escrow_id))
    let updated_task : Task = record task { status = TaskStatus.completed }
    elim answer [
      | ok release ↦ do
        modify (save_task updated_task)
        respond 200 (Body.release (to_task_dto updated_task) release)
      | err message ↦ respond 502 (Body.error "escrow release failed")
    ]

  -- with one, the worker releases it
  pub request_completion : Task → Bid → Action (Unit {0})
  request_completion task winning_bid = do
    let completing_task : Task = record task { status = TaskStatus.completing }
    modify (save_task completing_task)
    modify (
        emit env "task_completion_requested" "task" completing_task.id
          (Payload.completion_requested completing_task.id winning_bid.escrow_id))
    respond 202 (Body.task (to_task_dto completing_task))

  -- the task and the winning bid of a request that may complete it
  pub admit_completion : String → RequestBody → Action (Task × Bid)
  unfolding read_requester check_assigned
  admit_completion task_id body = do
    requester ← read_requester body
    found ← gets (find_task task_id)
    task ← or_respond found 404 "task not found"
    respond_if (not (task.requester_public_key == requester)) 403
        "only the task requester can complete this task"
    check_assigned task
    bid ← gets (selected_bid task_id)
    winning_bid ← or_respond bid 409 "no selected bid found for this task"
    respond_if (is_denied env winning_bid.executor_public_key) 403
        "cannot complete task — executor is not allowed to release milestone"
    pure (task, winning_bid)

  -- `if (!this.outbox) { … }` and what follows it
  pub finish : Task × Bid → Action (Unit {0})
  unfolding release_now request_completion
  finish (task, winning_bid) =
      if env.has_outbox then request_completion task winning_bid else release_now task winning_bid

  -- `POST /tasks/:id/complete`
  pub complete : String → RequestBody → Action (Unit {0})
  unfolding finish
  complete task_id body = do admitted ← admit_completion task_id body; finish admitted
