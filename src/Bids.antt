-- ===== src/Bids.antt =====
-- src/controllers/bidController.ts: `POST /bids`.
pub mod Admission
pub mod Placement
pub mod Tables
mod Tests
use trust_gate.Prelude.{
  ℕ, ◌+◌, String, codes, Bool, true, false, not, Option, none, some, List, [], ◌∷◌, ◌++◌, ◌==◌,
  if◌then◌else◌,
}
use trust_gate.Models.{Task, Bid, BidStatus, is_opened, Payload, to_bid_dto}
use trust_gate.Schema.{
  RequestBody, BidInput, create_bid_signed_schema, create_bid_local_schema, stroops_of,
}
use trust_gate.Server.{
  draw_uuid, World, Env, Result, ok, err, EscrowCall, find_task, save_bid, emit, is_denied,
  log_call,
}
use trust_gate.Server.Columns.{takes_bid}
use trust_gate.Server.Action.{
  Body, Action, ◌>>=◌, ◌>>◌, pure, respond, respond_if, gets, modify, or_respond,
}
use trust_gate.Auction.{select_winner}

pub escrow_call : BidInput → EscrowCall
escrow_call input = EscrowCall.create_escrow input.executor input.task_id (codes input.collateral)

abbrev pub check_open : Task → Action (Unit {0})
check_open task =
    if is_opened task.status
    then pure tt
    else respond 409 (Body.error_with_status "task is not open for bids" task.status)

module _ (env : Env) where
  -- the body, parsed by the schema of the network; on the local one the secret must be that of
  -- the executor
  pub check_secret : BidInput → String → Action BidInput
  check_secret input secret = do
    public_key ← or_respond (env.key_of_secret secret) 400 "invalid secret"
    respond_if (not (public_key == input.executor)) 400 "secret does not match executor"
    pure input

  pub read_input : RequestBody → Action BidInput
  unfolding check_secret
  read_input body =
      if env.is_local
      then (do
        parsed ← or_respond (create_bid_local_schema body) 400 "invalid request"
        check_secret parsed.0 parsed.1)
      else or_respond (create_bid_signed_schema body) 400 "invalid request"

  -- `policyService.authorizeExecutorPayment`, with the answers to what it throws
  pub authorize : String → Action (Unit {0})
  authorize executor = elim (env.is_registered executor) [
    | ok registered ↦ respond_if (not registered) 403 "executor is not registered"
    | err message ↦ respond 500 (Body.error "executor authorization failed")
  ]

  -- all that is checked before collateral is locked
  pub admit : RequestBody → Action BidInput
  unfolding read_input authorize
  admit body = do
    respond_if env.safety.pause_new_bids 503 "new bids are paused"
    input ← read_input body
    respond_if (is_denied env input.executor) 403 "executor is not allowed to bid"
    found ← gets (find_task input.task_id)
    task ← or_respond found 404 "task not found"
    check_open task
    authorize input.executor
    pure input

  pub lock_collateral : BidInput → Action String
  unfolding escrow_call log_call
  lock_collateral input = do
    answer ← gets (λ w. env.create_escrow_answer w.escrow_calls (escrow_call input))
    modify (log_call (escrow_call input))
    elim answer [
      | ok escrow_id ↦ pure escrow_id
      | err message ↦ respond 502 (Body.error "escrow creation failed")
    ]

  pub new_bid : BidInput → String → ℕ → ℕ → World → Bid
  new_bid input escrow_id amount_stroops collateral_stroops w = record {
    id = env.uuid w.uuids;
    task_id = input.task_id;
    executor_public_key = input.executor;
    amount_stroops = amount_stroops;
    collateral_stroops = collateral_stroops;
    escrow_id = escrow_id;
    status = BidStatus.pending;
    created_at = w.now;
  }

  pub emit_placed : Bid → World → World
  emit_placed bid w =
      if env.has_outbox
      then emit env "bid_placed" "bid" bid.id (Payload.bid_placed (to_bid_dto bid)) w
      else w

  -- the bid is saved and announced, and the auction is run; its errors are only logged
  pub place : Bid → World → World
  unfolding emit_placed
  place bid w = (select_winner bid.task_id (emit_placed bid (save_bid bid w))).1

  -- A bid that the database refuses rejects the handler, which Express answers with 500.
  pub store_bid : BidInput → String → Action (Unit {0})
  unfolding new_bid place takes_bid
  store_bid input escrow_id = do
    amount_stroops ← or_respond (stroops_of input.amount) 400 "invalid amount/collateral"
    collateral_stroops ← or_respond (stroops_of input.collateral) 400 "invalid amount/collateral"
    bid ← gets (new_bid input escrow_id amount_stroops collateral_stroops)
    modify draw_uuid
    respond_if (not (takes_bid env bid)) 500 "Internal Server Error"
    modify (place bid)
    respond 201 (Body.bid (to_bid_dto bid))

  pub create : RequestBody → Action (Unit {0})
  create body = do input ← admit body; escrow_id ← lock_collateral input; store_bid input escrow_id
