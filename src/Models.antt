-- ===== src/Models.antt =====
-- src/models/task.ts and src/models/bid.ts, the DTOs of src/presenters, and the payloads that the
-- server puts into its outbox.
use trust_gate.Prelude.{ℕ, String, Bool, true, false, Text}
use trust_gate.Money.{pos, decimal, format_usdc_stroops_to_decimal}

-- `opened` is 'OPEN'.
pub data TaskStatus : Type 0 where
  opened assigned completing completed expired : TaskStatus

pub data BidStatus : Type 0 where
  pending selected rejected : BidStatus

-- the text of a status
abbrev pub status_text : TaskStatus → String
status_text TaskStatus.opened = "OPEN"
status_text TaskStatus.assigned = "ASSIGNED"
status_text TaskStatus.completing = "COMPLETING"
status_text TaskStatus.completed = "COMPLETED"
status_text TaskStatus.expired = "EXPIRED"

abbrev pub is_opened : TaskStatus → Bool
is_opened TaskStatus.opened = true
is_opened _ = false

abbrev pub is_assigned : TaskStatus → Bool
is_assigned TaskStatus.assigned = true
is_assigned _ = false

abbrev pub is_completing : TaskStatus → Bool
is_completing TaskStatus.completing = true
is_completing _ = false

abbrev pub is_completed : TaskStatus → Bool
is_completed TaskStatus.completed = true
is_completed _ = false

abbrev pub is_pending : BidStatus → Bool
is_pending BidStatus.pending = true
is_pending _ = false

abbrev pub is_selected : BidStatus → Bool
is_selected BidStatus.selected = true
is_selected _ = false

-- Amounts are bigints of stroops, which no operation makes negative.
pub record Task : Type 0 where
  pub id : String
  pub requester_public_key : String
  pub reserve_price_stroops : ℕ
  pub description : String
  pub deadline : String
  pub status : TaskStatus

-- `created_at` is the instant of the ISO text that `toISOString` writes: such texts order as
-- their instants.
pub record Bid : Type 0 where
  pub id : String
  pub task_id : String
  pub executor_public_key : String
  pub amount_stroops : ℕ
  pub collateral_stroops : ℕ
  pub escrow_id : String
  pub status : BidStatus
  pub created_at : ℕ

pub record TaskDto : Type 0 where
  pub id : String
  pub requester_public_key : String
  pub reserve_price : Text
  pub reserve_price_stroops : Text
  pub description : String
  pub deadline : String
  pub status : TaskStatus

pub record BidDto : Type 0 where
  pub id : String
  pub task_id : String
  pub executor_public_key : String
  pub amount : Text
  pub amount_stroops : Text
  pub collateral : Text
  pub collateral_stroops : Text
  pub escrow_id : String
  pub status : BidStatus
  pub created_at : ℕ

-- `toTaskDto` and `toBidDto` of src/presenters
unfoldable pub to_task_dto : Task → TaskDto
to_task_dto task = record {
  id = task.id;
  requester_public_key = task.requester_public_key;
  reserve_price = format_usdc_stroops_to_decimal (pos task.reserve_price_stroops);
  reserve_price_stroops = decimal task.reserve_price_stroops;
  description = task.description;
  deadline = task.deadline;
  status = task.status;
}

unfoldable pub to_bid_dto : Bid → BidDto
to_bid_dto bid = record {
  id = bid.id;
  task_id = bid.task_id;
  executor_public_key = bid.executor_public_key;
  amount = format_usdc_stroops_to_decimal (pos bid.amount_stroops);
  amount_stroops = decimal bid.amount_stroops;
  collateral = format_usdc_stroops_to_decimal (pos bid.collateral_stroops);
  collateral_stroops = decimal bid.collateral_stroops;
  escrow_id = bid.escrow_id;
  status = bid.status;
  created_at = bid.created_at;
}

-- `ReleaseResult` of src/services/escrowService.ts; its amount is a number of the provider, kept
-- as a text.
pub record ReleaseResult : Type 0 where
  pub success : Bool
  pub transaction_hash : String
  pub amount_released : Text
  pub receiver : String

-- The payloads that the server puts into the outbox, and any other JSON value.
pub data Payload : Type 0 where
  task_created : TaskDto → Payload
  bid_placed : BidDto → Payload
  task_assigned : TaskDto → BidDto → Payload
  completion_requested : (task_id escrow_id : String) → Payload
  task_completed : TaskDto → ReleaseResult → (source_event_id : String) → Payload
  task_expired : (task_id : String) → Payload
  result_published :
      (task_id executor_public_key payload_hash : String) → (published_at : ℕ) → Payload
  other : (value : String) → Payload
