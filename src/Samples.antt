-- ===== src/Samples.antt =====
-- Concrete values for the tests.
pub mod Keys
pub mod Signing
use trust_gate.Prelude.{
  ℕ, zero, suc, String, Text, Bool, true, false, Option, none, some, List, [], ◌∷◌,
}
use trust_gate.Models.{Task, Bid, TaskStatus, BidStatus, ReleaseResult, Payload}
use trust_gate.Outbox.{OutboxEvent}
use trust_gate.Schema.{RequestBody, str, BidInput, TaskInput}
use trust_gate.Json.{Json}
use trust_gate.Charge.{TokenContract}
use trust_gate.Server.{World, Env, SafetyFeatures, Result, ok, err}
use trust_gate.Webhook.{WebhookError, Fetched, responded, WebhookServiceOptions}
use trust_gate.Worker.{WorkerEnv, WorkerState}

abbrev pub ada : String
ada = "GAAAAAAAAAAAAAAAAAAAAAAAAAAAAAAAAAAAAAAAAAAAAAAAAAAAAAAA"

abbrev pub ada_secret : String
ada_secret = "SAAAAAAAAAAAAAAAAAAAAAAAAAAAAAAAAAAAAAAAAAAAAAAAAAAAAAAA"

abbrev pub sample_uuid : ℕ → String
sample_uuid zero = "id-0"
sample_uuid (suc zero) = "id-1"
sample_uuid (suc (suc n)) = "id-2"

abbrev pub sample_release : ReleaseResult
sample_release = record {
  success = true;
  transaction_hash = "tx";
  amount_released = [];
  receiver = ada;
}

abbrev pub sample_safety : SafetyFeatures
sample_safety = record {
  pause_new_tasks = false;
  pause_new_bids = false;
  pause_worker_consumption = false;
  executor_denylist = [];
}

abbrev pub sample_token : TokenContract
sample_token = record {
  open_client = λ _. none;
  transfer = λ _ _. none;
  sign_and_send = λ _. ok "tx0";
}

-- a column that refuses null, and takes all else as it is
abbrev pub sample_jsonb : Json → Option Json
sample_jsonb Json.null = none
sample_jsonb payload = some payload

abbrev pub sample_env : Env
sample_env = record {
  is_local = true;
  has_outbox = true;
  safety = sample_safety;
  uuid = sample_uuid;
  date_parse = λ _. some 5000;
  key_of_secret = λ _. some ada;
  is_registered = λ _. ok true;
  register_executor = λ _ _. none;
  create_escrow_answer = λ _ _. ok "escrow-1";
  release_answer = λ _ _. ok sample_release;
  confiscate_answer = λ _ _ _. none;
  token_contract = λ _ _. sample_token;
  timestamptz = λ s. some s;
  is_text = λ _. true;
  jsonb = sample_jsonb;
  publish_fails = λ _. false;
  sha256 = λ s. s;
  stringify = λ _. "{}";
  before = λ _ _. true;
}

-- without an outbox, and with an escrow provider that fails
abbrev pub failing_env : Env
failing_env = record sample_env {
  has_outbox = false;
  create_escrow_answer = λ _ _. err "down";
  release_answer = λ _ _. err "down";
}

abbrev pub open_task : Task
open_task = record {
  id = "t1";
  requester_public_key = ada;
  reserve_price_stroops = 100;
  description = "d";
  deadline = "2030";
  status = TaskStatus.opened;
}

abbrev pub assigned_task : Task
assigned_task = record open_task { id = "t2"; status = TaskStatus.assigned }

abbrev pub completing_task : Task
completing_task = record open_task { id = "t3"; status = TaskStatus.completing }

abbrev pub sample_bid : String → String → ℕ → BidStatus → Bid
sample_bid id task_id amount status = record {
  id = id;
  task_id = task_id;
  executor_public_key = ada;
  amount_stroops = amount;
  collateral_stroops = 7;
  escrow_id = "escrow-0";
  status = status;
  created_at = 1;
}

abbrev pub bid_high : Bid
bid_high = sample_bid "b1" "t1" 30 BidStatus.pending

abbrev pub bid_low : Bid
bid_low = sample_bid "b2" "t1" 20 BidStatus.pending

abbrev pub bid_of_assigned : Bid
bid_of_assigned = sample_bid "b3" "t2" 20 BidStatus.selected

abbrev pub bid_of_completing : Bid
bid_of_completing = sample_bid "b4" "t3" 20 BidStatus.selected

abbrev pub sample_world : World
sample_world = record {
  tasks = open_task ∷ assigned_task ∷ completing_task ∷ [];
  bids = bid_high ∷ bid_low ∷ bid_of_assigned ∷ bid_of_completing ∷ [];
  results = [];
  executors = [];
  outbox = [];
  consumptions = [];
  escrow_calls = [];
  charges = [];
  sequence = 0;
  ticks = [];
  uuids = 0;
  now = 1000;
}

abbrev pub bid_body : RequestBody
bid_body =
    ("taskId", str "t1")
    ∷ ("executor", str ada)
    ∷ ("amount", str "1.5")
    ∷ ("collateral", str "2")
    ∷ ("secret", str ada_secret)
    ∷ []

abbrev pub bid_input : BidInput
bid_input = record { task_id = "t1"; executor = ada; amount = "1.5"; collateral = "2" }

abbrev pub task_body : RequestBody
task_body =
    ("requester", str ada)
    ∷ ("reservePrice", str "10")
    ∷ ("description", str "d")
    ∷ ("deadline", str "2030")
    ∷ ("secret", str ada_secret)
    ∷ []

abbrev pub task_input : TaskInput
task_input = record { requester = ada; reserve_price = "10"; description = "d"; deadline = "2030" }

abbrev pub sample_event : String → OutboxEvent
sample_event id = record {
  id = id;
  type = "bid_placed";
  aggregate_type = "bid";
  aggregate_id = "b1";
  payload = Payload.other "1";
  created_at = 1;
  processed_at = none;
  attempts = 0;
  last_error = none;
}

abbrev pub sample_fetch : ℕ → Fetched
sample_fetch _ = responded 200 "ok" none

abbrev pub webhook_options : WebhookServiceOptions
webhook_options = record { max_retries = 2; base_backoff_ms = 100 }

abbrev pub sample_worker : WorkerEnv
sample_worker = record {
  server = sample_env;
  max_attempts = 5;
  webhook = some webhook_options;
  number = λ _. none;
  jitter = λ _ raw. raw;
  add_error = λ _. none;
  fetch = λ _. sample_fetch;
  error_text = λ _. "failed";
}

abbrev pub sample_state : WorkerState
sample_state = record { world = sample_world; stream = []; acked = []; deliveries = 0 }

abbrev pub complete_body : RequestBody
complete_body = ("requester", str ada) ∷ ("secret", str ada_secret) ∷ []
