-- ===== src/Server.antt =====
-- The state of the server, what surrounds it, and the form of its handlers.
pub mod Action
pub mod Columns
use trust_gate.Prelude.{
  ◌≡◌, refl, ◌⊎◌, inl, inr, ℕ, ◌+◌, String, Text, Bool, true, false, Option, none, some, List, [],
  ◌∷◌, ◌++◌, any, first, keep, ◌==◌,
}
pub use trust_gate.Charge.{Result, ok, err, Result-cases}
use trust_gate.Charge.{TokenContract}
use trust_gate.Models.{Task, Bid, Payload, ReleaseResult, is_selected}
use trust_gate.Outbox.{OutboxEvent, insert}
use trust_gate.Consumption.{EventConsumptionRecord}
use trust_gate.Json.{Json}
use trust_gate.Table.{find, upsert}

-- The calls of the escrow provider that were made, in order. A collateral is the decimal text
-- whose `Number` is passed.
pub data EscrowCall : Type 0 where
  create_escrow : (executor task_id : String) → (collateral : Text) → EscrowCall
  release_milestone : (escrow_id : String) → EscrowCall
  confiscate : (escrow_id : String) → (collateral : Text) → EscrowCall

-- `TaskResultRecord` of src/repositories/taskResultRepository.ts
pub record TaskResultRecord : Type 0 where
  pub task_id : String
  pub payload : Json
  pub payload_hash : String
  pub created_at : ℕ

-- `ExecutorRecord` of src/repositories/executorRepository.ts
pub record ExecutorRecord : Type 0 where
  pub public_key : String
  pub metadata_uri : String
  pub registered_at : ℕ

-- `FeedTick` of src/services/taskFeedService.ts, without its signature
pub record FeedTick : Type 0 where
  pub sequence : ℕ
  pub task_id : String
  pub timestamp : ℕ

-- The repositories, the calls made outside, the feed with the number of its last tick, the number
-- of UUIDs drawn, and the time in milliseconds.
pub record World : Type 0 where
  pub tasks : List Task
  pub bids : List Bid
  pub results : List TaskResultRecord
  pub executors : List ExecutorRecord
  pub outbox : List OutboxEvent
  pub consumptions : List EventConsumptionRecord
  pub escrow_calls : List EscrowCall
  pub charges : List (String × ℕ)
  pub sequence : ℕ
  pub ticks : List FeedTick
  pub uuids : ℕ
  pub now : ℕ

-- `SafetyFeatures` of src/config/safetyFeatures.ts, as far as the handlers read it
pub record SafetyFeatures : Type 0 where
  pub pause_new_tasks : Bool
  pub pause_new_bids : Bool
  pub pause_worker_consumption : Bool
  pub executor_denylist : List String

-- What the server does not implement. The answers of a service may depend on the calls made
-- before. `date_parse` is `Date.parse`, with `none` for NaN; `key_of_secret` is the public key of
-- `Keypair.fromSecret`, with `none` where that throws; `sha256` gives hexadecimal digits, `stringify`
-- is `JSON.stringify`, and `before a b` is `a.localeCompare(b) <= 0`. The database and the outbox are
-- there together. Of the database, `timestamptz` is the instant that such a column makes of a text,
-- as `toISOString` prints it back, `is_text` tells the strings that a text column takes, and `jsonb`
-- is what such a column makes of a value as the client sends it; each is `none` or `false` where the
-- value is refused. `token_contract` is the token contract as a call of `chargeListingFee` meets it,
-- after the transfers that were sent before.
pub record Env : Type 0 where
  pub is_local : Bool
  pub has_outbox : Bool
  pub safety : SafetyFeatures
  pub uuid : ℕ → String
  pub date_parse : String → Option ℕ
  pub key_of_secret : String → Option String
  pub is_registered : String → Result Bool
  pub register_executor : String → String → Option String
  pub create_escrow_answer : List EscrowCall → EscrowCall → Result String
  pub release_answer : List EscrowCall → String → Result ReleaseResult
  pub confiscate_answer : List EscrowCall → String → Text → Option String
  pub token_contract : List (String × ℕ) → String → TokenContract
  pub timestamptz : String → Option String
  pub is_text : String → Bool
  pub jsonb : Json → Option Json
  pub publish_fails : ℕ → Bool
  pub sha256 : String → String
  pub stringify : Json → String
  pub before : String → String → Bool

abbrev pub task_key : Task → String
task_key t = t.id

abbrev pub bid_key : Bid → String
bid_key b = b.id

abbrev pub result_key : TaskResultRecord → String
result_key r = r.task_id

abbrev pub executor_key : ExecutorRecord → String
executor_key r = r.public_key

-- the state after a call of `randomUUID`
abbrev pub draw_uuid : World → World
draw_uuid w = record w { uuids = w.uuids + 1 }

-- `taskRepository.findById`
abbrev pub find_task : String → World → Option Task
find_task id w = find task_key id w.tasks

-- `taskRepository.save` of a row that the table takes as it is, such as one that was read from it
abbrev pub save_task : Task → World → World
save_task task w = record w { tasks = upsert task_key task w.tasks }

-- `bidRepository.save`, likewise
abbrev pub save_bid : Bid → World → World
save_bid bid w = record w { bids = upsert bid_key bid w.bids }

-- `bidRepository.findByTaskId`
abbrev pub find_bids : String → World → List Bid
find_bids task_id w = keep (λ (b : Bid). b.task_id == task_id) w.bids

-- `(await bidRepository.findByTaskId(taskId)).find((bid) => bid.status === 'SELECTED')`
abbrev pub selected_bid : String → World → Option Bid
selected_bid task_id w = first (λ (b : Bid). is_selected b.status) (find_bids task_id w)

-- `OutboxService.emit` of src/services/outboxService.ts
unfoldable pub emit : Env → (type aggregate_type aggregate_id : String) → Payload → World → World
unfolding insert
emit env type aggregate_type aggregate_id payload w = record w {
  outbox = insert (env.uuid w.uuids) type aggregate_type aggregate_id payload w.now w.outbox;
  uuids = w.uuids + 1;
}

-- The tables of tasks and bids of a state are those of another.
abbrev pub SameTables : World → World → Type 0
SameTables w v = (v.tasks ≡ w.tasks) × (v.bids ≡ w.bids)

-- `executorDenylist.has`
abbrev pub is_denied : Env → String → Bool
is_denied env executor = any (λ (k : String). k == executor) env.safety.executor_denylist

-- The record of a call of the escrow provider.
unfoldable pub log_call : EscrowCall → World → World
log_call call w = record w { escrow_calls = w.escrow_calls ++ call ∷ [] }
