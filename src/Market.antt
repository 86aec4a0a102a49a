-- ===== src/Market.antt =====
-- The market that the handlers of src/controllers and the services of src/services keep: what they
-- do to the two tables of tasks and bids, one step after another.
pub mod Sound
pub mod Choosing
pub mod Handlers
pub mod Runs
pub mod Winners
mod Tests
use trust_gate.Prelude.{String, ◌≡◌, ◌≢◌, ◌⊎◌, Option, none, some, List}
use trust_gate.Json.{Json}
use trust_gate.Models.{Task, Bid, TaskStatus, BidStatus, Payload}
use trust_gate.Schema.{RequestBody}
use trust_gate.Table.{find}
use trust_gate.Server.{World, Env, bid_key, find_task, save_task, save_bid}
use trust_gate.Auction.{select_winner}
use trust_gate.Bids
use trust_gate.Tasks
use trust_gate.Executors.{register}
use trust_gate.Results.{publish_result}
use trust_gate.Timeout.{run_once}
use trust_gate.Worker.{WorkerEnv, handle_task_completion_requested}

-- What a handler may do to the status of a task on its own; an auction opens the way to it.
pub data Forward : TaskStatus → TaskStatus → Type 0 where
  requests : Forward TaskStatus.assigned TaskStatus.completing
  completes : Forward TaskStatus.assigned TaskStatus.completed
  expires : Forward TaskStatus.assigned TaskStatus.expired
  releases : Forward TaskStatus.completing TaskStatus.completed

abbrev pub with_status : TaskStatus → Task → Task
with_status s t = record t { status = s }

-- What a market does to its tables: tasks are opened under new ids, bids are placed under new ids,
-- auctions are held, and tasks move on.
pub data Change : World → World → Type 0 where
  quiet : {w v : World} → v.tasks ≡ w.tasks → v.bids ≡ w.bids → Change w v
  opened :
      {w : World} (t : Task)
      → find_task t.id w ≡ none
      → t.status ≡ TaskStatus.opened
      → Change w (save_task t w)
  moved :
      {w : World} (t : Task) (s : TaskStatus)
      → find_task t.id w ≡ some t
      → Forward t.status s
      → Change w (save_task (with_status s t) w)
  placed :
      {w : World} (b : Bid)
      → find bid_key b.id w.bids ≡ none
      → b.status ≡ BidStatus.pending
      → Change w (save_bid b w)
  chosen : {w : World} (task_id : String) → Change w (select_winner task_id w).1
  and_then : {w v u : World} → Change w v → Change v u → Change w u

-- One run of a handler, of the timeout service, or of the worker on an event. A UUID that is drawn
-- for a task or a bid is not in use. `other` is all that leaves the two tables: the publisher, the
-- records of consumption, and the time that passes.
pub data Step (env : Env) (worker : WorkerEnv) (w : World) : World → Type 0 where
  create_task :
      (body : RequestBody)
      → find_task (env.uuid w.uuids) w ≡ none
      → Step env worker w (Tasks.create env body w).1
  create_paid_task :
      (body : RequestBody)
      → find_task (env.uuid w.uuids) w ≡ none
      → Step env worker w (Tasks.create_paid env body w).1
  create_bid :
      (body : RequestBody)
      → find bid_key (env.uuid w.uuids) w.bids ≡ none
      → Step env worker w (Bids.create env body w).1
  select : (task_id : String) → Step env worker w (Tasks.select env task_id w).1
  complete :
      (task_id : String) (body : RequestBody)
      → Step env worker w (Tasks.complete env task_id body w).1
  register_executor : (body : RequestBody) → Step env worker w (register env body w).1
  publish :
      (task_id : String) (body : RequestBody) (payload : Option Json)
      → Step env worker w (publish_result env task_id body payload w).1
  sweep : Step env worker w (run_once env w).1
  work :
      (event_id : String) (payload : Option Payload)
      → Step env worker w (handle_task_completion_requested worker event_id payload w).1
  other : {v : World} → v.tasks ≡ w.tasks → v.bids ≡ w.bids → Step env worker w v

-- A run of the market.
pub data Run (env : Env) (worker : WorkerEnv) (w : World) : World → Type 0 where
  here : Run env worker w w
  later : {v u : World} → Run env worker w v → Step env worker v u → Run env worker w u
