-- ===== src/Worker/Loop.antt =====
-- src/services/workerService.ts: the tick of the worker. `claimed` and `polled` are the entries that
-- Redis hands out; `autoClaimOnce` and `pollOnce` handle them in turn.
pub mod Ticks
mod Tests
use trust_gate.Prelude.{
  ℕ, String, Bool, true, false, not, ◌||◌, Option, none, some, List, [], ◌∷◌, ◌++◌, concat, ◌==◌,
  if◌then◌else◌,
}
use trust_gate.Outbox.{OutboxEvent, find_by_id}
use trust_gate.Publisher.{Queues, publish_once}
use trust_gate.Consumption.{EventConsumptionRecord, StartArgs, Started, try_start, list_due_retries}
use trust_gate.Server.{World}
use trust_gate.Worker.{WorkerEnv, WorkerState, StreamEntry, on_world, dispatch, settle}

-- `event:${type}`
unfoldable pub handler_of : String → String
unfolding concat
handler_of type = concat "event:" type

unfoldable pub ack : String → WorkerState → WorkerState
ack entry_id s = record s { acked = s.acked ++ entry_id ∷ [] }

unfoldable pub start_event : StartArgs → WorkerState → Started × WorkerState
start_event args s =
    let (started, rows) = try_start args s.world.now s.world.consumptions in
    (started, on_world (λ w. record w { consumptions = rows }) s)

module _ (env : WorkerEnv) where
  abbrev pub args_of : (handler_name event_id : String) → Option String → StartArgs
  args_of handler_name event_id stream_entry_id = record {
    handler_name = handler_name;
    event_id = event_id;
    stream_entry_id = stream_entry_id;
    max_attempts = env.max_attempts;
    next_retry_at = none;
  }

  -- the handler of an entry behind `tryStart`
  pub run_entry : StreamEntry → Started × WorkerState → WorkerState
  unfolding handler_of
  run_entry entry (started, s) =
      if not started.started
      then s
      else settle env (handler_of entry.type) entry.event_id started.attempt.attempts
          (dispatch env entry.event_id entry.type entry.payload s)

  -- the handler of an entry, the same for claimed and for polled ones
  pub handle_entry : StreamEntry → WorkerState → WorkerState
  unfolding run_entry ack start_event
  handle_entry entry s =
      if (entry.event_id == "") || (entry.type == "")
      then ack entry.id s
      else ack entry.id (
          run_entry entry
            (start_event (args_of (handler_of entry.type) entry.event_id (some entry.id)) s))

  pub handle_entries : List StreamEntry → WorkerState → WorkerState
  unfolding handle_entry
  handle_entries [] s = s
  handle_entries (entry ∷ entries) s = handle_entries entries (handle_entry entry s)

  -- a due retry behind `tryStart`
  pub run_retry : EventConsumptionRecord → Started × WorkerState → WorkerState
  run_retry r (started, s) =
      if not started.started
      then s
      else settle env r.handler_name r.event_id started.attempt.attempts
          (elim (find_by_id r.event_id s.world.outbox) [
            | none ↦ (some "outbox event not found", s)
            | some event ↦ dispatch env event.id event.type (some event.payload) s
          ])

  pub retry_record : EventConsumptionRecord → WorkerState → WorkerState
  unfolding run_retry start_event
  retry_record r s = run_retry r (start_event (args_of r.handler_name r.event_id none) s)

  pub retry_records : List EventConsumptionRecord → WorkerState → WorkerState
  unfolding retry_record
  retry_records [] s = s
  retry_records (r ∷ due) s = retry_records due (retry_record r s)

  pub retry_handler : String → WorkerState → WorkerState
  unfolding retry_records
  retry_handler handler_name s =
      retry_records (list_due_retries handler_name 25 s.world.now s.world.consumptions) s

  pub publish : WorkerState → WorkerState
  publish s =
      let (count, q) =
        publish_once env.add_error s.world.now 50
          (record { outbox = s.world.outbox; stream = s.stream }) in
      record s {
        world = let w : World = record s.world { outbox = q.outbox } in w;
        stream = q.stream;
      }

  pub tick : (claimed polled : List StreamEntry) → WorkerState → WorkerState
  unfolding publish handle_entries retry_handler
  tick claimed polled s =
      let published = publish s in
      if env.server.safety.pause_worker_consumption
      then published
      else retry_handler "event:result_published" (
          retry_handler "event:task_completion_requested"
            (handle_entries polled (handle_entries claimed published)))
