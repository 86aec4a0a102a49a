-- ===== src/Worker/Loop/Tests.antt =====
-- The worker's ticks.
use trust_gate.Prelude.{◌≡◌, refl, arith, ◌∷◌, [], ◌++◌, map, some, none, true, All, String}
use trust_gate.Models.{Payload}
use trust_gate.Consumption.{
  EventConsumptionRecord, EventConsumptionStatus, list_due_retries, find_row,
}
use trust_gate.Server.{World, Env}
use trust_gate.Worker.{WorkerEnv, WorkerState, StreamEntry}
use trust_gate.Worker.Loop.{handle_entries, retry_handler}
use trust_gate.Worker.Loop.Ticks.{IsExhausted, handle_entries-acked, retry_handler_exhausted}
use trust_gate.Samples.{sample_worker, sample_env, sample_safety, sample_state, sample_world}

abbrev entry : String → StreamEntry
entry id = record {
  id = id;
  event_id = "e1";
  type = "task_expired";
  payload = some (Payload.task_expired "t1");
}

handle_entries-acked_example :
    (handle_entries sample_worker (entry "1-0" ∷ entry "2-0" ∷ []) sample_state).acked
    ≡ [] ++ map (λ (e : StreamEntry). e.id) (entry "1-0" ∷ entry "2-0" ∷ [])
handle_entries-acked_example =
    handle_entries-acked sample_worker (entry "1-0" ∷ entry "2-0" ∷ []) sample_state

abbrev used_up : EventConsumptionRecord
used_up = record {
  handler_name = "event:result_published";
  event_id = "e1";
  stream_entry_id = none;
  status = EventConsumptionStatus.failed;
  attempts = 5;
  last_error = none;
  next_retry_at = some 500;
  created_at = 1;
  updated_at = 1;
}

abbrev used_state : WorkerState
used_state = record sample_state {
  world = let w : World = record sample_world { consumptions = used_up ∷ [] } in w;
}

All-used :
    All
      (IsExhausted sample_worker (used_up ∷ []))
      (list_due_retries "event:result_published" 25 1000 (used_up ∷ []))
unfolding list_due_retries find_row
All-used = ((refl, omega arith), tt)

retry_handler_exhausted_example :
    retry_handler sample_worker "event:result_published" used_state ≡ used_state
retry_handler_exhausted_example =
    retry_handler_exhausted sample_worker "event:result_published" used_state All-used

abbrev paused_worker : WorkerEnv
paused_worker = record sample_worker {
  server =
      let e : Env = record sample_env {
        safety = record sample_safety { pause_worker_consumption = true };
      } in
      e;
}
