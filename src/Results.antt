-- ===== src/Results.antt =====
-- src/controllers/executorResultController.ts, src/services/executorResultService.ts and
-- src/repositories/taskResultRepository.ts: the results that executors publish.
pub mod Publication
mod Tests
use trust_gate.Prelude.{
  ℕ, String, concat, Bool, true, false, not, ◌||◌, Option, none, some, List, [], ◌∷◌, ◌==◌,
  if◌then◌else◌,
}
use trust_gate.Json.{Json, canonicalize}
use trust_gate.Schema.{RequestBody, string_field}
use trust_gate.Table.{find, upsert}
use trust_gate.Models.{Task, Bid, is_assigned, is_completing, is_completed, Payload}
use trust_gate.Server.{World, Env, TaskResultRecord, result_key, find_task, selected_bid, emit}
use trust_gate.Server.Action.{
  Body, Action, ◌>>=◌, ◌>>◌, pure, respond, respond_if, gets, modify, or_respond,
}

-- `taskResultRepository.findByTaskId`, which is `resultService.get`
unfoldable pub find_result : String → World → Option TaskResultRecord
find_result task_id w = find result_key task_id w.results

-- `GET /executor/tasks/:taskId/result`
unfoldable pub get_result : String → Action (Unit {0})
get_result task_id = do
  found ← gets (find_task task_id)
  task ← or_respond found 404 "task not found"
  respond_if
      (not (is_assigned task.status || (is_completing task.status || is_completed task.status))) 409
      "task result is not available until the task is assigned"
  bid ← gets (selected_bid task_id)
  chosen ← or_respond bid 409 "no selected executor for this task"
  stored ← gets (find_result task_id)
  result ← or_respond stored 404 "result not found"
  respond 200 (Body.result result)

module _ (env : Env) where
  -- the hash of a payload in `publish`
  unfoldable pub payload_hash_of : Json → String
  unfolding concat
  payload_hash_of payload =
      concat "sha256:" (env.sha256 (env.stringify (canonicalize env.before payload)))

  -- `upsert`: the database keeps the time of the first result, the map in memory does not
  unfoldable pub kept_result : TaskResultRecord → World → TaskResultRecord
  unfolding find_result
  kept_result new_record w = elim (find_result new_record.task_id w) [
    | none ↦ new_record
    | some old ↦
        if env.has_outbox then record new_record { created_at = old.created_at } else new_record
  ]

  unfoldable pub put_result : TaskResultRecord → World → World
  unfolding kept_result
  put_result new_record w = record w {
    results = upsert result_key (kept_result new_record w) w.results;
  }

  -- the payload as it is read back, or `none` where the column refuses it; the map in memory takes
  -- every payload as it is
  unfoldable pub payload_row : Json → Option Json
  payload_row payload = if env.has_outbox then env.jsonb payload else some payload

  -- An error of the database rejects the handler, which Express answers with 500.
  unfoldable pub upsert_result : TaskResultRecord → Action (Unit {0})
  unfolding put_result payload_row
  upsert_result new_record = do
    row ← or_respond (payload_row new_record.payload) 500 "Internal Server Error"
    modify (put_result (record new_record { payload = row }))

  abbrev pub new_result : String → Json → World → TaskResultRecord
  new_result task_id payload w = record {
    task_id = task_id;
    payload = payload;
    payload_hash = payload_hash_of payload;
    created_at = w.now;
  }

  -- `resultService.publish`, which gives back what it reads from the table; where nothing is read,
  -- its error rejects the handler, which Express answers with 500
  unfoldable pub publish : String → Json → Action TaskResultRecord
  unfolding upsert_result payload_hash_of
  publish task_id payload = do
    new_record ← gets (new_result task_id payload)
    upsert_result new_record
    stored ← gets (find_result task_id)
    or_respond stored 500 "Internal Server Error"

  unfoldable pub emit_published : (task_id executor : String) → TaskResultRecord → World → World
  emit_published task_id executor stored w =
      if env.has_outbox
      then emit env "result_published" "task" task_id
          (Payload.result_published stored.task_id executor stored.payload_hash stored.created_at) w
      else w

  -- the executor that a publication names, when it may publish
  unfoldable pub admit_publication : String → RequestBody → Action String
  admit_publication task_id body = do
    found ← gets (find_task task_id)
    task ← or_respond found 404 "task not found"
    respond_if (not (is_assigned task.status)) 409 "task is not assigned"
    bid ← gets (selected_bid task_id)
    chosen ← or_respond bid 409 "no selected executor for this task"
    executor ←
        or_respond (string_field "executorPublicKey" body) 400 "executorPublicKey is required"
    respond_if (not (executor == chosen.executor_public_key)) 403
        "only the selected executor can publish a result"
    pure executor

  -- `POST /executor/tasks/:taskId/result`; `payload` is the field of that name, `none` where it is
  -- undefined.
  unfoldable pub publish_result : String → RequestBody → (payload : Option Json) → Action (Unit {0})
  unfolding emit_published
  publish_result task_id body payload = do
    executor ← admit_publication task_id body
    value ← or_respond payload 400 "payload is required"
    stored ← publish task_id value
    modify (emit_published task_id executor stored)
    respond 201 (Body.published stored.task_id stored.payload_hash)
