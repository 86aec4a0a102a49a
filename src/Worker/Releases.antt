-- ===== src/Worker/Releases.antt =====
-- What the worker releases for `task_completion_requested`.
use trust_gate.Prelude.{◌≡◌, ◌≢◌, refl, ap, ◌∙◌, String, none, some, [], ◌∷◌, ◌++◌, arith, eq_iff}
use trust_gate.Models.{Task, Bid, TaskStatus, Payload, ReleaseResult, to_task_dto}
use trust_gate.Table.{find, upsert, find-upsert}
use trust_gate.Server.{
  World, ok, err, EscrowCall, find_task, selected_bid, emit, log_call, task_key,
}
use trust_gate.Worker.{
  WorkerEnv, completion_fields, complete_task, release_task, handle_task_completion_requested,
}

abbrev pub as_completed : Task → Task
as_completed t = record t { status = TaskStatus.completed }

-- what is asked of a completing task whose bid has been selected
pub record Releasable (payload : Payload) (w : World) (task : Task) (bid : Bid) : Type 0 where
  pub named : (completion_fields payload).0 ≡ task.id
  pub complete_payload : ((completion_fields payload).0 ≢ "") × ((completion_fields payload).1 ≢ "")
  pub found : find_task task.id w ≡ some task
  pub is_completing : task.status ≡ TaskStatus.completing
  pub winner : selected_bid task.id w ≡ some bid

module _ (env : WorkerEnv) (event_id : String) (payload : Payload) (w : World) where
  -- A task that is COMPLETED already is not released again: the handler succeeds, and changes
  -- nothing.
  handle_completed :
      (task : Task)
      → (completion_fields payload).0 ≡ task.id
      → (completion_fields payload).0 ≢ ""
      → (completion_fields payload).1 ≢ ""
      → find_task task.id w ≡ some task
      → task.status ≡ TaskStatus.completed
      → handle_task_completion_requested env event_id (some payload) w ≡ (none, w)
  unfolding handle_task_completion_requested
  handle_completed task named ne_task ne_escrow found done =
      ground
        (arith, eq_iff (completion_fields payload).0 "", eq_iff (completion_fields payload).1 "")

  handle-Releasable :
      (task : Task) (bid : Bid)
      → Releasable payload w task bid
      → handle_task_completion_requested env event_id (some payload) w
        ≡ release_task env event_id task w
  unfolding handle_task_completion_requested
  handle-Releasable task bid r =
      let named = r.named in
      let (ne_task, ne_escrow) = r.complete_payload in
      let found = r.found in
      let completing = r.is_completing in
      ground
        (arith, eq_iff (completion_fields payload).0 "", eq_iff (completion_fields payload).1 "")

module _ (env : WorkerEnv) (event_id : String) where
  completed_tasks :
      (t : Task) (p : Payload) (w : World)
      → (complete_task env event_id t p w).tasks ≡ upsert task_key t w.tasks
  unfolding complete_task emit
  completed_tasks t p w = refl

  completed_calls :
      (t : Task) (p : Payload) (w : World)
      → (complete_task env event_id t p w).escrow_calls ≡ w.escrow_calls
  unfolding complete_task emit
  completed_calls t p w = refl

  find_completed :
      (t : Task) (p : Payload) (w : World)
      → find_task t.id (complete_task env event_id t p w) ≡ some t
  find_completed t p w =
      ap (find task_key t.id) (completed_tasks t p w)
      ∙ ground (arith, find-upsert task_key t.id t w.tasks, eq_iff t.id t.id)

  release_released :
      (task : Task) (bid : Bid) (release : ReleaseResult) (w : World)
      → selected_bid task.id w ≡ some bid
      → env.server.release_answer w.escrow_calls bid.escrow_id ≡ ok release
      → release_task env event_id task w ≡ (
        none,
        complete_task env event_id
            (as_completed task)
            (Payload.task_completed (to_task_dto (as_completed task)) release event_id)
            (log_call (EscrowCall.release_milestone bid.escrow_id) w),
      )
  unfolding release_task
  release_released task bid release w e a = rw (e, a, release_task) refl

  release_failed :
      (task : Task) (bid : Bid) (message : String) (w : World)
      → selected_bid task.id w ≡ some bid
      → env.server.release_answer w.escrow_calls bid.escrow_id ≡ err message
      → release_task env event_id task w
        ≡ (some message, log_call (EscrowCall.release_milestone bid.escrow_id) w)
  unfolding release_task
  release_failed task bid message w e a = rw (e, a, release_task) refl

  module _ (payload : Payload) (w : World) (task : Task) (bid : Bid)
      (r : Releasable payload w task bid) where
    -- Where the provider releases the milestone of a completing task, the handler succeeds with
    -- one release of the escrow of the selected bid, and the task is COMPLETED. The same event
    -- handled again succeeds as well, and changes nothing.
    pub handle-once :
        (release : ReleaseResult)
        → env.server.release_answer w.escrow_calls bid.escrow_id ≡ ok release
        → let (thrown, w') = handle_task_completion_requested env event_id (some payload) w in
          (thrown ≡ none)
          × (find_task task.id w' ≡ some (as_completed task))
          × (w'.escrow_calls ≡ w.escrow_calls ++ EscrowCall.release_milestone bid.escrow_id ∷ [])
          × (handle_task_completion_requested env event_id (some payload) w' ≡ (none, w'))
    unfolding log_call
    handle-once release answer =
        let same =
          handle-Releasable env event_id payload w task bid r
          ∙ release_released task bid release w r.winner answer in
        let dto = Payload.task_completed (to_task_dto (as_completed task)) release event_id in
        let called = log_call (EscrowCall.release_milestone bid.escrow_id) w in
        let found = find_completed (as_completed task) dto called in
        rw same (
          refl,
          found,
          completed_calls (as_completed task) dto called,
          handle_completed env event_id payload _ (as_completed task) r.named r.complete_payload.0
              r.complete_payload.1 found refl,
        )

    -- Where the provider fails, the handler throws its message, and nothing but the call is
    -- recorded: the task stays COMPLETING, for a retry.
    handle_failed :
        (message : String)
        → env.server.release_answer w.escrow_calls bid.escrow_id ≡ err message
        → handle_task_completion_requested env event_id (some payload) w
          ≡ (some message, log_call (EscrowCall.release_milestone bid.escrow_id) w)
    handle_failed message answer =
        handle-Releasable env event_id payload w task bid r
        ∙ release_failed task bid message w r.winner answer
