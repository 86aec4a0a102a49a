-- ===== src/Worker/Tables.antt =====
-- What a requested completion does to the tables of tasks and bids.
use trust_gate.Prelude.{
  String, true, false, ◌||◌, ◌≡◌, refl, ap, ◌∙◌, ◌⊎◌, inl, inr, Option, none, some, arith, ◌==◌,
  Bool-cases, Option-cases,
}
use trust_gate.Models.{Task, TaskStatus, is_completed, is_completing, Payload}
use trust_gate.Table.{upsert, key-find}
use trust_gate.Server.{
  SameTables, World, Result-cases, find_task, selected_bid, task_key, emit, log_call,
}
use trust_gate.Worker.{
  WorkerEnv, completion_fields, complete_task, release_task, handle_task_completion_requested,
}
use trust_gate.Worker.Releases.{as_completed}

module _ (env : WorkerEnv) where
  abbrev pub Releases : World → World → Type 0
  Releases w v =
      SameTables w v
      ⊎ ((task : Task) × (find_task task.id w ≡ some task)
          × (task.status ≡ TaskStatus.completing)
          × (v.tasks ≡ upsert task_key (as_completed task) w.tasks)
          × (v.bids ≡ w.bids))

  release_task-Releases :
      (event_id : String) (task : Task) (w : World)
      → find_task task.id w ≡ some task
      → task.status ≡ TaskStatus.completing
      → Releases w (release_task env event_id task w).1
  unfolding release_task complete_task emit log_call
  release_task-Releases event_id task w found completing =
      elim (Option-cases (selected_bid task.id w)) [
        | inl e ↦ rw (e, release_task) (inl (refl, refl))
        | inr (bid, e) ↦
            elim (Result-cases (env.server.release_answer w.escrow_calls bid.escrow_id)) [
              | inl (release, a) ↦
                  rw (e, a, release_task) (inr (task, found, completing, refl, refl))
              | inr (message, a) ↦ rw (e, a, release_task) (inl (refl, refl))
            ]
      ]

  completing_of : (s : TaskStatus) → is_completing s ≡ true → s ≡ TaskStatus.completing
  completing_of s h = ground arith

  handle_named :
      (event_id : String) (payload : Payload) (w : World) (task : Task)
      → ((completion_fields payload).0 == "") || ((completion_fields payload).1 == "") ≡ false
      → find_task (completion_fields payload).0 w ≡ some task
      → Releases w (handle_task_completion_requested env event_id (some payload) w).1
  unfolding handle_task_completion_requested
  handle_named event_id payload w task full found = elim (Bool-cases (is_completed task.status)) [
    | inl done ↦ rw (full, found, done, handle_task_completion_requested) (inl (refl, refl))
    | inr undone ↦ elim (Bool-cases (is_completing task.status)) [
      | inr n ↦ rw (full, found, undone, n, handle_task_completion_requested) (inl (refl, refl))
      | inl y ↦
          let named : find_task task.id w ≡ some task =
            ap (λ i. find_task i w)
              (key-find task_key (completion_fields payload).0 w.tasks task found)
            ∙ found in
          rw (full, found, undone, y, handle_task_completion_requested)
            (release_task-Releases event_id task w named (completing_of task.status y))
    ]
  ]

  pub handle-Releases :
      (event_id : String) (payload : Option Payload) (w : World)
      → Releases w (handle_task_completion_requested env event_id payload w).1
  unfolding handle_task_completion_requested
  handle-Releases event_id none w = inl (refl, refl)
  handle-Releases event_id (some payload) w =
      elim (Bool-cases
        (((completion_fields payload).0 == "") || ((completion_fields payload).1 == ""))) [
          | inl e ↦ rw (e, handle_task_completion_requested) (inl (refl, refl))
          | inr full ↦ elim (Option-cases (find_task (completion_fields payload).0 w)) [
            | inl missing ↦ rw (full, missing, handle_task_completion_requested) (inl (refl, refl))
            | inr (task, found) ↦ handle_named event_id payload w task full found
          ]
        ]
