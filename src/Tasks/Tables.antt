-- ===== src/Tasks/Tables.antt =====
-- What the handlers of `/tasks` do to the tables of tasks and bids.
use trust_gate.Prelude.{
  ℕ, String, true, ◌≡◌, ◌≢◌, refl, ap, ◌∙◌, ◌⊎◌, inl, inr, none, some, arith, ◌=?◌, Option-cases,
  Bool-cases,
}
use trust_gate.Models.{Task, Bid, TaskStatus}
use trust_gate.Table.{upsert, key-find}
use trust_gate.Schema.{RequestBody, TaskInput, create_task_schema, stroops_of}
use trust_gate.Server.{
  draw_uuid, SameTables, World, Env, Result-cases, find_task, task_key, emit, log_call,
}
use trust_gate.Server.Columns.{task_row}
use trust_gate.Server.Action.{next, Flow-cases}
use trust_gate.Auction.{Selection, AuctionError, selected, refused, select_winner}
use trust_gate.Tasks.{
  publish_task, emit_created, new_task, publish_new, save_and_publish, check_requester,
  charge_listing_fee, create, create_paid, emit_assigned, answer_selection, select,
  admit_completion, complete,
}
use trust_gate.Tasks.Requests.{
  published_tasks, paid_parsed, local_charged, created_input, created_price, created_key,
  create_unstored, created_running, created_charge, created_row, charged_world, paid_refused,
  task_row_fields,
}
use trust_gate.Tasks.Completion.{
  admitted-Entitled, complete_refused, complete_requested, complete_released,
}

module _ (env : Env) where
  published_bids : (row task : Task) (w : World) → (publish_new env row task w).bids ≡ w.bids
  unfolding publish_new publish_task emit_created emit
  published_bids row task w = ground arith

  -- A new task has the next UUID, and is OPEN.
  pub new_task_fields :
      (input : TaskInput) (price : ℕ) (w : World)
      → ((new_task env input price w).id ≡ env.uuid w.uuids)
        × ((new_task env input price w).status ≡ TaskStatus.opened)
  unfolding new_task
  new_task_fields input price w = (refl, refl)

  -- what the handlers of `POST /tasks` make of the tables
  abbrev pub Creates : World → World → Type 0
  Creates w v =
      SameTables w v
      ⊎ ((task : Task) × (task.id ≡ env.uuid w.uuids)
          × (task.status ≡ TaskStatus.opened)
          × (v.tasks ≡ upsert task_key task w.tasks)
          × (v.bids ≡ w.bids))

  -- what `POST /tasks/:id/complete` makes of the tables
  abbrev pub Completes : World → World → Type 0
  Completes w v =
      SameTables w v
      ⊎ ((task : Task) × (s : TaskStatus) × (find_task task.id w ≡ some task)
          × (task.status ≡ TaskStatus.assigned)
          × ((s ≡ TaskStatus.completing) ⊎ (s ≡ TaskStatus.completed))
          × (v.tasks
              ≡ (let done : Task = record task { status = s } in upsert task_key done w.tasks))
          × (v.bids ≡ w.bids))

  Creates-new :
      (input : TaskInput) (price : ℕ) (row : Task) (w w1 : World)
      → w1.uuids ≡ w.uuids
      → SameTables w w1
      → task_row env (new_task env input price w1) ≡ some row
      → Creates w (publish_new env row (new_task env input price w1) (draw_uuid w1))
  Creates-new input price row w w1 uuids (tasks, bids) stored =
      let task = new_task env input price w1 in
      let (id, is_open) = new_task_fields input price w1 in
      let fields = task_row_fields env task row stored in
      inr (
        row,
        ap task_key fields ∙ id ∙ ap env.uuid uuids,
        ap (λ (t : Task). t.status) fields ∙ is_open,
        published_tasks env row task (draw_uuid w1) ∙ ap (upsert task_key row) tasks,
        published_bids row task (draw_uuid w1) ∙ bids,
      )

  module _ (body : RequestBody) (w : World) where
    create_answers : (u : Unit {0}) → (create env body w).0 ≢ next u
    unfolding create save_and_publish check_requester charge_listing_fee
    create_answers u h = ground arith

    pub create-Creates : Creates w (create env body w).1
    create-Creates = elim (Flow-cases (create env body w).0) [
      | inr (u, h) ↦ absurd (create_answers u h)
      | inl (r, h) ↦ elim (Bool-cases (r.status =? 201)) [
        | inr other ↦
            let ne : r.status ≢ 201 = λ e. ground arith in
            let frame = create_unstored env body w r h ne in
            inl (ap (λ (u : World). u.tasks) frame, ap (λ (u : World). u.bids) frame)
        | inl same ↦
            let created : r.status ≡ 201 = ground arith in
            let ((input, secret), parsed) = created_input env body w r h created in
            let (price, amount) = created_price env body w r input secret h created parsed in
            let running = created_running env body w r h created in
            let (a, charge) =
              created_charge env body w r input secret price h created parsed amount in
            let (row, stored) =
              created_row env body w r input secret price a h created parsed amount charge in
            let signer = created_key env body w r input secret price h created parsed amount in
            rw
              (local_charged env body w input secret price a row running parsed amount signer charge
                stored)
              (Creates-new input price row w (charged_world env input.requester price w) refl
                (refl, refl) stored)
      ]
    ]

    pub create_paid_paused : env.safety.pause_new_tasks ≡ true → (create_paid env body w).1 ≡ w
    unfolding create_paid
    create_paid_paused h = ground arith

    create_paid_invalid :
        create_task_schema env.date_parse w.now body ≡ none → (create_paid env body w).1 ≡ w
    unfolding create_paid
    create_paid_invalid h = ground arith

    create_paid_unpriced :
        (input : TaskInput)
        → create_task_schema env.date_parse w.now body ≡ some input
        → stroops_of input.reserve_price ≡ none
        → (create_paid env body w).1 ≡ w
    unfolding create_paid save_and_publish
    create_paid_unpriced input h k = ground arith

    pub create_paid-Creates : Creates w (create_paid env body w).1
    create_paid-Creates = elim (Bool-cases env.safety.pause_new_tasks) [
      | inl paused ↦ rw (create_paid_paused paused) (inl (refl, refl))
      | inr running ↦ elim (Option-cases (create_task_schema env.date_parse w.now body)) [
        | inl invalid ↦ rw (create_paid_invalid invalid) (inl (refl, refl))
        | inr (input, parsed) ↦ elim (Option-cases (stroops_of input.reserve_price)) [
          | inl unpriced ↦ rw (create_paid_unpriced input parsed unpriced) (inl (refl, refl))
          | inr (price, amount) ↦ elim (Option-cases (task_row env (new_task env input price w))) [
            | inl full ↦
                rw (paid_refused env body w input price running parsed amount full)
                  (inl (refl, refl))
            | inr (row, stored) ↦
                rw (paid_parsed env body w input price row running parsed amount stored)
                  (Creates-new input price row w w refl (refl, refl) stored)
          ]
        ]
      ]
    ]

    module _ (task_id : String) where
      Completes-some :
          (task : Task) (bid : Bid)
          → (admit_completion env task_id body w).0 ≡ next (task, bid)
          → Completes w (complete env task_id body w).1
      unfolding emit log_call
      Completes-some task bid h =
          let entitled = admitted-Entitled env task_id body w task bid h in
          let named : find_task task.id w ≡ some task =
            ap (λ i. find_task i w) (key-find task_key task_id w.tasks task entitled.found)
            ∙ entitled.found in
          elim (Bool-cases env.has_outbox) [
            | inl outbox ↦ rw (complete_requested env task_id body w task bid h outbox) (
                inr
                  (task, TaskStatus.completing, named, entitled.is_assigned, inl refl, refl, refl))
            | inr direct ↦ elim (Result-cases (env.release_answer w.escrow_calls bid.escrow_id)) [
              | inl (release, answer) ↦
                  rw (complete_released env task_id body w task bid h direct, answer)
                    (inr (
                      task,
                      TaskStatus.completed,
                      named,
                      entitled.is_assigned,
                      inr refl,
                      refl,
                      refl,
                    ))
              | inr (message, answer) ↦
                  rw (complete_released env task_id body w task bid h direct, answer)
                    (inl (refl, refl))
            ]
          ]

      pub complete-Completes : Completes w (complete env task_id body w).1
      complete-Completes = elim (Flow-cases (admit_completion env task_id body w).0) [
        | inl (r, h) ↦ rw (complete_refused env task_id body w r h) (inl (refl, refl))
        | inr ((task, bid), h) ↦ Completes-some task bid h
      ]

  module _ (w : World) where
    answer_selection_tables :
        (selection : Selection) → SameTables w (answer_selection env selection w).1
    unfolding answer_selection emit_assigned emit
    answer_selection_tables (selected task bid) = elim (Bool-cases env.has_outbox) [
      | inl e ↦ rw (e, answer_selection) (refl, refl)
      | inr e ↦ rw (e, answer_selection) (refl, refl)
    ]
    answer_selection_tables (refused AuctionError.task_not_found) = (refl, refl)
    answer_selection_tables (refused (AuctionError.task_not_open status)) = (refl, refl)
    answer_selection_tables (refused AuctionError.no_bids) = (refl, refl)

  -- `POST /tasks/:id/select` leaves the tables as the auction does.
  pub select_tables :
      (task_id : String) (w : World)
      → SameTables (select_winner task_id w).1 (select env task_id w).1
  unfolding select
  select_tables task_id w =
      answer_selection_tables (select_winner task_id w).1 (select_winner task_id w).0
