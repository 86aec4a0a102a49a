-- ===== src/Tasks/Requests.antt =====
-- How a request of `POST /tasks` goes, branch by branch.
use trust_gate.Prelude.{
  List, ℕ, ◌+◌, String, false, ◌≡◌, ◌≢◌, refl, ap, ◌∙◌, none, some, ◌++◌, eq_iff, arith,
  Option-cases, Bool-cases, inl, inr,
}
use trust_gate.Money.{calculate_listing_fee_stroops}
use trust_gate.Models.{Task, to_task_dto}
use trust_gate.Table.{upsert, find, find-upsert}
use trust_gate.Schema.{
  RequestBody, TaskInput, create_task_schema, create_task_local_request_schema, stroops_of,
}
use trust_gate.Server.{draw_uuid, World, Env, find_task, task_key, emit}
use trust_gate.Server.Columns.{task_row}
use trust_gate.Retry.{Outcome, value, Step, Outcome-cases}
use trust_gate.Charge.{ChargeFailure, ChargeResult, count_sent, transfers}
use trust_gate.Charge
use trust_gate.Server.Action.{Body, Response, answered, next}
use trust_gate.Tasks.{
  publish_task, emit_created, new_task, publish_new, save_and_publish, check_requester,
  charge_listing_fee, create, create_paid,
}

-- The row of a task differs from it only in the text of the deadline.
pub task_row_fields :
    (env : Env) (task row : Task)
    → task_row env task ≡ some row
    → row ≡ (record task { deadline = row.deadline })
unfolding task_row
task_row_fields env task row h = ground arith

module _ (env : Env) (row task : Task) (w : World) where
  pub published_tasks : (publish_new env row task w).tasks ≡ upsert task_key row w.tasks
  unfolding publish_new publish_task emit_created emit
  published_tasks = elim (Bool-cases env.has_outbox) [
    | inl o ↦ elim (Bool-cases (env.publish_fails (w.sequence + 1))) [
      | inl e ↦ rw (o, e) refl
      | inr e ↦ rw (o, e) refl
    ]
    | inr o ↦ elim (Bool-cases (env.publish_fails (w.sequence + 1))) [
      | inl e ↦ rw (o, e) refl
      | inr e ↦ rw (o, e) refl
    ]
  ]

  pub published_charges : (publish_new env row task w).charges ≡ w.charges
  unfolding publish_new publish_task emit_created emit
  published_charges = elim (Bool-cases env.has_outbox) [
    | inl o ↦ elim (Bool-cases (env.publish_fails (w.sequence + 1))) [
      | inl e ↦ rw (o, e) refl
      | inr e ↦ rw (o, e) refl
    ]
    | inr o ↦ elim (Bool-cases (env.publish_fails (w.sequence + 1))) [
      | inl e ↦ rw (o, e) refl
      | inr e ↦ rw (o, e) refl
    ]
  ]

  pub find_published : find_task row.id (publish_new env row task w) ≡ some row
  find_published =
      ap (find task_key row.id) published_tasks
      ∙ ground (arith, find-upsert task_key row.id row w.tasks, eq_iff row.id row.id)

module _ (env : Env) (requester : String) (price : ℕ) (w : World) where
  abbrev pub fee : ℕ
  fee = calculate_listing_fee_stroops price

  -- the call of `chargeListingFee`
  abbrev pub charge_run :
      Outcome ChargeFailure ChargeResult × List (Step ChargeFailure ChargeResult)
  charge_run = Charge.charge_listing_fee (env.token_contract w.charges requester) price

  abbrev pub sent_count : ℕ
  sent_count = count_sent (env.token_contract w.charges requester) fee charge_run.1

  abbrev pub charged_world : World
  charged_world = record w { charges = w.charges ++ transfers sent_count requester fee }

  pub charge_value :
      (a : ChargeResult)
      → charge_run.0 ≡ value a
      → charge_listing_fee env requester price w ≡ (next tt, charged_world)
  unfolding charge_listing_fee
  charge_value a h = rw h refl

  charge_next :
      (charge_listing_fee env requester price w).0 ≡ next tt
      → (a : ChargeResult) × (charge_run.0 ≡ value a)
  unfolding charge_listing_fee
  charge_next h = elim (Outcome-cases charge_run.0) [
    | inl found ↦ found
    | inr (e, failed) ↦ absurd (ground arith)
  ]

module _ (env : Env) (body : RequestBody) (w : World) where
  pub paid_parsed :
      (input : TaskInput) (price : ℕ) (row : Task)
      → env.safety.pause_new_tasks ≡ false
      → create_task_schema env.date_parse w.now body ≡ some input
      → stroops_of input.reserve_price ≡ some price
      → task_row env (new_task env input price w) ≡ some row
      → create_paid env body w ≡ (
        answered
            (record { status = 201; body = Body.task (to_task_dto (new_task env input price w)) }),
        publish_new env row (new_task env input price w) (draw_uuid w),
      )
  unfolding create_paid save_and_publish
  paid_parsed input price row running parsed amount stored = ground arith

  pub paid_refused :
      (input : TaskInput) (price : ℕ)
      → env.safety.pause_new_tasks ≡ false
      → create_task_schema env.date_parse w.now body ≡ some input
      → stroops_of input.reserve_price ≡ some price
      → task_row env (new_task env input price w) ≡ none
      → create_paid env body w ≡ (
        answered (record { status = 500; body = Body.error "Internal Server Error" }),
        draw_uuid w,
      )
  unfolding create_paid save_and_publish
  paid_refused input price running parsed amount refused = ground arith

  pub local_charged :
      (input : TaskInput) (secret : String) (price : ℕ) (a : ChargeResult) (row : Task)
      → env.safety.pause_new_tasks ≡ false
      → create_task_local_request_schema env.date_parse w.now body ≡ some (input, secret)
      → stroops_of input.reserve_price ≡ some price
      → env.key_of_secret secret ≡ some input.requester
      → (charge_run env input.requester price w).0 ≡ value a
      → let w1 = charged_world env input.requester price w in
        task_row env (new_task env input price w1) ≡ some row
        → create env body w ≡ (
          answered (record {
            status = 201;
            body = Body.task (to_task_dto (new_task env input price w1));
          }),
          publish_new env row (new_task env input price w1) (draw_uuid w1),
        )
  unfolding create save_and_publish check_requester
  local_charged input secret price a row running parsed amount key charged stored = ground (
    arith,
    eq_iff input.requester input.requester,
    charge_value env input.requester price w a charged,
  )

  pub create_unstored :
      (r : Response)
      → (create env body w).0 ≡ answered r
      → r.status ≢ 201
      → (create env body w).1 ≡ (record w {
        charges = (create env body w).1.charges;
        uuids = (create env body w).1.uuids;
      })
  unfolding create save_and_publish check_requester charge_listing_fee
  create_unstored r h ne = ground arith

  -- the body of a request that is answered with 201
  pub created_input :
      (r : Response)
      → (create env body w).0 ≡ answered r
      → r.status ≡ 201
      → (p : TaskInput × String) × (create_task_local_request_schema env.date_parse w.now body
          ≡ some p)
  unfolding create save_and_publish check_requester charge_listing_fee
  created_input r h ok =
      elim (Option-cases (create_task_local_request_schema env.date_parse w.now body)) [
        | inl missing ↦ absurd (ground arith)
        | inr found ↦ found
      ]

  pub created_price :
      (r : Response) (input : TaskInput) (secret : String)
      → (create env body w).0 ≡ answered r
      → r.status ≡ 201
      → create_task_local_request_schema env.date_parse w.now body ≡ some (input, secret)
      → (price : ℕ) × (stroops_of input.reserve_price ≡ some price)
  unfolding create save_and_publish check_requester charge_listing_fee
  created_price r input secret h ok e = elim (Option-cases (stroops_of input.reserve_price)) [
    | inl missing ↦ absurd (ground arith)
    | inr found ↦ found
  ]

  pub created_running :
      (r : Response)
      → (create env body w).0 ≡ answered r
      → r.status ≡ 201
      → env.safety.pause_new_tasks ≡ false
  unfolding create save_and_publish check_requester charge_listing_fee
  created_running r h ok = ground arith

  pub created_key :
      (r : Response) (input : TaskInput) (secret : String) (price : ℕ)
      → (create env body w).0 ≡ answered r
      → r.status ≡ 201
      → create_task_local_request_schema env.date_parse w.now body ≡ some (input, secret)
      → stroops_of input.reserve_price ≡ some price
      → env.key_of_secret secret ≡ some input.requester
  unfolding create save_and_publish check_requester charge_listing_fee
  created_key r input secret price h ok e amount = elim (Option-cases (env.key_of_secret secret)) [
    | inl missing ↦ absurd (ground arith)
    | inr (k, found) ↦ ground (arith, eq_iff k input.requester)
  ]

  pub created_charge :
      (r : Response) (input : TaskInput) (secret : String) (price : ℕ)
      → (create env body w).0 ≡ answered r
      → r.status ≡ 201
      → create_task_local_request_schema env.date_parse w.now body ≡ some (input, secret)
      → stroops_of input.reserve_price ≡ some price
      → (a : ChargeResult) × ((charge_run env input.requester price w).0 ≡ value a)
  unfolding create save_and_publish check_requester charge_listing_fee
  created_charge r input secret price h ok e amount =
      elim (Outcome-cases (charge_run env input.requester price w).0) [
        | inl found ↦ found
        | inr (x, failed) ↦ absurd (ground arith)
      ]

  pub created_row :
      (r : Response) (input : TaskInput) (secret : String) (price : ℕ) (a : ChargeResult)
      → (create env body w).0 ≡ answered r
      → r.status ≡ 201
      → create_task_local_request_schema env.date_parse w.now body ≡ some (input, secret)
      → stroops_of input.reserve_price ≡ some price
      → (charge_run env input.requester price w).0 ≡ value a
      → (row : Task) × (task_row env
            (new_task env input price (charged_world env input.requester price w))
          ≡ some row)
  unfolding create save_and_publish check_requester
  created_row r input secret price a h ok e amount charged =
      let w1 = charged_world env input.requester price w in
      elim (Option-cases (task_row env (new_task env input price w1))) [
        | inl refused ↦ absurd (ground (arith, charge_value env input.requester price w a charged))
        | inr found ↦ found
      ]
