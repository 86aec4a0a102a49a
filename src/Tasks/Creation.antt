-- ===== src/Tasks/Creation.antt =====
-- What the two handlers of `POST /tasks` leave behind.
use trust_gate.Prelude.{
  ◌<◌, sym, Option, ℕ, String, false, ◌≡◌, refl, ap, ◌∙◌, none, some, ◌++◌, Option-cases, inl, inr,
}
use trust_gate.Money.{calculate_listing_fee_stroops}
use trust_gate.Models.{Task, TaskStatus, to_task_dto}
use trust_gate.Schema.{
  RequestBody, TaskInput, create_task_schema, create_task_local_request_schema, stroops_of,
}
use trust_gate.Schema.Accepted.{create_task_schema-IsTaskInput}
use trust_gate.Server.{draw_uuid, World, Env, find_task, task_key}
use trust_gate.Server.Columns.{task_row}
use trust_gate.Charge.{transfers}
use trust_gate.Charge.Sending.{Paid, charge_listing_fee-Paid}
use trust_gate.Server.Action.{Body, Response, Flow, answered}
use trust_gate.Tasks.{new_task, publish_new, create, create_paid}
use trust_gate.Tasks.Requests.{
  task_row_fields, published_charges, find_published, sent_count, charged_world, paid_parsed,
  paid_refused, local_charged, created_input, created_price, created_running, created_key,
  created_charge, created_row,
}

-- How an accepted request ends, by the row that the database makes of its task: with 201 and that
-- row stored, or with 500 and no change.
abbrev pub Ends : Task → (before : World) → Flow (Unit {0}) × World → Option Task → Type 0
Ends task before run none = run ≡ (
  answered (record { status = 500; body = Body.error "Internal Server Error" }),
  draw_uuid before,
)
Ends task before run (some row) =
    (run.0 ≡ answered (record { status = 201; body = Body.task (to_task_dto task) }))
    × (find_task task.id run.1 ≡ some row)

module _ (env : Env) (body : RequestBody) (w : World) where
  -- Behind the payment gate, while tasks are not paused, a body that the task schema accepts names a
  -- positive price, and its new task is OPEN with that price; where the database takes the task, the
  -- answer is 201, and the row of the task is stored, and where it refuses it, after the payment, the
  -- answer is 500, and nothing is stored.
  pub create_paid_accepted :
      (input : TaskInput)
      → env.safety.pause_new_tasks ≡ false
      → create_task_schema env.date_parse w.now body ≡ some input
      → (price : ℕ) × (stroops_of input.reserve_price ≡ some price)
        × (0 < price)
        × (let task = new_task env input price w in
            (task.status ≡ TaskStatus.opened)
            × (task.reserve_price_stroops ≡ price)
            × Ends task w (create_paid env body w) (task_row env task))
  unfolding new_task
  create_paid_accepted input running parsed =
      let (price, amount, positive) =
        (create_task_schema-IsTaskInput env.date_parse w.now body parsed).reserve_price in
      let task = new_task env input price w in
      (
        price,
        amount,
        positive,
        (
          refl,
          refl,
          elim (Option-cases (task_row env task)) [
            | inl refused ↦
                rw refused (paid_refused env body w input price running parsed amount refused)
            | inr (row, stored) ↦
                let same = paid_parsed env body w input price row running parsed amount stored in
                let id : row.id ≡ task.id = ap task_key (task_row_fields env task row stored) in
                rw stored (
                  ap (λ (r : Flow (Unit {0}) × World). r.0) same,
                  ap (λ (r : Flow (Unit {0}) × World). find_task task.id r.1) same
                      ∙ ap (λ i. find_task i (publish_new env row task (draw_uuid w))) (sym id)
                      ∙ find_published env row task (draw_uuid w),
                )
          ],
        ),
      )

-- The task that a request has created, as it is stored.
pub record Created (env : Env) (body : RequestBody) (w w' : World) : Type 0 where
  pub input : TaskInput
  pub secret : String
  pub price : ℕ
  pub parsed : create_task_local_request_schema env.date_parse w.now body ≡ some (input, secret)
  pub amount : stroops_of input.reserve_price ≡ some price
  pub signer : env.key_of_secret secret ≡ some input.requester
  pub sent : ℕ
  pub charged :
      w'.charges ≡ w.charges ++ transfers sent input.requester (calculate_listing_fee_stroops price)
  pub paid :
      Paid (env.token_contract w.charges input.requester) (calculate_listing_fee_stroops price) sent
  pub task : Task
  pub is_open : task.status ≡ TaskStatus.opened
  pub owner : task.requester_public_key ≡ input.requester
  pub reserve : task.reserve_price_stroops ≡ price
  pub found : find_task task.id w' ≡ some task

module _ (env : Env) (body : RequestBody) (w : World) where
  -- On the local network, a request that is answered with 201 was signed by the secret of its
  -- requester, and its task is stored, OPEN, with its reserve price. The transfers that were sent are
  -- of the listing fee of that price: at least one, at most one for each of at most four attempts, of
  -- which the last was accepted, and those before it failed with an error that looks transient.
  pub create-Created :
      (r : Response)
      → (create env body w).0 ≡ answered r
      → r.status ≡ 201
      → Created env body w (create env body w).1
  unfolding new_task
  create-Created r h ok =
      let ((input, secret), parsed) = created_input env body w r h ok in
      let (price, amount) = created_price env body w r input secret h ok parsed in
      let signer = created_key env body w r input secret price h ok parsed amount in
      let (a, charge) = created_charge env body w r input secret price h ok parsed amount in
      let (row, stored) = created_row env body w r input secret price a h ok parsed amount charge in
      let v = charged_world env input.requester price w in
      let task = new_task env input price v in
      let fields = task_row_fields env task row stored in
      let same =
        ap (λ (u : Flow (Unit {0}) × World). u.1)
          (local_charged env body w input secret price a row (created_running env body w r h ok)
            parsed amount signer charge stored) in
      record {
        input = input;
        secret = secret;
        price = price;
        parsed = parsed;
        amount = amount;
        signer = signer;
        sent = sent_count env input.requester price w;
        charged = ap (λ (u : World). u.charges) same ∙ published_charges env row task (draw_uuid v);
        paid =
            charge_listing_fee-Paid (env.token_contract w.charges input.requester) price a charge;
        task = row;
        is_open = ap (λ (t : Task). t.status) fields;
        owner = ap (λ (t : Task). t.requester_public_key) fields;
        reserve = ap (λ (t : Task). t.reserve_price_stroops) fields;
        found = ap (find_task row.id) same ∙ find_published env row task (draw_uuid v);
      }
