-- ===== src/Tasks/Tests.antt =====
-- Creating and completing a task on the local network.
use trust_gate.Table.{find}
use trust_gate.Money.{
  parse_usdc_decimal_to_stroops, is_decimal, trim, after_dot, value_from, strip_start, before_dot,
}
use trust_gate.Schema.{
  create_task_local_request_schema, create_task_schema, string_field, is_public_key, is_amount,
  secret_schema, is_secret_key, complete_task_local_request_schema,
  complete_task_signed_request_schema, stroops_of,
}
use trust_gate.Prelude.{false, ◌≡◌, ◌≢◌, refl, sym, ap, ◌∙◌, arith, [], ℕ, ◌<◌, some}
use trust_gate.Models.{Task, Bid, TaskStatus, to_task_dto, Payload}
use trust_gate.Server.{Env, World, save_task, emit}
use trust_gate.Server.Action.{Body, Response, Flow, next, answered}
use trust_gate.Tasks.{
  create, complete, admit_completion, check_requester, charge_listing_fee, save_and_publish,
  read_requester, check_assigned, create_paid, new_task,
}
use trust_gate.Server.Columns.{task_row, fits_bigint}
use trust_gate.Charge.{attempt_charge}
use trust_gate.Charge
use trust_gate.Retry.{with_retry, loop, default_options}
use trust_gate.Tasks.Creation.{Ends, Created, create-Created, create_paid_accepted}
use trust_gate.Tasks.Completion.{Entitled, complete-Entitled, complete_refused, complete_requested}
use trust_gate.Samples.{
  sample_env, failing_env, sample_world, task_body, complete_body, open_task, assigned_task,
  bid_of_assigned, task_input,
}

abbrev new_task_answer : Response
new_task_answer = record {
  status = 201;
  body =
      let t : Task = record open_task { id = "id-0"; reserve_price_stroops = 100000000 } in
      Body.task (to_task_dto t);
}

created : (create sample_env task_body sample_world).0 ≡ answered new_task_answer
unfolding create check_requester charge_listing_fee save_and_publish task_row fits_bigint
    Charge.charge_listing_fee with_retry loop attempt_charge default_options
    create_task_local_request_schema create_task_schema string_field is_public_key is_amount
    parse_usdc_decimal_to_stroops is_decimal trim after_dot value_from strip_start before_dot
    secret_schema is_secret_key
created = refl

create-Created_example :
    Created sample_env task_body sample_world (create sample_env task_body sample_world).1
create-Created_example =
    create-Created sample_env task_body sample_world new_task_answer created refl

-- a database that refuses every text
abbrev refusing_env : Env
refusing_env = record sample_env { is_text = λ _. false }

abbrev failed : Response
failed = record { status = 500; body = Body.error "Internal Server Error" }

abbrev invalid_request : Response
invalid_request = record { status = 400; body = Body.error "invalid request" }

refused_empty : (create sample_env [] sample_world).0 ≡ answered invalid_request
unfolding create create_task_local_request_schema create_task_schema string_field
refused_empty = refl

entitled :
    (admit_completion sample_env "t2" complete_body sample_world).0
    ≡ next (assigned_task, bid_of_assigned)
unfolding admit_completion read_requester check_assigned complete_task_local_request_schema
    complete_task_signed_request_schema string_field is_public_key secret_schema is_secret_key find
entitled = refl

entitled_failing :
    (admit_completion failing_env "t2" complete_body sample_world).0
    ≡ next (assigned_task, bid_of_assigned)
unfolding admit_completion read_requester check_assigned complete_task_local_request_schema
    complete_task_signed_request_schema string_field is_public_key secret_schema is_secret_key find
entitled_failing = refl

abbrev not_assigned : Response
not_assigned = record {
  status = 409;
  body = Body.error_with_status "task is not assigned" TaskStatus.opened;
}

refused_open :
    (admit_completion sample_env "t1" complete_body sample_world).0 ≡ answered not_assigned
unfolding admit_completion read_requester check_assigned complete_task_local_request_schema
    complete_task_signed_request_schema string_field is_public_key secret_schema is_secret_key find
refused_open = refl

complete_refused_example :
    complete sample_env "t1" complete_body sample_world ≡ (answered not_assigned, sample_world)
complete_refused_example =
    complete_refused sample_env "t1" complete_body sample_world not_assigned refused_open

requested :
    let completing : Task = record assigned_task { status = TaskStatus.completing } in
    complete sample_env "t2" complete_body sample_world ≡ (
      answered (record { status = 202; body = Body.task (to_task_dto completing) }),
      emit sample_env "task_completion_requested" "task" "t2"
          (Payload.completion_requested "t2" "escrow-0")
          (save_task completing sample_world),
    )
requested =
    complete_requested sample_env "t2" complete_body sample_world assigned_task bid_of_assigned
      entitled refl

draws : (complete sample_env "t2" complete_body sample_world).1.uuids ≡ 1
unfolding emit
draws = ap (λ (u : Flow (Unit {0}) × World). u.1.uuids) requested

changed : (complete sample_env "t2" complete_body sample_world).1 ≢ sample_world
changed h =
    let same : sample_world.uuids ≡ 1 = sym (ap (λ (u : World). u.uuids) h) ∙ draws in
    absurd (omega arith)

complete-Entitled_example :
    (task : Task) × (bid : Bid) × Entitled sample_env "t2" complete_body sample_world task bid
    × ((complete sample_env "t2" complete_body sample_world).1.escrow_calls ≡ [])
complete-Entitled_example = complete-Entitled sample_env "t2" complete_body sample_world changed

paid_body : create_task_schema sample_env.date_parse 1000 task_body ≡ some task_input
unfolding create_task_schema string_field is_public_key is_amount parse_usdc_decimal_to_stroops
    is_decimal trim after_dot value_from strip_start before_dot
paid_body = refl

create_paid_accepted_example :
    (price : ℕ) × (stroops_of task_input.reserve_price ≡ some price)
    × (0 < price)
    × (let task = new_task sample_env task_input price sample_world in
        (task.status ≡ TaskStatus.opened)
        × (task.reserve_price_stroops ≡ price)
        × Ends task sample_world
            (create_paid sample_env task_body sample_world)
            (task_row sample_env task))
create_paid_accepted_example =
    create_paid_accepted sample_env task_body sample_world task_input refl paid_body
