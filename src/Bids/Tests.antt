-- ===== src/Bids/Tests.antt =====
-- A bid on the local network.
use trust_gate.Money.{
  parse_usdc_decimal_to_stroops, is_decimal, trim, after_dot, before_dot, value_from, strip_start,
}
use trust_gate.Prelude.{◌≡◌, refl, codes, some, [], ◌∷◌}
use trust_gate.Models.{Task, TaskStatus, BidStatus, to_bid_dto}
use trust_gate.Server.{draw_uuid, EscrowCall, find_task, log_call}
use trust_gate.Server.Columns.{takes_bid, fits_bigint}
use trust_gate.Server.Action.{Body, Response, next, answered}
use trust_gate.Schema.{
  RequestBody, str, create_bid_local_schema, create_bid_signed_schema, string_field, is_public_key,
  is_amount, secret_schema, is_secret_key,
}
use trust_gate.Table.{find}
use trust_gate.Auction.Effect.{as_assigned}
use trust_gate.Bids.{check_secret, read_input, authorize, admit, create, lock_collateral, store_bid}
use trust_gate.Bids.Placement.{create_refused, create_assigns}
use trust_gate.Samples.Keys.{sample_bids-IsKeyed}
use trust_gate.Samples.{sample_env, failing_env, sample_world, bid_body, bid_input, ada, ada_secret}

admitted : (admit sample_env bid_body sample_world).0 ≡ next bid_input
unfolding admit read_input check_secret authorize create_bid_local_schema create_bid_signed_schema
    string_field is_public_key is_amount parse_usdc_decimal_to_stroops is_decimal trim after_dot
    before_dot value_from strip_start secret_schema is_secret_key find
admitted = refl

admitted_failing : (admit failing_env bid_body sample_world).0 ≡ next bid_input
unfolding admit read_input check_secret authorize create_bid_local_schema create_bid_signed_schema
    string_field is_public_key is_amount parse_usdc_decimal_to_stroops is_decimal trim after_dot
    before_dot value_from strip_start secret_schema is_secret_key find
admitted_failing = refl

abbrev invalid_request : Response
invalid_request = record { status = 400; body = Body.error "invalid request" }

refused_empty : (admit sample_env [] sample_world).0 ≡ answered invalid_request
unfolding admit read_input create_bid_local_schema create_bid_signed_schema string_field
refused_empty = refl

create_refused_example :
    create sample_env [] sample_world ≡ (answered invalid_request, sample_world)
create_refused_example = create_refused sample_env [] sample_world invalid_request refused_empty

abbrev big_body : RequestBody
big_body =
    ("taskId", str "t1")
    ∷ ("executor", str ada)
    ∷ ("amount", str "1000000000000")
    ∷ ("collateral", str "2")
    ∷ ("secret", str ada_secret)
    ∷ []

abbrev failed : Response
failed = record { status = 500; body = Body.error "Internal Server Error" }

-- an amount beyond the bigint column, whose collateral stays locked
big_refused : create sample_env big_body sample_world ≡ (
  answered failed,
  draw_uuid (log_call (EscrowCall.create_escrow ada "t1" (codes "2")) sample_world),
)
unfolding create admit read_input check_secret authorize create_bid_local_schema
    create_bid_signed_schema string_field is_public_key is_amount parse_usdc_decimal_to_stroops
    is_decimal trim after_dot before_dot value_from strip_start secret_schema is_secret_key find
    lock_collateral store_bid takes_bid fits_bigint
big_refused = refl

abbrev created_response : Response
created_response = record {
  status = 201;
  body = Body.bid (
      to_bid_dto (record {
        id = "id-0";
        task_id = "t1";
        executor_public_key = ada;
        amount_stroops = 15000000;
        collateral_stroops = 20000000;
        escrow_id = "escrow-1";
        status = BidStatus.pending;
        created_at = 1000;
      }));
}

created : (create sample_env bid_body sample_world).0 ≡ answered created_response
unfolding create admit read_input check_secret authorize create_bid_local_schema
    create_bid_signed_schema string_field is_public_key is_amount parse_usdc_decimal_to_stroops
    is_decimal trim after_dot before_dot value_from strip_start secret_schema is_secret_key find
    lock_collateral store_bid takes_bid fits_bigint
created = refl

create_assigns_example :
    (t : Task) × (find_task "t1" sample_world ≡ some t)
    × (t.status ≡ TaskStatus.opened)
    × (find_task "t1" (create sample_env bid_body sample_world).1 ≡ some (as_assigned t))
create_assigns_example =
    create_assigns sample_env bid_body sample_world bid_input created_response admitted created refl
      sample_bids-IsKeyed
