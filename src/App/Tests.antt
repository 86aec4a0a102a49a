-- ===== src/App/Tests.antt =====
-- Signed requests, a paid task while tasks are paused, and a server on testnet.
use trust_gate.Prelude.{String, Text, ◌≡◌, ◌≢◌, refl, ◌⊎◌, true, false, some, none, List, [], ◌∷◌}
use trust_gate.Money.{
  pos, format_usdc_stroops_to_decimal, calculate_listing_fee_stroops, parse_usdc_decimal_to_stroops,
  is_decimal, trim, after_dot, value_from, strip_start, before_dot,
}
use trust_gate.Schema.{create_task_schema, stroops_of, string_field, is_public_key, is_amount}
use trust_gate.Samples.{ada, sample_env, sample_world, sample_safety, task_body, task_input}
use trust_gate.Samples.Signing.{signing_env, signed_request}
use trust_gate.Auth.Memory.{memory, empty_memory}
use trust_gate.Auth.Accepted.{IsAuthentic}
use trust_gate.Auth.{server_nonce_key}
use trust_gate.Http.{Request}
use trust_gate.Server.{Env, ok}
use trust_gate.Server.Action.{Flow, next}
use trust_gate.Bids
use trust_gate.App.{App, handle, auth_options, idempotency_options, signed_route, post_tasks_paid}
use trust_gate.App.Access.{signed_route-IsAuthentic, post_tasks_paid_paused}
use trust_gate.App.Startup.{Network, Settings, Services, Choice, create_app, marketplace_wallet}
use trust_gate.App.Startup.Real.{create_app-real}

abbrev sample_app : App memory signing_env sample_env
sample_app = record { store = empty_memory; rows = []; world = sample_world }

signed_route-IsAuthentic_example :
    (((signed_route memory signing_env sample_env
          (auth_options "executor")
          (idempotency_options "place_bid" "executor")
          signed_request
          (handle (Bids.create sample_env signed_request.body))
          sample_app).1.world
        ≡ sample_world)
      × ((signed_route memory signing_env sample_env
            (auth_options "executor")
            (idempotency_options "place_bid" "executor")
            signed_request
            (handle (Bids.create sample_env signed_request.body))
            sample_app).1.rows
          ≡ []))
    ⊎ (IsAuthentic memory signing_env (auth_options "executor") signed_request
        × ((memory.get (server_nonce_key ada "n1") empty_memory ≡ some "1000") ⊎ (false ≡ true)))
unfolding auth_options
signed_route-IsAuthentic_example =
    signed_route-IsAuthentic memory signing_env sample_env (auth_options "executor")
      (idempotency_options "place_bid" "executor") signed_request
      (handle (Bids.create sample_env signed_request.body)) sample_app refl refl refl

abbrev paused_env : Env
paused_env = record sample_env { safety = record sample_safety { pause_new_tasks = true } }

abbrev paused_app : App memory signing_env paused_env
paused_app = record { store = empty_memory; rows = []; world = sample_world }

abbrev task_request : Request
task_request = record signed_request { url = "/tasks"; body = task_body }

-- a gate that keeps the amounts that it has settled
abbrev settling : Text → String → Request → List Text → Flow (Unit {0}) × List Text
settling amount description req payments = (next tt, amount ∷ payments)

task_parsed : create_task_schema paused_env.date_parse 1000 task_body ≡ some task_input
unfolding create_task_schema string_field is_public_key is_amount parse_usdc_decimal_to_stroops
    is_decimal trim after_dot value_from strip_start before_dot
task_parsed = refl

task_priced : stroops_of task_input.reserve_price ≡ some 100000000
unfolding stroops_of parse_usdc_decimal_to_stroops is_decimal trim after_dot value_from strip_start
    before_dot
task_priced = refl

post_tasks_paid_paused_example :
    let (answer, app1, payments1) =
      post_tasks_paid memory signing_env paused_env settling task_request paused_app [] in
    (payments1
      ≡ (settling
          (format_usdc_stroops_to_decimal (pos (calculate_listing_fee_stroops 100000000)))
          ""
          task_request
          []).1)
    × (app1.world ≡ sample_world)
post_tasks_paid_paused_example =
    post_tasks_paid_paused memory signing_env paused_env settling task_request paused_app []
      (format_usdc_stroops_to_decimal (pos (calculate_listing_fee_stroops 100000000)) ∷ [])
      task_input 100000000 refl task_parsed task_priced refl

abbrev testnet_settings : Settings
testnet_settings = record {
  network = Network.testnet;
  is_test = false;
  mock_externals = "true";
  marketplace_wallet = some ada;
  admin_secret = "";
  registry_contract_id = "C";
  database_url = "postgres";
  redis_url = "redis";
  worker_enabled = "";
  usdc_issuer = "I";
  mpp_secret_key = "M";
  trustless_work_api_key = "K";
}

abbrev testnet_services : Services
testnet_services = record {
  wallet = ada;
  registry = Choice.real;
  charge = Choice.real;
  escrow = Choice.real;
  has_pool = true;
  has_listing_fee_gate = true;
}

started : create_app (λ _. none) testnet_settings ≡ ok testnet_services
unfolding create_app marketplace_wallet
started = refl

create_app-real_example :
    (Choice.real ≡ Choice.real)
    × (Choice.real ≡ Choice.real)
    × (Choice.real ≡ Choice.real)
    × (true ≡ true)
    × ((false ≡ true) ⊎ (true ≡ true))
    × (testnet_settings.mpp_secret_key ≢ "")
    × (testnet_settings.trustless_work_api_key ≢ "")
    × (testnet_settings.usdc_issuer ≢ "")
    × (testnet_settings.registry_contract_id ≢ "")
create_app-real_example =
    create_app-real (λ _. none) testnet_settings testnet_services started (λ e. cc)
