-- ===== src/App.antt =====
-- src/app.ts: the routes, with the middlewares that stand before their handlers.
pub mod Access
pub mod Startup
mod Tests
use trust_gate.Prelude.{
  ℕ, String, Text, codes, concat, Bool, true, false, not, ◌||◌, Option, none, some, List, [], ◌∷◌,
  ◌==◌, if◌then◌else◌,
}
use trust_gate.Money.{ℤ, pos, calculate_listing_fee_stroops, format_usdc_stroops_to_decimal}
use trust_gate.Json.{Json}
use trust_gate.Http.{Request}
use trust_gate.Redis.{Redis}
use trust_gate.Schema.{create_task_schema, stroops_of}
use trust_gate.Server.{World, Env}
use trust_gate.Server.Action.{Body, Response, Flow, answered, next, Action}
use trust_gate.Auth.{SignatureAuthOptions, AuthEnv, signature_auth}
use trust_gate.Idempotency.{
  IdempotencyRecord, IdempotencyOptions, PublicKeyFrom, Site, Handler, idempotency,
}
use trust_gate.Timeout.{run_once}
use trust_gate.Bids
use trust_gate.Tasks
use trust_gate.Executors.{register}
use trust_gate.Results.{publish_result}

abbrev pub error_response : ℕ → String → Response
error_response status message = record { status = status; body = Body.error message }

-- what a handler answers, if it does
unfoldable pub answer_of {ℓ} : {A : Type ℓ} → Flow A → Option Response
answer_of (answered r) = some r
answer_of (next a) = none

unfoldable pub handle : Action (Unit {0}) → Handler World
unfolding answer_of
handle action w = let (flow, w') = action w in (answer_of flow, w')

-- the options of `signatureAuth({ matchBodyField: field })`
unfoldable pub auth_options : String → SignatureAuthOptions
auth_options field = record {
  required = true;
  match_body_field = some field;
  nonce_ttl_seconds = 600;
  enforce_in_local = false;
}

unfoldable pub idempotency_options : (scope field : String) → IdempotencyOptions
idempotency_options scope field = record {
  scope = scope;
  public_key_from = PublicKeyFrom.body_field field;
  require_header = true;
}

-- `Payments` is the state of the payment gate of @stellar/mpp: the payments that it has settled.
-- `gate` is what it does with a request, given the amount and the description of the charge.
module _ (redis : Redis) (auth : AuthEnv) (env : Env) where
  -- The nonces and counters, the idempotency keys, and the state of the server.
  pub record App : Type 0 where
    pub store : redis.Store
    pub rows : List IdempotencyRecord
    pub world : World

  -- `idempotencyMw`: there are no keys without a database
  unfoldable pub idempotency_mw :
      IdempotencyOptions → Request → Option String → Handler World → App → Option Response × App
  idempotency_mw options req public_key handler app =
      if env.has_outbox
      then (let (answer, site) =
            idempotency auth.sha256 options req public_key handler
              (record { state = app.world; rows = app.rows }) in
          (answer, record { store = app.store; rows = site.rows; world = site.state }))
      else (let (answer, w) = handler app.world in (answer, record app { world = w }))

  -- a route that only signed requests pass
  unfoldable pub signed_route :
      SignatureAuthOptions
      → IdempotencyOptions
      → Request
      → Handler World
      → App
      → Option Response × App
  unfolding idempotency_mw
  signed_route options keys req handler app =
      let (flow, store) = signature_auth redis auth options req app.store in
      let app1 : App = record app { store = store } in
      elim flow [
        | answered r ↦ (some r, app1)
        | next public_key ↦ idempotency_mw keys req public_key handler app1
      ]

  -- `POST /bids`
  unfoldable pub post_bids : Request → App → Option Response × App
  unfolding signed_route auth_options idempotency_options handle
  post_bids req =
      signed_route (auth_options "executor") (idempotency_options "place_bid" "executor") req
        (handle (Bids.create env req.body))

  -- `POST /tasks/:id/complete`
  unfoldable pub post_complete : String → Request → App → Option Response × App
  unfolding signed_route auth_options idempotency_options handle
  post_complete task_id req =
      signed_route (auth_options "requester") (idempotency_options "complete_task" "requester") req
        (handle (Tasks.complete env task_id req.body))

  -- `POST /executors/register`
  unfoldable pub post_register : Request → App → Option Response × App
  unfolding signed_route auth_options idempotency_options handle
  post_register req =
      signed_route (auth_options "publicKey") (idempotency_options "executor_register" "publicKey")
        req (handle (register env req.body))

  -- `POST /executor/tasks/:taskId/result`
  unfoldable pub post_result : String → Option Json → Request → App → Option Response × App
  unfolding signed_route auth_options idempotency_options handle
  post_result task_id payload req =
      signed_route (auth_options "executorPublicKey")
        (idempotency_options "publish_result" "executorPublicKey") req
        (handle (publish_result env task_id req.body payload))

  -- `POST /tasks` on the local network
  unfoldable pub post_tasks_local : Request → App → Option Response × App
  unfolding idempotency_mw idempotency_options handle
  post_tasks_local req =
      idempotency_mw (idempotency_options "create_task" "requester") req none
        (handle (Tasks.create env req.body))

  -- `adminAuth` of src/middlewares/adminAuth.ts
  unfoldable pub admin_auth : (admin_secret : String) → Request → Bool
  admin_auth admin_secret req =
      not (
        (admin_secret == "")
        || ((req.admin_secret == "") || not (req.admin_secret == admin_secret)))

  -- `POST /tasks/:id/select`
  unfoldable pub post_select :
      (admin_secret task_id : String) → Request → App → Option Response × App
  unfolding idempotency_mw admin_auth handle
  post_select admin_secret task_id req app =
      if admin_auth admin_secret req
      then idempotency_mw
          (record {
            scope = "select_bid";
            public_key_from = PublicKeyFrom.nowhere;
            require_header = true;
          })
          req none (handle (Tasks.select env task_id)) app
      else (some (error_response 401 "unauthorized"), app)

  -- `POST /admin/timeout-check`
  unfoldable pub post_timeout_check :
      (admin_secret : String) → Request → App → Option Response × App
  unfolding admin_auth
  post_timeout_check admin_secret req app =
      if admin_auth admin_secret req
      then (let (ids, w) = run_once env app.world in
          (
            some (record { status = 200; body = Body.expired_task_ids ids }),
            record app { world = w },
          ))
      else (some (error_response 401 "unauthorized"), app)

  module _ {Payments : Type 0}
      (gate : (amount : Text)
        → (description : String) → Request
        → Payments
        → Flow (Unit {0}) × Payments) where
    -- `POST /tasks` on the other networks: the gate settles the listing fee before anything else but
    -- the body is looked at
    unfoldable pub post_tasks_paid : Request → App → Payments → Option Response × App × Payments
    unfolding signed_route auth_options idempotency_options handle concat
    post_tasks_paid req app payments =
        elim (create_task_schema env.date_parse app.world.now req.body) [
          | none ↦ (some (error_response 400 "invalid request"), app, payments)
          | some input ↦ elim (stroops_of input.reserve_price) [
            | none ↦ (none, app, payments)
            | some price ↦
                let amount =
                  format_usdc_stroops_to_decimal (pos (calculate_listing_fee_stroops price)) in
                let (flow, paid) =
                  gate amount (concat "Listing fee for task by " input.requester) req payments in
                elim flow [
                  | answered r ↦ (some r, app, paid)
                  | next passed ↦
                      let (answer, app1) =
                        signed_route (auth_options "requester")
                          (idempotency_options "create_task" "requester") req
                          (handle (Tasks.create_paid env req.body)) app in
                      (answer, app1, paid)
                ]
          ]
        ]
