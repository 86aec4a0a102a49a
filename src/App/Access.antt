-- ===== src/App/Access.antt =====
-- Who gets through to a handler, and what it costs.
use trust_gate.Prelude.{
  ℕ, String, Text, concat, true, false, ◌≡◌, refl, ap, ◌∙◌, ◌⊎◌, inl, inr, Option, some, ◌==◌,
  arith, Bool-cases, Option-cases,
}
use trust_gate.Money.{pos, calculate_listing_fee_stroops, format_usdc_stroops_to_decimal}
use trust_gate.Http.{Request}
use trust_gate.Redis.{Redis}
use trust_gate.Schema.{TaskInput, create_task_schema, stroops_of}
use trust_gate.Table.{find}
use trust_gate.Server.{World, Env}
use trust_gate.Server.Action.{Response, Flow, answered, next, Flow-cases}
use trust_gate.Auth.{
  SignatureAuthOptions, AuthEnv, server_nonce_key, has_headers, authenticate, signature_auth,
}
use trust_gate.Auth.Accepted.{IsAuthentic, authenticate_next, signature_auth-IsAuthentic}
use trust_gate.Idempotency.{
  IdempotencyOptions, idempotency_key, Site, Handler, run_handler, idempotency,
}
use trust_gate.Tasks
use trust_gate.Tasks.Tables.{create_paid_paused}
use trust_gate.App.{
  App, handle, auth_options, idempotency_options, idempotency_mw, signed_route, post_tasks_paid,
}

module _ (redis : Redis) (auth : AuthEnv) (env : Env) where
  -- On a network other than local, a required signature is not passed without a key.
  passed_with_key :
      (options : SignatureAuthOptions) (req : Request) (s : redis.Store) (passed : Option String)
      → auth.is_local ≡ false
      → auth.is_test ≡ false
      → options.required ≡ true
      → (signature_auth redis auth options req s).0 ≡ next passed
      → (k : String) × (passed ≡ some k)
  unfolding signature_auth
  passed_with_key options req s passed live untested must h =
      elim (Bool-cases (has_headers redis auth req)) [
        | inl full ↦
            let through : (authenticate redis auth options req s).0 ≡ next passed = ground arith in
            let (_, _, own, _) = authenticate_next redis auth options req s passed through in
            (req.public_key, own)
        | inr lacks ↦ absurd (ground arith)
      ]

  module _ (options : SignatureAuthOptions) (keys : IdempotencyOptions) (req : Request)
      (handler : Handler World) (app : App redis auth env) where
    refused_route :
        (r : Response)
        → (signature_auth redis auth options req app.store).0 ≡ answered r
        → ((signed_route redis auth env options keys req handler app).1.world ≡ app.world)
          × ((signed_route redis auth env options keys req handler app).1.rows ≡ app.rows)
    unfolding signed_route
    refused_route r h = rw (h, signed_route) (refl, refl)

    -- On a network other than local, and where NODE_ENV is not test, in which case signatures are not
    -- asked for on any network, a route that asks for a signature leaves the state of the server and the
    -- table of keys as they are, unless the request is authentic, the body naming no other key than the
    -- one that signs, and its nonce was handed out for the time that it names, or clients may choose
    -- their nonces.
    pub signed_route-IsAuthentic :
        auth.is_local ≡ false
        → auth.is_test ≡ false
        → options.required ≡ true
        → (((signed_route redis auth env options keys req handler app).1.world ≡ app.world)
            × ((signed_route redis auth env options keys req handler app).1.rows ≡ app.rows))
          ⊎ (IsAuthentic redis auth options req
              × ((redis.get (server_nonce_key req.public_key req.nonce) app.store
                    ≡ some req.timestamp)
                  ⊎ (auth.allow_client_nonce ≡ true)))
    signed_route-IsAuthentic live untested must =
        elim (Flow-cases (signature_auth redis auth options req app.store).0) [
          | inl (r, h) ↦ inl (refused_route r h)
          | inr (passed, h) ↦
              let (k, same) = passed_with_key options req app.store passed live untested must h in
              let (_, authentic, nonce) =
                signature_auth-IsAuthentic redis auth options req app.store k (h ∙ ap next same) in
              inr (authentic, nonce)
        ]

  -- A handler that changes nothing changes nothing behind the middlewares.
  module _ (keys : IdempotencyOptions) (req : Request) (handler : Handler World)
      (still : (w : World) → (handler w).1 ≡ w) where
    idempotency_still :
        (public_key : Option String) (site : Site World)
        → (idempotency auth.sha256 keys req public_key handler site).1.state ≡ site.state
    unfolding idempotency run_handler
    idempotency_still public_key site = elim (Bool-cases (req.idempotency_key == "")) [
      | inl e ↦ elim (Bool-cases keys.require_header) [
        | inl must ↦ rw (e, must) refl
        | inr may ↦ rw (e, may) (still site.state)
      ]
      | inr e ↦ elim (Option-cases (find idempotency_key req.idempotency_key site.rows)) [
        | inl missing ↦ rw (e, missing) (still site.state)
        | inr (old, there) ↦ rw (e, there) refl
      ]
    ]

    idempotency_mw_still :
        (public_key : Option String) (app : App redis auth env)
        → (idempotency_mw redis auth env keys req public_key handler app).1.world ≡ app.world
    unfolding idempotency_mw
    idempotency_mw_still public_key app = elim (Bool-cases env.has_outbox) [
      | inl e ↦ rw (e, idempotency_mw) (idempotency_still public_key _)
      | inr e ↦ rw (e, idempotency_mw) (still app.world)
    ]

    signed_route_still :
        (options : SignatureAuthOptions) (app : App redis auth env)
        → (signed_route redis auth env options keys req handler app).1.world ≡ app.world
    unfolding signed_route
    signed_route_still options app =
        elim (Flow-cases (signature_auth redis auth options req app.store).0) [
          | inl (r, h) ↦ rw (h, signed_route) refl
          | inr (passed, h) ↦ rw (h, signed_route) (idempotency_mw_still passed _)
        ]

  paused_still :
      (req : Request) (w : World)
      → env.safety.pause_new_tasks ≡ true
      → (handle (Tasks.create_paid env req.body) w).1 ≡ w
  unfolding handle
  paused_still req w paused = create_paid_paused env req.body w paused

  module _ {Payments : Type 0}
      (gate : (amount : Text)
        → (description : String) → Request
        → Payments
        → Flow (Unit {0}) × Payments) where
    -- While new tasks are paused, `POST /tasks` behind the payment gate still charges: for a body that
    -- the schema accepts, a gate that settles the fee leaves its payment, and no task comes of it, as
    -- the state of the server stays as it is.
    pub post_tasks_paid_paused :
        (req : Request) (app : App redis auth env) (payments paid : Payments) (input : TaskInput)
        (price : ℕ)
        → env.safety.pause_new_tasks ≡ true
        → create_task_schema env.date_parse app.world.now req.body ≡ some input
        → stroops_of input.reserve_price ≡ some price
        → gate
            (format_usdc_stroops_to_decimal (pos (calculate_listing_fee_stroops price)))
            (concat "Listing fee for task by " input.requester)
            req
            payments
          ≡ (next tt, paid)
        → let (answer, app1, payments1) = post_tasks_paid redis auth env gate req app payments in
          (payments1 ≡ paid) × (app1.world ≡ app.world)
    unfolding post_tasks_paid
    post_tasks_paid_paused req app payments paid input price paused parsed amount settled =
        let still =
          signed_route_still (idempotency_options "create_task" "requester") req
            (handle (Tasks.create_paid env req.body)) (λ w. paused_still req w paused)
            (auth_options "requester") app in
        rw (parsed, amount, settled, post_tasks_paid)
          (ap (λ (r : Flow (Unit {0}) × Payments). r.1) settled, still)
