-- ===== src/Tasks/Completion.antt =====
-- What `POST /tasks/:id/complete` has checked, and what it does.
use trust_gate.Prelude.{
  String, true, false, Option-cases, Bool-cases, ◌⊎◌, [], ◌∷◌, ◌++◌, if◌then◌else◌, ◌≡◌, ◌≢◌, refl,
  sym, ap, ◌∙◌, some, eq_iff, arith, inl, inr,
}
use trust_gate.Models.{Task, Bid, TaskStatus, to_task_dto, Payload}
use trust_gate.Schema.{
  RequestBody, complete_task_local_request_schema, complete_task_signed_request_schema,
}
use trust_gate.Server.{
  World, Env, ok, err, Result-cases, EscrowCall, find_task, save_task, selected_bid, emit,
  is_denied, log_call,
}
use trust_gate.Server.Action.{Body, Response, Flow, answered, next, Flow-cases}
use trust_gate.Tasks.{
  check_requester, read_requester, check_assigned, release_now, request_completion,
  admit_completion, finish, complete,
}

-- The request names the requester: on the local network with the secret of that key, elsewhere in a
-- body whose signature the route has checked.
abbrev pub Names : Env → RequestBody → (requester : String) → Type 0
Names env body requester =
    ((env.is_local ≡ true)
      × ((secret : String) × (complete_task_local_request_schema body ≡ some (requester, secret))
          × (env.key_of_secret secret ≡ some requester)))
    ⊎ ((env.is_local ≡ false) × (complete_task_signed_request_schema body ≡ some requester))

-- The request comes from the requester of an assigned task, whose selected bid is of an executor
-- that is not denied.
pub record Entitled (env : Env) (task_id : String) (body : RequestBody) (w : World) (task : Task)
    (winning_bid : Bid) : Type 0 where
  pub found : find_task task_id w ≡ some task
  pub is_assigned : task.status ≡ TaskStatus.assigned
  pub owner : Names env body task.requester_public_key
  pub winner : selected_bid task_id w ≡ some winning_bid
  pub allowed : is_denied env winning_bid.executor_public_key ≡ false

module _ (env : Env) (task : Task) (w : World) where
  check_assigned_pure : (check_assigned env task w).1 ≡ w
  unfolding check_assigned
  check_assigned_pure = ground arith

  check_assigned_ok : task.status ≡ TaskStatus.assigned → check_assigned env task w ≡ (next tt, w)
  unfolding check_assigned
  check_assigned_ok h = ground arith

  check_assigned_next : (check_assigned env task w).0 ≡ next tt → task.status ≡ TaskStatus.assigned
  unfolding check_assigned
  check_assigned_next h = ground arith

module _ (env : Env) (body : RequestBody) (w : World) (requester : String) where
  read_local :
      env.is_local ≡ true
      → (read_requester env body w).0 ≡ next requester
      → (secret : String) × (complete_task_local_request_schema body ≡ some (requester, secret))
        × (env.key_of_secret secret ≡ some requester)
  unfolding read_requester check_requester
  read_local here h = elim (Option-cases (complete_task_local_request_schema body)) [
    | inl invalid ↦ absurd (ground arith)
    | inr ((named, secret), parsed) ↦ elim (Option-cases (env.key_of_secret secret)) [
      | inl invalid ↦ absurd (ground arith)
      | inr (key, found) ↦
          (secret, ground (arith, eq_iff key named), ground (arith, eq_iff key named))
    ]
  ]

  read_signed :
      env.is_local ≡ false
      → (read_requester env body w).0 ≡ next requester
      → complete_task_signed_request_schema body ≡ some requester
  unfolding read_requester
  read_signed there h = ground arith

  read_requester-Names : (read_requester env body w).0 ≡ next requester → Names env body requester
  read_requester-Names h = elim (Bool-cases env.is_local) [
    | inl here ↦ inl (here, read_local here h)
    | inr there ↦ inr (there, read_signed there h)
  ]

module _ (env : Env) (task_id : String) (body : RequestBody) (w : World) where
  read_requester_pure : (read_requester env body w).1 ≡ w
  unfolding read_requester
  read_requester_pure = ground arith

  module _ (task : Task) (bid : Bid)
      (h : (admit_completion env task_id body w).0 ≡ next (task, bid)) where
    entitled_found : find_task task_id w ≡ some task
    unfolding admit_completion
    entitled_found = ground (arith, read_requester_pure, check_assigned_pure env task w)

    entitled_assigned : task.status ≡ TaskStatus.assigned
    unfolding admit_completion
    entitled_assigned = ground (arith, read_requester_pure, check_assigned_next env task w)

    checked : check_assigned env task w ≡ (next tt, w)
    checked = check_assigned_ok env task w entitled_assigned

    same_requester :
        (r : String) → (read_requester env body w).0 ≡ next r → task.requester_public_key ≡ r
    unfolding admit_completion
    same_requester r e = ground (arith, read_requester_pure, eq_iff task.requester_public_key r)

    not_answered : (r : Response) → (read_requester env body w).0 ≢ answered r
    unfolding admit_completion
    not_answered r e = ground arith

    entitled_owner : (read_requester env body w).0 ≡ next task.requester_public_key
    entitled_owner = elim (Flow-cases (read_requester env body w).0) [
      | inl (r, e) ↦ absurd (not_answered r e)
      | inr (r, e) ↦ e ∙ ap next (sym (same_requester r e))
    ]

    entitled_winner : selected_bid task_id w ≡ some bid
    unfolding admit_completion
    entitled_winner = ground (arith, read_requester_pure, entitled_found, entitled_owner, checked)

    entitled_allowed : is_denied env bid.executor_public_key ≡ false
    unfolding admit_completion
    entitled_allowed = ground (arith, read_requester_pure, entitled_found, entitled_owner, checked)

    pub admitted-Entitled : Entitled env task_id body w task bid
    admitted-Entitled = record {
      found = entitled_found;
      is_assigned = entitled_assigned;
      owner = read_requester-Names env body w task.requester_public_key entitled_owner;
      winner = entitled_winner;
      allowed = entitled_allowed;
    }

    admitted_pure : admit_completion env task_id body w ≡ (next (task, bid), w)
    unfolding admit_completion
    admitted_pure = ground (
      arith, read_requester_pure, entitled_winner, entitled_allowed, entitled_found, entitled_owner,
      checked,
    )

    complete-finish : complete env task_id body w ≡ finish env (task, bid) w
    unfolding complete
    complete-finish = ground (arith, admitted_pure)

module _ (env : Env) (task_id : String) (body : RequestBody) (w : World) where
  admit_completion_pure : (admit_completion env task_id body w).1 ≡ w
  unfolding admit_completion check_assigned
  admit_completion_pure = ground (arith, read_requester_pure env task_id body w)

  -- A request that is not entitled to complete the task leaves the state as it is.
  pub complete_refused :
      (r : Response)
      → (admit_completion env task_id body w).0 ≡ answered r
      → complete env task_id body w ≡ (answered r, w)
  unfolding complete
  complete_refused r h = ground (arith, admit_completion_pure)

  module _ (task : Task) (bid : Bid)
      (h : (admit_completion env task_id body w).0 ≡ next (task, bid)) where
    finish_requested :
        env.has_outbox ≡ true → finish env (task, bid) w ≡ request_completion env task bid w
    unfolding finish
    finish_requested outbox = rw outbox refl

    finish_released : env.has_outbox ≡ false → finish env (task, bid) w ≡ release_now env task bid w
    unfolding finish
    finish_released outbox = rw outbox refl

    -- With an outbox, such a request makes the task COMPLETING, and appends one event that
    -- names its escrow; no milestone is released yet.
    pub complete_requested :
        env.has_outbox ≡ true
        → let completing : Task = record task { status = TaskStatus.completing } in
          complete env task_id body w ≡ (
            answered (record { status = 202; body = Body.task (to_task_dto completing) }),
            emit env "task_completion_requested" "task" task.id
                (Payload.completion_requested task.id bid.escrow_id)
                (save_task completing w),
          )
    unfolding request_completion
    complete_requested outbox =
        complete-finish env task_id body w task bid h ∙ finish_requested outbox

    -- Without an outbox, the milestone of the selected bid is released exactly once; the task is
    -- COMPLETED if the escrow provider released it, and stays as it is, with the answer 502, if
    -- not.
    pub complete_released :
        env.has_outbox ≡ false
        → let done : Task = record task { status = TaskStatus.completed } in
          let called = log_call (EscrowCall.release_milestone bid.escrow_id) w in
          complete env task_id body w ≡ (elim (env.release_answer w.escrow_calls bid.escrow_id) [
            | ok release ↦ (
              answered (record { status = 200; body = Body.release (to_task_dto done) release }),
              save_task done called,
            )
            | err message ↦ (
              answered (record { status = 502; body = Body.error "escrow release failed" }),
              called,
            )
          ])
    unfolding release_now
    complete_released outbox =
        elim (Result-cases (env.release_answer w.escrow_calls bid.escrow_id)) [
          | inl (release, e) ↦
              complete-finish env task_id body w task bid h ∙ finish_released outbox ∙ rw e refl
          | inr (message, e) ↦
              complete-finish env task_id body w task bid h ∙ finish_released outbox ∙ rw e refl
        ]

  -- what the escrow provider has been asked for when an entitled request is answered
  finished_calls :
      (task : Task) (bid : Bid)
      → (admit_completion env task_id body w).0 ≡ next (task, bid)
      → (complete env task_id body w).1.escrow_calls ≡ (
          if env.has_outbox
          then w.escrow_calls
          else w.escrow_calls ++ EscrowCall.release_milestone bid.escrow_id ∷ [])
  unfolding emit log_call
  finished_calls task bid h = elim (Bool-cases env.has_outbox) [
    | inl outbox ↦ rw (complete_requested task bid h outbox, outbox) refl
    | inr direct ↦ elim (Result-cases (env.release_answer w.escrow_calls bid.escrow_id)) [
      | inl (release, e) ↦ rw (complete_released task bid h direct, direct, e) refl
      | inr (message, e) ↦ rw (complete_released task bid h direct, direct, e) refl
    ]
  ]

  -- A request to complete a task that changes anything comes from the requester of that task: it
  -- names the key of the requester, on the local network with the secret of that key. The task is
  -- ASSIGNED, and the executor of its selected bid is not denied. With an outbox no milestone is
  -- released yet, and without one that of the selected bid is, once, and no other.
  pub complete-Entitled :
      (complete env task_id body w).1 ≢ w
      → (task : Task) × (bid : Bid) × Entitled env task_id body w task bid
        × ((complete env task_id body w).1.escrow_calls ≡ (
            if env.has_outbox
            then w.escrow_calls
            else w.escrow_calls ++ EscrowCall.release_milestone bid.escrow_id ∷ []))
  complete-Entitled changed = elim (Flow-cases (admit_completion env task_id body w).0) [
    | inl (r, h) ↦
        absurd (changed (ap (λ (u : Flow (Unit {0}) × World). u.1) (complete_refused r h)))
    | inr ((task, bid), h) ↦
        (task, bid, admitted-Entitled env task_id body w task bid h, finished_calls task bid h)
  ]
