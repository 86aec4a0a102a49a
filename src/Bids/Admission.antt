-- ===== src/Bids/Admission.antt =====
-- What a bid has passed before collateral is locked for it.
use mathlib.Core.Path.{subst}
use trust_gate.Prelude.{
  String, true, false, ◌≡◌, ◌≢◌, ◌⊎◌, none, some, arith, eq_iff, Bool-cases, Option-cases, inl, inr,
}
use trust_gate.Models.{Task, TaskStatus}
use trust_gate.Schema.{RequestBody, BidInput, create_bid_signed_schema, create_bid_local_schema}
use trust_gate.Schema.Accepted.{
  IsBidInput, create_bid_signed_schema-IsBidInput, create_bid_local_schema-IsBidInput,
}
use trust_gate.Server.{World, Env, ok, find_task, is_denied}
use trust_gate.Server.Action.{Response, answered, next}
use trust_gate.Bids.{check_secret, read_input, admit}

-- The body is that of the bid: on the local network with the secret of its executor, elsewhere one
-- whose signature the route has checked.
abbrev pub Sends : Env → RequestBody → BidInput → Type 0
Sends env body input =
    ((env.is_local ≡ true)
      × ((secret : String) × (create_bid_local_schema body ≡ some (input, secret))
          × (env.key_of_secret secret ≡ some input.executor)))
    ⊎ ((env.is_local ≡ false) × (create_bid_signed_schema body ≡ some input))

pub record Admitted (env : Env) (body : RequestBody) (w : World) (input : BidInput) : Type 0 where
  pub sender : Sends env body input
  pub not_paused : env.safety.pause_new_bids ≡ false
  pub valid : IsBidInput input
  pub allowed : is_denied env input.executor ≡ false
  pub task : (t : Task) × (find_task input.task_id w ≡ some t) × (t.status ≡ TaskStatus.opened)
  pub registered : env.is_registered input.executor ≡ ok true

module _ (env : Env) where
  -- The checks change nothing.
  pub admit_pure : (body : RequestBody) (w : World) → (admit env body w).1 ≡ w
  unfolding admit
  admit_pure body w = ground arith

  -- A refusal is answered with one of six statuses.
  pub admit_refused :
      (body : RequestBody) (w : World) (r : Response)
      → (admit env body w).0 ≡ answered r
      → (r.status ≡ 400)
        ⊎ (r.status ≡ 403)
        ⊎ (r.status ≡ 404)
        ⊎ (r.status ≡ 409)
        ⊎ (r.status ≡ 500)
        ⊎ (r.status ≡ 503)
  unfolding admit
  admit_refused body w r h = ground arith

  read_local :
      (body : RequestBody) (w : World) (input : BidInput)
      → env.is_local ≡ true
      → (read_input env body w).0 ≡ next input
      → (r : BidInput × String) × (create_bid_local_schema body ≡ some r) × (r.0 ≡ input)
  unfolding read_input check_secret
  read_local body w input l h = elim (Option-cases (create_bid_local_schema body)) [
    | inl missing ↦ absurd (ground arith)
    | inr (r, e) ↦ (r, e, ground arith)
  ]

  read_signed :
      (body : RequestBody) (w : World) (input : BidInput)
      → env.is_local ≡ false
      → (read_input env body w).0 ≡ next input
      → create_bid_signed_schema body ≡ some input
  unfolding read_input
  read_signed body w input l h = elim (Option-cases (create_bid_signed_schema body)) [
    | inl missing ↦ absurd (ground arith)
    | inr (r, e) ↦ ground arith
  ]

  read_input-IsBidInput :
      (body : RequestBody) (w : World) (input : BidInput)
      → (read_input env body w).0 ≡ next input
      → IsBidInput input
  read_input-IsBidInput body w input h = elim (Bool-cases env.is_local) [
    | inl l ↦
        let (r, e, same) = read_local body w input l h in
        subst IsBidInput same (create_bid_local_schema-IsBidInput body e)
    | inr l ↦ create_bid_signed_schema-IsBidInput body (read_signed body w input l h)
  ]

  read_sender :
      (body : RequestBody) (w : World) (input : BidInput)
      → env.is_local ≡ true
      → (read_input env body w).0 ≡ next input
      → (secret : String) × (create_bid_local_schema body ≡ some (input, secret))
        × (env.key_of_secret secret ≡ some input.executor)
  unfolding read_input check_secret
  read_sender body w input l h = elim (Option-cases (create_bid_local_schema body)) [
    | inl missing ↦ absurd (ground arith)
    | inr ((named, secret), e) ↦ elim (Option-cases (env.key_of_secret secret)) [
      | inl invalid ↦ absurd (ground arith)
      | inr (key, found) ↦ (
        secret,
        ground (arith, eq_iff key named.executor),
        ground (arith, eq_iff key named.executor),
      )
    ]
  ]

  read_input-Sends :
      (body : RequestBody) (w : World) (input : BidInput)
      → (read_input env body w).0 ≡ next input
      → Sends env body input
  read_input-Sends body w input h = elim (Bool-cases env.is_local) [
    | inl l ↦ inl (l, read_sender body w input l h)
    | inr l ↦ inr (l, read_signed body w input l h)
  ]

  admit_not_paused :
      (body : RequestBody) (w : World) (input : BidInput)
      → (admit env body w).0 ≡ next input
      → env.safety.pause_new_bids ≡ false
  unfolding admit
  admit_not_paused body w input h = ground arith

  admit_read :
      (body : RequestBody) (w : World) (input : BidInput)
      → (admit env body w).0 ≡ next input
      → (read_input env body w).0 ≡ next input
  unfolding admit
  admit_read body w input h = ground arith

  admit_allowed :
      (body : RequestBody) (w : World) (input : BidInput)
      → (admit env body w).0 ≡ next input
      → is_denied env input.executor ≡ false
  unfolding admit
  admit_allowed body w input h = ground arith

  admit_missing :
      (body : RequestBody) (w : World) (input : BidInput)
      → (admit env body w).0 ≡ next input
      → find_task input.task_id w ≢ none
  unfolding admit
  admit_missing body w input h missing = ground arith

  admit_open :
      (body : RequestBody) (w : World) (input : BidInput) (t : Task)
      → (admit env body w).0 ≡ next input
      → find_task input.task_id w ≡ some t
      → t.status ≡ TaskStatus.opened
  unfolding admit
  admit_open body w input t h found = ground arith

  admit_task :
      (body : RequestBody) (w : World) (input : BidInput)
      → (admit env body w).0 ≡ next input
      → (t : Task) × (find_task input.task_id w ≡ some t) × (t.status ≡ TaskStatus.opened)
  admit_task body w input h = elim (Option-cases (find_task input.task_id w)) [
    | inl missing ↦ absurd (admit_missing body w input h missing)
    | inr (t, e) ↦ (t, e, admit_open body w input t h e)
  ]

  admit_registered :
      (body : RequestBody) (w : World) (input : BidInput)
      → (admit env body w).0 ≡ next input
      → env.is_registered input.executor ≡ ok true
  unfolding admit
  admit_registered body w input h = ground arith

  pub admit-Admitted :
      (body : RequestBody) (w : World) (input : BidInput)
      → (admit env body w).0 ≡ next input
      → Admitted env body w input
  admit-Admitted body w input h = record {
    sender = read_input-Sends body w input (admit_read body w input h);
    not_paused = admit_not_paused body w input h;
    valid = read_input-IsBidInput body w input (admit_read body w input h);
    allowed = admit_allowed body w input h;
    task = admit_task body w input h;
    registered = admit_registered body w input h;
  }
