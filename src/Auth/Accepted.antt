-- ===== src/Auth/Accepted.antt =====
-- What a request that passes has shown.
use trust_gate.Prelude.{
  ◌≤◌, String, true, ◌≡◌, sym, ap, ◌∙◌, Option, none, some, arith, eq_iff, Bool-cases, Option-cases,
  inl, inr, ◌⊎◌,
}
use trust_gate.Money.{ℤ}
use trust_gate.Redis.{Redis}
use trust_gate.Http.{Request}
use trust_gate.Schema.{string_field}
use trust_gate.Server.Action.{Flow, next}
use trust_gate.Auth.{
  SignatureAuthOptions, AuthEnv, distance, window_ms, server_nonce_key, signed_payload,
  parse_signature, body_mismatch, timestamp_error, signature_error, request_error, take_nonce,
  authenticate, signature_auth,
}

module _ (redis : Redis) (env : AuthEnv) where
  -- The request is signed with its key, over its method, path, time, nonce and body, its time is
  -- within the window, and the body names no other key.
  pub record IsAuthentic (options : SignatureAuthOptions) (req : Request) : Type 0 where
    pub key_is_valid : env.is_key req.public_key ≡ true
    pub is_signed :
        env.verify req.public_key
          (signed_payload redis env req)
          (parse_signature redis env req.signature)
        ≡ true
    pub signed_at : ℤ
    pub is_timed : env.number req.timestamp ≡ some signed_at
    pub is_recent : distance env.now signed_at ≤ window_ms
    pub names_no_other :
        (field value : String)
        → options.match_body_field ≡ some field
        → string_field field req.body ≡ some value
        → value ≡ req.public_key

  timed :
      (req : Request)
      → timestamp_error redis env req ≡ none
      → (t : ℤ) × (env.number req.timestamp ≡ some t) × (distance env.now t ≤ window_ms)
  unfolding timestamp_error
  timed req h = elim (Option-cases (env.number req.timestamp)) [
    | inl e ↦ absurd (let wrong = (rw (e, timestamp_error) at h) in cc)
    | inr (t, e) ↦ (t, e, let ok = (rw (e, timestamp_error) at h) in ground arith)
  ]

  named :
      (options : SignatureAuthOptions) (req : Request)
      → body_mismatch redis env options req ≡ none
      → (field value : String) → options.match_body_field ≡ some field
      → string_field field req.body ≡ some value
      → value ≡ req.public_key
  unfolding body_mismatch
  named options req h field value ef ev =
      let ok = (rw (ef, ev, body_mismatch) at h) in ground (arith, eq_iff value req.public_key)

  signed :
      (req : Request)
      → signature_error redis env req ≡ none
      → (env.is_key req.public_key ≡ true)
        × (env.verify req.public_key
              (signed_payload redis env req)
              (parse_signature redis env req.signature)
            ≡ true)
  unfolding signature_error
  signed req h = ground arith

  checks_pass :
      (options : SignatureAuthOptions) (req : Request)
      → request_error redis env options req ≡ none
      → (timestamp_error redis env req ≡ none)
        × (body_mismatch redis env options req ≡ none)
        × (signature_error redis env req ≡ none)
  unfolding request_error
  checks_pass options req h = ground arith

  checked-IsAuthentic :
      (options : SignatureAuthOptions) (req : Request)
      → request_error redis env options req ≡ none
      → IsAuthentic options req
  checked-IsAuthentic options req h =
      let (no_timestamp_error, no_mismatch, no_signature_error) = checks_pass options req h in
      let (t, is_timed, is_recent) = timed req no_timestamp_error in
      let (key_is_valid, is_signed) = signed req no_signature_error in
      record {
        key_is_valid = key_is_valid;
        is_signed = is_signed;
        signed_at = t;
        is_timed = is_timed;
        is_recent = is_recent;
        names_no_other = named options req no_mismatch;
      }

  -- A request passes with its own key, when no check fails and its nonce is taken.
  pub authenticate_next :
      (options : SignatureAuthOptions) (req : Request) (s : redis.Store) (k : Option String)
      → (authenticate redis env options req s).0 ≡ next k
      → (request_error redis env options req ≡ none)
        × ((take_nonce redis env options req s).0 ≡ none)
        × (k ≡ some req.public_key)
        × ((authenticate redis env options req s).1 ≡ (take_nonce redis env options req s).1)
  unfolding authenticate
  authenticate_next options req s k h = ground arith

  pub signature_auth-some :
      (options : SignatureAuthOptions) (req : Request) (s : redis.Store) (k : String)
      → (signature_auth redis env options req s).0 ≡ next (some k)
      → signature_auth redis env options req s ≡ authenticate redis env options req s
  unfolding signature_auth
  signature_auth-some options req s k h = ground arith

  taken :
      (options : SignatureAuthOptions) (req : Request) (s : redis.Store)
      → (take_nonce redis env options req s).0 ≡ none
      → (redis.get (server_nonce_key req.public_key req.nonce) s ≡ some req.timestamp)
        ⊎ (env.allow_client_nonce ≡ true)
  unfolding take_nonce
  taken options req s h =
      let key = server_nonce_key req.public_key req.nonce in
      elim (Bool-cases env.allow_client_nonce) [
        | inl y ↦ inr y
        | inr n ↦ elim (Option-cases (redis.get key s)) [
          | inl e ↦
              let gone = redis.getdel_value key s ∙ e in
              absurd (let wrong = (rw (gone, n, take_nonce) at h) in cc)
          | inr (t, e) ↦
              let there = redis.getdel_value key s ∙ e in
              let same = (rw (there, take_nonce) at h) in
              inl (e ∙ ap some (ground (arith, eq_iff t req.timestamp)))
        ]
      ]

  -- Where the middleware goes on with a key, it is the key of the request, the request is authentic
  -- and its nonce was handed out with the time that it names, or clients may choose their nonces.
  pub signature_auth-IsAuthentic :
      (options : SignatureAuthOptions) (req : Request) (s : redis.Store) (k : String)
      → (signature_auth redis env options req s).0 ≡ next (some k)
      → (k ≡ req.public_key)
        × IsAuthentic options req
        × ((redis.get (server_nonce_key req.public_key req.nonce) s ≡ some req.timestamp)
            ⊎ (env.allow_client_nonce ≡ true))
  signature_auth-IsAuthentic options req s k h =
      let passed =
        ap (λ (r : Flow (Option String) × redis.Store). r.0)
          (sym (signature_auth-some options req s k h))
        ∙ h in
      let (no_error, no_nonce_error, own, _) = authenticate_next options req s (some k) passed in
      (cc, checked-IsAuthentic options req no_error, taken options req s no_nonce_error)
