-- ===== src/Auth/Issued.antt =====
-- A nonce that was handed out lets a signed request pass.
use trust_gate.Prelude.{
  String, Bool, true, false, ◌≡◌, ◌≢◌, refl, sym, ap, ◌∙◌, Option, none, some, arith, eq_iff, ◌==◌,
  Option-cases, inl, inr, ◌⊎◌, not, ◌&&◌, ◌||◌, ltb, concat,
}
use trust_gate.Redis.{Redis}
use trust_gate.Http.{Request}
use trust_gate.Schema.{string_field}
use trust_gate.Server.Action.{Flow, next}
use trust_gate.Auth.{
  SignatureAuthOptions, AuthEnv, distance, window_ms, server_nonce_key, legacy_nonce_key,
  timestamp_error, body_mismatch, signature_error, request_error, take_nonce, has_headers,
  authenticate, signature_auth, incr_with_ttl, issue_nonce,
}
use trust_gate.Auth.Counters.{legacy-ne-nonce}
use trust_gate.Auth.Accepted.{IsAuthentic, authenticate_next, signature_auth-some}

module _ (redis : Redis) where
  open redis use {Store, get, getdel, set_nx}

  module _ (env : AuthEnv) (options : SignatureAuthOptions) (req : Request) where
    authentic_time : IsAuthentic redis env options req → timestamp_error redis env req ≡ none
    unfolding timestamp_error
    authentic_time h =
        let recent = h.is_recent in
        let small : ltb window_ms (distance env.now h.signed_at) ≡ false = ground arith in
        rw (h.is_timed, small, timestamp_error) refl

    authentic_body : IsAuthentic redis env options req → body_mismatch redis env options req ≡ none
    unfolding body_mismatch
    authentic_body h = elim (Option-cases options.match_body_field) [
      | inl e ↦ rw (e, body_mismatch) refl
      | inr (field, ef) ↦ elim (Option-cases (string_field field req.body)) [
        | inl e ↦ rw (ef, e, body_mismatch) refl
        | inr (value, ev) ↦
            let same : (value == req.public_key) ≡ true =
              (eq_iff value req.public_key).1 (h.names_no_other field value ef ev) in
            rw (ef, ev, same, body_mismatch) refl
      ]
    ]

    authentic_signature : IsAuthentic redis env options req → signature_error redis env req ≡ none
    unfolding signature_error
    authentic_signature h = rw (h.key_is_valid, h.is_signed, signature_error) refl

    authentic_checks :
        IsAuthentic redis env options req → request_error redis env options req ≡ none
    unfolding request_error
    authentic_checks h =
        rw (authentic_time h, authentic_body h, request_error) (authentic_signature h)

    signature_auth_passes :
        (s : Store)
        → (options.enforce_in_local ≡ true) ⊎ (env.is_local ≡ false)
        → env.is_test ≡ false
        → has_headers redis env req ≡ true
        → IsAuthentic redis env options req
        → env.redis_is_up ≡ true
        → (take_nonce redis env options req s).0 ≡ none
        → signature_auth redis env options req s
          ≡ (next (some req.public_key), (take_nonce redis env options req s).1)
    unfolding signature_auth authenticate
    signature_auth_passes s enforced live full authentic up taken =
        let checked = authentic_checks authentic in
        let on : ((not options.enforce_in_local && env.is_local) || env.is_test) ≡ false =
          ground arith in
        rw (on, full, checked, up, taken, authenticate) refl

    take_nonce_stored :
        (s : Store)
        → get (server_nonce_key req.public_key req.nonce) s ≡ some req.timestamp
        → (take_nonce redis env options req s).0 ≡ none
    unfolding take_nonce
    take_nonce_stored s there =
        let key = server_nonce_key req.public_key req.nonce in
        let found = redis.getdel_value key s ∙ there in
        let same : (req.timestamp == req.timestamp) ≡ true =
          (eq_iff req.timestamp req.timestamp).1 refl in
        rw (found, same, take_nonce) refl

    -- A request that has passed passes in any store where its nonce can be taken.
    passes_again :
        (s t : Store) (k : String)
        → (signature_auth redis env options req s).0 ≡ next (some k)
        → request_error redis env options req ≡ none
        → (take_nonce redis env options req t).0 ≡ none
        → (signature_auth redis env options req t).0 ≡ next (some k)
    unfolding signature_auth authenticate
    passes_again s t k passed checked taken = rw (checked, authenticate) (ground arith)

    -- A client that may choose its nonces can send a request again: one that passes with a nonce that
    -- the server handed out passes a second time at once, as the nonce is then taken for one of its
    -- own, provided that it has not been used as such before.
    pub signature_auth_replays :
        (s : Store) (k : String)
        → env.allow_client_nonce ≡ true
        → get (legacy_nonce_key req.public_key req.nonce) s ≡ none
        → get (server_nonce_key req.public_key req.nonce) s ≡ some req.timestamp
        → (signature_auth redis env options req s).0 ≡ next (some k)
        → (signature_auth redis env options req (signature_auth redis env options req s).1).0
          ≡ next (some k)
    unfolding take_nonce
    signature_auth_replays s k allows free there passed =
        let key = server_nonce_key req.public_key req.nonce in
        let legacy = legacy_nonce_key req.public_key req.nonce in
        let s1 = (getdel key s).1 in
        let s2 = (getdel key s1).1 in
        let same_first = signature_auth-some redis env options req s k passed in
        let first = ap (λ (r : Flow (Option String) × Store). r.0) (sym same_first) ∙ passed in
        let (no_error, _, own, left) = authenticate_next redis env options req s (some k) first in
        let found = redis.getdel_value key s ∙ there in
        let taken : (take_nonce redis env options req s).1 ≡ s1 = rw (found, take_nonce) refl in
        let after : (signature_auth redis env options req s).1 ≡ s1 =
          ap (λ (r : Flow (Option String) × Store). r.1) same_first ∙ left ∙ taken in
        let gone : (getdel key s1).0 ≡ none = redis.getdel_value key s1 ∙ redis.getdel_self key s in
        let different : legacy ≢ key =
          λ same. legacy-ne-nonce req.public_key req.nonce req.public_key req.nonce (sym same) in
        let unused : get legacy s2 ≡ none =
          redis.getdel_other key legacy s1 different
          ∙ redis.getdel_other key legacy s different
          ∙ free in
        let set = redis.set_nx_free legacy "1" options.nonce_ttl_seconds s2 unused in
        let again : (take_nonce redis env options req s1).0 ≡ none =
          rw (gone, allows, set, take_nonce) refl in
        rw after (passes_again s s1 k passed no_error again)

  -- A nonce that is answered with 200 is in the store, with the time of the answer.
  issued_stored :
      (env : AuthEnv) (public_key ip : String) (s : Store)
      → (issue_nonce redis env public_key ip s).0.status ≡ 200
      → get (server_nonce_key public_key env.uuid) (issue_nonce redis env public_key ip s).1
        ≡ some (env.digits env.now)
  unfolding issue_nonce
  issued_stored env public_key ip s ok =
      let counted = incr_with_ttl redis (concat "tg:authnonce:ip:" ip) 60 s in
      let key = server_nonce_key public_key env.uuid in
      let value = env.digits env.now in
      let stored : (get key counted.1 ≡ none)
          → get key (set_nx key value 600 counted.1).1 ≡ some value =
        redis.set_nx_set key value 600 counted.1 in
      elim (Option-cases (get key counted.1)) [
        | inl free ↦
            let set = redis.set_nx_free key value 600 counted.1 free in
            let there = redis.set_nx_set key value 600 counted.1 free in ground arith
        | inr (old, e) ↦
            let refused =
              ap (λ (r : Bool × Store). r.0) (redis.set_nx_taken key value old 600 counted.1 e) in
            absurd (ground arith)
      ]

  -- A nonce that the server answers with is enough, on a network other than local or where the route
  -- enforces signatures there, while NODE_ENV is not test and Redis is up: as long as the nonce has not
  -- lapsed, a request that is authentic, carries all of its headers, and names that nonce and its time,
  -- passes with its key.
  pub issue_nonce_passes :
      (env env' : AuthEnv) (options : SignatureAuthOptions) (req : Request) (ip : String)
      (s t : Store)
      → (issue_nonce redis env req.public_key ip s).0.status ≡ 200
      → get (server_nonce_key req.public_key env.uuid) t
        ≡ get
            (server_nonce_key req.public_key env.uuid)
            (issue_nonce redis env req.public_key ip s).1
      → req.nonce ≡ env.uuid
      → req.timestamp ≡ env.digits env.now
      → IsAuthentic redis env' options req
      → has_headers redis env' req ≡ true
      → (options.enforce_in_local ≡ true) ⊎ (env'.is_local ≡ false)
      → env'.is_test ≡ false
      → env'.redis_is_up ≡ true
      → (signature_auth redis env' options req t).0 ≡ next (some req.public_key)
  issue_nonce_passes env env' options req ip s t ok kept same_nonce same_time authentic full
        enforced live up =
      let there : get (server_nonce_key req.public_key req.nonce) t ≡ some req.timestamp =
        rw (same_nonce, same_time) (kept ∙ issued_stored env req.public_key ip s ok) in
      rw
        (signature_auth_passes env' options req t enforced live full authentic up
          (take_nonce_stored env' options req t there))
        refl
