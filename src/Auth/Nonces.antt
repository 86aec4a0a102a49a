-- ===== src/Auth/Nonces.antt =====
-- A nonce that was handed out is good for one request.
use trust_gate.Prelude.{
  String, false, ◌≡◌, ◌≢◌, refl, sym, ap, ◌∙◌, Option, none, some, arith, eq_iff, ◌==◌, Bool-cases,
  Option-cases, inl, inr, ◌⊎◌, not, ◌&&◌, ◌||◌, ltb, concat,
}
use trust_gate.Redis.{Redis}
use trust_gate.Http.{Request}
use trust_gate.Server.Action.{Flow, next}
use trust_gate.Auth.{
  SignatureAuthOptions, AuthEnv, server_nonce_key, legacy_nonce_key, request_error, take_nonce,
  has_headers, authenticate, fail, signature_auth, incr_with_ttl, issue_nonce,
}
use trust_gate.Auth.Counters.{legacy-ne-nonce, issue-ne-nonce, get-incr_with_ttl, get-fail}
use trust_gate.Auth.Accepted.{authenticate_next, signature_auth-some, signature_auth-IsAuthentic}

module _ (redis : Redis) where
  open redis use {Store, get, getdel, set_nx}

  abbrev nonce_at : (public_key nonce : String) → Store → Option String
  nonce_at public_key nonce s = get (server_nonce_key public_key nonce) s

  module _ (env : AuthEnv) (options : SignatureAuthOptions) (req : Request) where
    -- What `take_nonce` leaves: the nonce is taken out, and the legacy key of the client may be set.
    take_nonce_leaves :
        (s : Store)
        → ((take_nonce redis env options req s).1
            ≡ (getdel (server_nonce_key req.public_key req.nonce) s).1)
          ⊎ ((take_nonce redis env options req s).1
              ≡ (set_nx
                  (legacy_nonce_key req.public_key req.nonce)
                  "1"
                  options.nonce_ttl_seconds
                  (getdel (server_nonce_key req.public_key req.nonce) s).1).1)
    unfolding take_nonce
    take_nonce_leaves s =
        elim (Option-cases (getdel (server_nonce_key req.public_key req.nonce) s).0) [
          | inl e ↦ elim (Bool-cases env.allow_client_nonce) [
            | inl y ↦ rw (e, y, take_nonce) (inr refl)
            | inr n ↦ rw (e, n, take_nonce) (inl refl)
          ]
          | inr (t, e) ↦ rw (e, take_nonce) (inl refl)
        ]

    nonce_at-take_nonce :
        (public_key nonce : String) (s : Store)
        → nonce_at public_key nonce (take_nonce redis env options req s).1
          ≡ nonce_at public_key nonce (getdel (server_nonce_key req.public_key req.nonce) s).1
    nonce_at-take_nonce public_key nonce s = elim (take_nonce_leaves s) [
      | inl e ↦ ap (nonce_at public_key nonce) e
      | inr e ↦
          ap (nonce_at public_key nonce) e
          ∙ redis.set_nx_other (legacy_nonce_key req.public_key req.nonce)
              (server_nonce_key public_key nonce) "1" options.nonce_ttl_seconds
              (getdel (server_nonce_key req.public_key req.nonce) s).1
              (legacy-ne-nonce public_key nonce req.public_key req.nonce)
    ]

    -- A nonce that is not there is not there afterwards.
    getdel_absent : (k j : String) (s : Store) → get j s ≡ none → get j (getdel k s).1 ≡ none
    getdel_absent k j s h = elim (Bool-cases (j == k)) [
      | inl e ↦ ap (λ i. get i (getdel k s).1) ((eq_iff j k).0 e) ∙ redis.getdel_self k s
      | inr e ↦ redis.getdel_other k j s (λ (same : j ≡ k). ground (arith, eq_iff j k)) ∙ h
    ]

    take_nonce_absent :
        (public_key nonce : String) (s : Store)
        → nonce_at public_key nonce s ≡ none
        → nonce_at public_key nonce (take_nonce redis env options req s).1 ≡ none
    take_nonce_absent public_key nonce s h =
        nonce_at-take_nonce public_key nonce s
        ∙ getdel_absent (server_nonce_key req.public_key req.nonce)
            (server_nonce_key public_key nonce) s h

    fail_absent :
        (message public_key nonce : String) (s : Store)
        → nonce_at public_key nonce s ≡ none
        → nonce_at public_key nonce (fail redis env req message s).1 ≡ none
    fail_absent message public_key nonce s h = get-fail redis env req message public_key nonce s ∙ h

    authenticate_absent :
        (public_key nonce : String) (s : Store)
        → nonce_at public_key nonce s ≡ none
        → nonce_at public_key nonce (authenticate redis env options req s).1 ≡ none
    unfolding authenticate
    authenticate_absent public_key nonce s h =
        elim (Option-cases (request_error redis env options req)) [
          | inr (message, e) ↦ rw (e, authenticate) (fail_absent message public_key nonce s h)
          | inl e ↦ elim (Bool-cases env.redis_is_up) [
            | inr down ↦ rw (e, down, authenticate) h
            | inl up ↦
                let taken = take_nonce_absent public_key nonce s h in
                elim (Option-cases (take_nonce redis env options req s).0) [
                  | inl ok ↦ rw (e, up, ok, authenticate) taken
                  | inr (message, wrong) ↦
                      rw (e, up, wrong, authenticate)
                        (fail_absent message public_key nonce (take_nonce redis env options req s).1
                          taken)
                ]
          ]
        ]

    -- No request brings back a nonce that is gone.
    signature_auth_absent :
        (public_key nonce : String) (s : Store)
        → nonce_at public_key nonce s ≡ none
        → nonce_at public_key nonce (signature_auth redis env options req s).1 ≡ none
    unfolding signature_auth
    signature_auth_absent public_key nonce s h =
        elim (Bool-cases ((not options.enforce_in_local && env.is_local) || env.is_test)) [
          | inl off ↦ rw off h
          | inr on ↦ elim (Bool-cases (has_headers redis env req)) [
            | inl full ↦ rw (on, full) (authenticate_absent public_key nonce s h)
            | inr lacks ↦ elim (Bool-cases options.required) [
              | inl must ↦
                  rw (on, lacks, must)
                    (fail_absent "missing signature headers" public_key nonce s h)
              | inr may ↦ rw (on, lacks, may) h
            ]
          ]
        ]

    -- The request that passes spends its nonce.
    signature_auth_spends :
        (s : Store) (k : String)
        → (signature_auth redis env options req s).0 ≡ next (some k)
        → nonce_at req.public_key req.nonce (signature_auth redis env options req s).1 ≡ none
    signature_auth_spends s k h =
        let same = signature_auth-some redis env options req s k h in
        let passed = ap (λ (r : Flow (Option String) × Store). r.0) (sym same) ∙ h in
        let (_, _, _, left) = authenticate_next redis env options req s (some k) passed in
        ap (λ (r : Flow (Option String) × Store). nonce_at req.public_key req.nonce r.1) same
        ∙ ap (nonce_at req.public_key req.nonce) left
        ∙ nonce_at-take_nonce req.public_key req.nonce s
        ∙ redis.getdel_self (server_nonce_key req.public_key req.nonce) s

  issue_nonce_absent :
      (env : AuthEnv) (owner ip public_key nonce : String) (s : Store)
      → server_nonce_key public_key nonce ≢ server_nonce_key owner env.uuid
      → nonce_at public_key nonce s ≡ none
      → nonce_at public_key nonce (issue_nonce redis env owner ip s).1 ≡ none
  unfolding issue_nonce
  issue_nonce_absent env owner ip public_key nonce s other h =
      let counted = incr_with_ttl redis (concat "tg:authnonce:ip:" ip) 60 s in
      let absent : nonce_at public_key nonce counted.1 ≡ none =
        get-incr_with_ttl redis (concat "tg:authnonce:ip:" ip) (server_nonce_key public_key nonce)
          60 s (issue-ne-nonce ip public_key nonce)
        ∙ h in
      let set = set_nx (server_nonce_key owner env.uuid) (env.digits env.now) 600 counted.1 in
      let still : nonce_at public_key nonce set.1 ≡ none =
        redis.set_nx_other (server_nonce_key owner env.uuid) (server_nonce_key public_key nonce)
          (env.digits env.now) 600 counted.1 other
        ∙ absent in
      elim (Bool-cases (owner == "")) [
        | inl e ↦ rw e h
        | inr e ↦ elim (Bool-cases (env.is_key owner)) [
          | inr bad ↦ rw (e, bad) h
          | inl good ↦ elim (Bool-cases env.redis_is_up) [
            | inr down ↦ rw (e, good, down) h
            | inl up ↦ elim (Bool-cases (ltb 60 counted.0)) [
              | inl over ↦ rw (e, good, up, over) absent
              | inr under ↦ elim (Bool-cases set.0) [
                | inl ok ↦ rw (e, good, up, under, ok) still
                | inr wrong ↦ rw (e, good, up, under, wrong) still
              ]
            ]
          ]
        ]
      ]

  -- What may happen to the store, as far as a nonce can tell: requests that are checked under any
  -- options, other nonces that are handed out, and time that passes.
  pub data Later (public_key nonce : String) (s : Store) : Store → Type 0 where
    now : Later public_key nonce s s
    request :
        (env : AuthEnv) (options : SignatureAuthOptions) (req : Request) {t : Store}
        → Later public_key nonce s t
        → Later public_key nonce s (signature_auth redis env options req t).1
    issue :
        (env : AuthEnv) (owner ip : String) {t : Store}
        → server_nonce_key public_key nonce ≢ server_nonce_key owner env.uuid
        → Later public_key nonce s t
        → Later public_key nonce s (issue_nonce redis env owner ip t).1
    lapse :
        {t u : Store}
        → (get (server_nonce_key public_key nonce) t ≡ none
            → get (server_nonce_key public_key nonce) u ≡ none)
        → Later public_key nonce s t
        → Later public_key nonce s u

  stays_absent :
      (public_key nonce : String) {s t : Store}
      → Later public_key nonce s t
      → nonce_at public_key nonce s ≡ none
      → nonce_at public_key nonce t ≡ none
  stays_absent public_key nonce now h = h
  stays_absent public_key nonce (request env options req {t} before) h =
      signature_auth_absent env options req public_key nonce t
        (stays_absent public_key nonce before h)
  stays_absent public_key nonce (issue env owner ip {t} other before) h =
      issue_nonce_absent env owner ip public_key nonce t other
        (stays_absent public_key nonce before h)
  stays_absent public_key nonce (lapse forgets before) h =
      forgets (stays_absent public_key nonce before h)

  -- Once a request has passed, no request with its key and its nonce passes again, under any options,
  -- whatever requests and nonces come between, as long as the server does not hand out the same nonce
  -- again, and clients may not choose theirs.
  pub signature_auth_once :
      (env : AuthEnv) (options : SignatureAuthOptions) (req : Request) (s : Store) (k : String)
      → (signature_auth redis env options req s).0 ≡ next (some k)
      → (env' : AuthEnv) (options' : SignatureAuthOptions) (req' : Request) (t : Store)
        (k' : String)
      → Later req.public_key req.nonce (signature_auth redis env options req s).1 t
      → env'.allow_client_nonce ≡ false
      → req'.public_key ≡ req.public_key
      → req'.nonce ≡ req.nonce
      → (signature_auth redis env' options' req' t).0 ≢ next (some k')
  signature_auth_once env options req s k h env' options' req' t k' between strict same_key
        same_nonce again =
      let spent = signature_auth_spends env options req s k h in
      let gone = stays_absent req.public_key req.nonce between spent in
      let (_, _, shown) = signature_auth-IsAuthentic redis env' options' req' t k' again in
      elim shown [
        | inl there ↦ absurd (let here = (rw (same_key, same_nonce) at there) in cc)
        | inr allows ↦ absurd cc
      ]
