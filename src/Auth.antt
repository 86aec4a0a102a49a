-- ===== src/Auth.antt =====
-- src/middlewares/signatureAuth.ts and src/controllers/authController.ts: signed requests, and the
-- nonces that the server hands out.
pub mod Counters
pub mod Accepted
pub mod Nonces
pub mod Issued
pub mod Memory
mod Tests
use trust_gate.Prelude.{
  ℕ, ◌+◌, ◌-◌, ◌*◌, ◌%◌, String, Text, codes, concat, Bool, true, false, not, ◌&&◌, ◌||◌, ltb, leb,
  all, length, List, [], ◌∷◌, ◌++◌, Option, none, some, ◌==◌, ◌=?◌, if◌then◌else◌,
}
use trust_gate.Money.{ℤ, pos, negsuc, trim, is_digit}
use trust_gate.Redis.{Redis}
use trust_gate.Http.{Request, join_lines, upper_method, request_path}
use trust_gate.Schema.{RequestBody, string_field}
use trust_gate.Server.Action.{Body, Response, Flow, answered, next}

pub record SignatureAuthOptions : Type 0 where
  pub required : Bool
  pub match_body_field : Option String
  pub nonce_ttl_seconds : ℕ
  pub enforce_in_local : Bool

-- The process environment and the clock, and the code that is called: `number` is `Number` of a text
-- where that is finite, for whole numbers; `is_key` and `verify` are those of a Stellar key pair;
-- `from_hex` and `from_base64` are the decodings of `Buffer.from`; `digits` is `String` of a number.
pub record AuthEnv : Type 0 where
  pub is_local : Bool
  pub is_test : Bool
  pub allow_client_nonce : Bool
  pub redis_is_up : Bool
  pub now : ℕ
  pub number : String → Option ℤ
  pub digits : ℕ → String
  pub is_key : String → Bool
  pub verify : (public_key : String) → (payload signature : Text) → Bool
  pub from_hex : Text → Text
  pub from_base64 : Text → Text
  pub sha256 : Text → Text
  pub uuid : String

-- `[0-9a-fA-F]`
abbrev pub is_hex : ℕ → Bool
is_hex c = is_digit c || ((leb b'a' c && leb c b'f') || (leb b'A' c && leb c b'F'))

-- `looksHex`
unfoldable pub looks_hex : Text → Bool
looks_hex [] = false
looks_hex (c ∷ s) = all is_hex (c ∷ s) && (length (c ∷ s) % 2 =? 0)

-- `Math.abs(Date.now() - timestamp)`
unfoldable pub distance : ℕ → ℤ → ℕ
distance now (pos t) = (now - t) + (t - now)
distance now (negsuc t) = now + t + 1

abbrev pub window_ms : ℕ
window_ms = 5 * 60 * 1000

unfoldable pub nonce_key : (prefix public_key nonce : String) → String
unfolding concat
nonce_key prefix public_key nonce = concat prefix (concat public_key (concat ":" nonce))

-- `tg:nonce2:${publicKey}:${nonce}`
unfoldable pub server_nonce_key : (public_key nonce : String) → String
unfolding nonce_key
server_nonce_key = nonce_key "tg:nonce2:"

unfoldable pub legacy_nonce_key : (public_key nonce : String) → String
unfolding nonce_key
legacy_nonce_key = nonce_key "tg:nonce:"

abbrev pub error_response : ℕ → String → Response
error_response status message = record { status = status; body = Body.error message }

module _ (redis : Redis) where
  open redis use {Store, getdel, set_nx, incr, expire}

  unfoldable pub incr_with_ttl : String → ℕ → Store → ℕ × Store
  incr_with_ttl key ttl s =
      let (count, s1) = incr key s in (count, if count =? 1 then expire key ttl s1 else s1)

  -- a counter that is kept only where its name is not empty
  unfoldable pub count_failure : String → String → Store → ℕ × Store
  unfolding incr_with_ttl concat
  count_failure prefix name s =
      if name == "" then (0, s) else incr_with_ttl (concat prefix name) 60 s

  module _ (env : AuthEnv) where
    -- the answer to a failure, by what the counters say
    unfoldable pub fail : Request → String → Store → Response × Store
    unfolding count_failure
    fail req message s =
        if env.redis_is_up
        then (let (ip_count, s1) = count_failure "tg:authfail:ip:" req.ip s in
            let (pk_count, s2) = count_failure "tg:authfail:pk:" req.public_key s1 in
            if ltb 30 ip_count || ltb 10 pk_count
            then (error_response 429 "rate limit exceeded", s2)
            else (error_response 401 message, s2))
        else (error_response 401 message, s)

    unfoldable pub signed_payload : Request → Text
    unfolding join_lines upper_method request_path
    signed_payload req = join_lines (
        upper_method req
        ∷ request_path req
        ∷ codes req.timestamp
        ∷ codes req.nonce
        ∷ env.sha256 req.raw_body
        ∷ [])

    unfoldable pub parse_signature : String → Text
    unfolding looks_hex
    parse_signature signature =
        let trimmed = trim (codes signature) in
        if looks_hex trimmed then env.from_hex trimmed else env.from_base64 trimmed

    -- the body may name no other key than the one that signs
    unfoldable pub body_mismatch : SignatureAuthOptions → Request → Option String
    body_mismatch options req = elim options.match_body_field [
      | none ↦ none
      | some field ↦ elim (string_field field req.body) [
        | none ↦ none
        | some value ↦
            if value == req.public_key then none else some (concat "public key mismatch for " field)
      ]
    ]

    unfoldable pub timestamp_error : Request → Option String
    unfolding distance
    timestamp_error req = elim (env.number req.timestamp) [
      | none ↦ some "invalid timestamp"
      | some t ↦
          if ltb window_ms (distance env.now t)
          then some "timestamp outside allowed window"
          else none
    ]

    unfoldable pub signature_error : Request → Option String
    unfolding signed_payload parse_signature
    signature_error req =
        if not (env.is_key req.public_key)
        then some "invalid public key"
        else if not (env.verify req.public_key (signed_payload req) (parse_signature req.signature))
        then some "invalid signature"
        else none

    -- all the checks of a signed request before its nonce is taken, in their order
    unfoldable pub request_error : SignatureAuthOptions → Request → Option String
    unfolding timestamp_error body_mismatch signature_error
    request_error options req = elim (timestamp_error req) [
      | some e ↦ some e
      | none ↦ elim (body_mismatch options req) [ some e ↦ some e | none ↦ signature_error req ]
    ]

    -- the nonce is taken from the store, or, where clients may choose it, put there
    unfoldable pub take_nonce : SignatureAuthOptions → Request → Store → Option String × Store
    unfolding server_nonce_key legacy_nonce_key
    take_nonce options req s =
        let (issued_at, s1) = getdel (server_nonce_key req.public_key req.nonce) s in
        elim issued_at [
          | some t ↦ (if t == req.timestamp then none else some "invalid nonce", s1)
          | none ↦
              if env.allow_client_nonce
              then (let (set, s2) =
                    set_nx (legacy_nonce_key req.public_key req.nonce) "1" options.nonce_ttl_seconds
                      s1 in
                  (if set then none else some "replayed nonce", s2))
              else (some "invalid nonce", s1)
        ]

    abbrev pub has_headers : Request → Bool
    has_headers req = not (
        (req.public_key == "")
        || ((req.timestamp == "") || ((req.nonce == "") || (req.signature == ""))))

    abbrev pub answer_failure : Request → String → Store → Flow (Option String) × Store
    answer_failure req message s = let (r, s1) = fail req message s in (answered r, s1)

    -- a request with all of its headers
    unfoldable pub authenticate :
        SignatureAuthOptions → Request → Store → Flow (Option String) × Store
    unfolding request_error take_nonce fail
    authenticate options req s = elim (request_error options req) [
      | some message ↦ answer_failure req message s
      | none ↦
          if not env.redis_is_up
          then (answered (error_response 503 "nonce store unavailable"), s)
          else (let (error, s1) = take_nonce options req s in
              elim error [
                | some message ↦ answer_failure req message s1
                | none ↦ (next (some req.public_key), s1)
              ])
    ]

    -- The middleware: it goes on with the key that has signed, if one has.
    unfoldable pub signature_auth :
        SignatureAuthOptions → Request → Store → Flow (Option String) × Store
    unfolding authenticate
    signature_auth options req s =
        if (not options.enforce_in_local && env.is_local) || env.is_test
        then (next none, s)
        else if not (has_headers req)
        then (if options.required
            then answer_failure req "missing signature headers" s
            else (next none, s))
        else authenticate options req s

    -- `POST /auth/nonce`; `public_key` is the text of `publicKey` in the body. A Redis that cannot be
    -- reached rejects the handler, which Express answers with 500.
    unfoldable pub issue_nonce : (public_key ip : String) → Store → Response × Store
    unfolding incr_with_ttl server_nonce_key
    issue_nonce public_key ip s =
        if public_key == ""
        then (error_response 400 "publicKey is required", s)
        else if not (env.is_key public_key)
        then (error_response 400 "invalid public key", s)
        else if not env.redis_is_up
        then (error_response 500 "Internal Server Error", s)
        else (let (ip_count, s1) = incr_with_ttl (concat "tg:authnonce:ip:" ip) 60 s in
            if ltb 60 ip_count
            then (error_response 429 "rate limit exceeded", s1)
            else (let (set, s2) =
                  set_nx (server_nonce_key public_key env.uuid) (env.digits env.now) 600 s1 in
                if set
                then (record { status = 200; body = Body.nonce public_key env.now env.uuid }, s2)
                else (error_response 503 "nonce store unavailable", s2)))
