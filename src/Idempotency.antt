-- ===== src/Idempotency.antt =====
-- src/middlewares/idempotency.ts and src/repositories/idempotencyRepository.ts: a request that is
-- sent again with its key is answered from the table. A response is stored when it is finished,
-- which is taken as one step with the handler.
pub mod Replay
mod Tests
use trust_gate.Prelude.{
  text_eq, ℕ, String, Text, codes, Bool, true, false, not, ltb, List, [], ◌∷◌, ◌++◌, Option, none,
  some, ◌==◌, ◌=?◌, ◌&&◌, if◌then◌else◌,
}
use trust_gate.Table.{find}
use trust_gate.Http.{Request, join_lines, upper_method, request_path}
use trust_gate.Schema.{RequestBody, string_field}
use trust_gate.Server.Action.{Body, Response}

-- `IdempotencyRecord`, without its time
pub record IdempotencyRecord : Type 0 where
  pub key : String
  pub scope : String
  pub public_key : Option String
  pub request_hash : Text
  pub response_code : ℕ
  pub response_body : Body

abbrev pub idempotency_key : IdempotencyRecord → String
idempotency_key r = r.key

-- `publicKeyFrom`
pub data PublicKeyFrom : Type 0 where
  nowhere auth : PublicKeyFrom
  body_field : String → PublicKeyFrom

pub record IdempotencyOptions : Type 0 where
  pub scope : String
  pub public_key_from : PublicKeyFrom
  pub require_header : Bool

-- `PgIdempotencyRepository.insert`: a key that is there already is refused by the table, and the
-- error is dropped
unfoldable pub insert : IdempotencyRecord → List IdempotencyRecord → List IdempotencyRecord
insert r rows = elim (find idempotency_key r.key rows) [ none ↦ rows ++ r ∷ [] | some old ↦ rows ]

-- `(a ?? null) !== (b ?? null)`
abbrev pub differ : Option String → Option String → Bool
differ none none = false
differ none (some b) = true
differ (some a) none = true
differ (some a) (some b) = not (a == b)

pub record Site {ℓ} (S : Type ℓ) : Type ℓ where
  pub state : S
  pub rows : List IdempotencyRecord

-- A handler behind the middleware: what it answers, if it answers.
abbrev pub Handler {ℓ} : Type ℓ → Type ℓ
Handler S = S → Option Response × S

abbrev pub error_response : ℕ → String → Response
error_response status message = record { status = status; body = Body.error message }

-- `sha256 t` is the SHA-256 of the text in hexadecimal digits.
module _ (sha256 : Text → Text) (options : IdempotencyOptions) where
  unfoldable pub request_hash : Request → Text
  unfolding join_lines upper_method request_path
  request_hash req =
      sha256 (join_lines (upper_method req ∷ request_path req ∷ sha256 req.raw_body ∷ []))

  unfoldable pub owner_key : Option String → Request → Option String
  owner_key auth_public_key req = elim options.public_key_from [
    | nowhere ↦ none
    | auth ↦ auth_public_key
    | body_field name ↦ string_field name req.body
  ]

  -- the answer from a record that is there
  unfoldable pub replay : IdempotencyRecord → Option String → Text → Response
  replay existing public_key hash =
      if not (existing.scope == options.scope)
      then error_response 409 "idempotency key scope mismatch"
      else if differ existing.public_key public_key
      then error_response 409 "idempotency key owner mismatch"
      else if not (text_eq existing.request_hash hash)
      then error_response 409 "idempotency key reused with different request"
      else record { status = existing.response_code; body = existing.response_body }

  -- the record of a response, unless the server failed
  unfoldable pub remember :
      String
      → Option String
      → Text
      → Option Response
      → List IdempotencyRecord
      → List IdempotencyRecord
  unfolding insert
  remember key public_key hash none rows = rows
  remember key public_key hash (some r) rows =
      if ltb r.status 500
      then insert
          (record {
            key = key;
            scope = options.scope;
            public_key = public_key;
            request_hash = hash;
            response_code = r.status;
            response_body = r.body;
          })
          rows
      else rows

  unfoldable pub run_handler {ℓ} :
      {S : Type ℓ} → Request → Option String → Handler S → Site S → Option Response × Site S
  unfolding remember
  run_handler req auth_public_key handler s =
      let (answer, state) = handler s.state in
      (
        answer,
        record {
          state = state;
          rows =
              remember req.idempotency_key (owner_key auth_public_key req) (request_hash req) answer
                s.rows;
        },
      )

  unfoldable pub idempotency {ℓ} :
      {S : Type ℓ}
      → Request
      → (auth_public_key : Option String) → Handler S
      → Site S
      → Option Response × Site S
  unfolding run_handler replay owner_key request_hash
  idempotency req auth_public_key handler s =
      if req.idempotency_key == ""
      then (if options.require_header
          then (some (error_response 400 "missing Idempotency-Key header"), s)
          else (let (answer, state) = handler s.state in (answer, record s { state = state })))
      else (elim (find idempotency_key req.idempotency_key s.rows) [
        | some existing ↦
            (some (replay existing (owner_key auth_public_key req) (request_hash req)), s)
        | none ↦ run_handler req auth_public_key handler s
      ])
