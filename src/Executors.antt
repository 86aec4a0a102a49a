-- ===== src/Executors.antt =====
-- src/controllers/executorController.ts and src/repositories/executorRepository.ts: the executors
-- that the server knows.
mod Tests
pub mod Registration
use trust_gate.Prelude.{
  ℕ, String, codes, Bool, true, false, not, ◌&&◌, Option, none, some, List, [], ◌∷◌, if◌then◌else◌,
}
use trust_gate.Money.{trim}
use trust_gate.Schema.{RequestBody, string_field}
use trust_gate.Table.{find, upsert}
use trust_gate.Server.{World, Env, Result, ok, err, ExecutorRecord, executor_key}
use trust_gate.Server.Action.{
  Body, Action, ◌>>=◌, ◌>>◌, pure, respond, respond_if, gets, modify, or_respond,
}

-- `findByPublicKey`; a row without a URI is not written by the server
unfoldable pub find_executor : String → World → Option ExecutorRecord
find_executor public_key w = find executor_key public_key w.executors

-- `!metadataUri.trim()`
abbrev pub is_blank : String → Bool
is_blank s = elim (trim (codes s)) [ [] ↦ true | c ∷ rest ↦ false ]

-- the text of a field that may not be blank
abbrev pub filled_field : String → RequestBody → Option String
filled_field name body = elim (string_field name body) [
  | none ↦ none
  | some value ↦ if is_blank value then none else some value
]

module _ (env : Env) where
  -- `save`: the database keeps the time of the first registration, the map in memory does not
  unfoldable pub kept_executor : ExecutorRecord → World → ExecutorRecord
  unfolding find_executor
  kept_executor new_record w = elim (find_executor new_record.public_key w) [
    | none ↦ new_record
    | some old ↦
        if env.has_outbox
        then record new_record { registered_at = old.registered_at }
        else new_record
  ]

  unfoldable pub save_executor : ExecutorRecord → World → World
  unfolding kept_executor
  save_executor new_record w = record w {
    executors = upsert executor_key (kept_executor new_record w) w.executors;
  }

  abbrev pub new_executor : (public_key metadata_uri : String) → World → ExecutorRecord
  new_executor public_key metadata_uri w = record {
    public_key = public_key;
    metadata_uri = metadata_uri;
    registered_at = w.now;
  }

  -- Whether the table takes the record; the map in memory takes every one.
  unfoldable pub takes_executor : ExecutorRecord → Bool
  takes_executor new_record =
      if env.has_outbox
      then env.is_text new_record.public_key && env.is_text new_record.metadata_uri
      else true

  -- what both networks do once the registry knows the executor; an error of the database rejects the
  -- handler, which Express answers with 500
  unfoldable pub store_executor : (public_key metadata_uri : String) → Action (Unit {0})
  unfolding save_executor takes_executor
  store_executor public_key metadata_uri = do
    new_record ← gets (new_executor public_key metadata_uri)
    respond_if (not (takes_executor new_record)) 500 "Internal Server Error"
    modify (save_executor new_record)
    respond 201 (Body.executor new_record)

  -- on the local network the server registers the executor itself
  unfoldable pub register_local : RequestBody → Action (Unit {0})
  register_local body = do
    secret ← or_respond (string_field "secret" body) 400 "secret and metadataUri are required"
    metadata_uri ←
        or_respond (filled_field "metadataUri" body) 400 "secret and metadataUri are required"
    public_key ← or_respond (env.key_of_secret secret) 400 "invalid secret"
    elim (env.register_executor public_key metadata_uri) [
      | none ↦ store_executor public_key metadata_uri
      | some message ↦ respond 409 (Body.error "registration failed")
    ]

  -- An error of the registry rejects the handler, which Express answers with 500.
  unfoldable pub register_known : RequestBody → Action (Unit {0})
  register_known body = do
    public_key ←
        or_respond (string_field "publicKey" body) 400 "publicKey and metadataUri are required"
    metadata_uri ←
        or_respond (filled_field "metadataUri" body) 400 "publicKey and metadataUri are required"
    elim (env.is_registered public_key) [
      | err message ↦ respond 500 (Body.error "Internal Server Error")
      | ok registered ↦
          if registered
          then store_executor public_key metadata_uri
          else respond 409 (Body.error "executor is not registered on-chain")
    ]

  -- `POST /executor/register`
  unfoldable pub register : RequestBody → Action (Unit {0})
  register body = if env.is_local then register_local body else register_known body
