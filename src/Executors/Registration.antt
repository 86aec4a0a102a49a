-- ===== src/Executors/Registration.antt =====
-- An executor that is registered is known to the registry, and is stored.
use trust_gate.Prelude.{
  String, true, false, ◌≡◌, ap, ◌∙◌, ◌⊎◌, inl, inr, none, some, arith, eq_iff, Bool-cases,
  Option-cases,
}
use trust_gate.Schema.{RequestBody, string_field}
use trust_gate.Table.{find-upsert}
use trust_gate.Server.{SameTables, World, Env, ok, ExecutorRecord, executor_key, Result-cases}
use trust_gate.Server.Action.{Body, Response, Flow, answered}
use trust_gate.Executors.{
  find_executor, is_blank, filled_field, kept_executor, save_executor, new_executor, takes_executor,
  store_executor, register_local, register_known, register,
}

module _ (env : Env) where
  -- the registry of the network knows the executor
  abbrev pub InRegistry : (public_key metadata_uri : String) → Type 0
  InRegistry public_key metadata_uri =
      ((env.is_local ≡ true) × (env.register_executor public_key metadata_uri ≡ none))
      ⊎ ((env.is_local ≡ false) × (env.is_registered public_key ≡ ok true))

  -- The body names the executor: on the local network by its secret, elsewhere by its key.
  abbrev pub Names : RequestBody → (public_key : String) → Type 0
  Names body public_key =
      ((env.is_local ≡ true)
        × ((secret : String) × (string_field "secret" body ≡ some secret)
            × (env.key_of_secret secret ≡ some public_key)))
      ⊎ ((env.is_local ≡ false) × (string_field "publicKey" body ≡ some public_key))

  filled_string :
      (name : String) (body : RequestBody) (value : String)
      → filled_field name body ≡ some value
      → string_field name body ≡ some value
  filled_string name body value h = elim (Option-cases (string_field name body)) [
    | inl e ↦ absurd (ground arith)
    | inr (text, e) ↦ elim (Bool-cases (is_blank text)) [
      | inl blank ↦ absurd (ground arith)
      | inr full ↦ ground arith
    ]
  ]

  filled :
      (name : String) (body : RequestBody) (value : String)
      → filled_field name body ≡ some value
      → is_blank value ≡ false
  filled name body value h = elim (Option-cases (string_field name body)) [
    | inl e ↦ absurd (ground arith)
    | inr (text, e) ↦ elim (Bool-cases (is_blank text)) [
      | inl blank ↦ absurd (ground arith)
      | inr full ↦ let same : text ≡ value = ground arith in rw (← same) full
    ]
  ]

  local_stores :
      (body : RequestBody) (w : World) (r : Response)
      → env.is_local ≡ true
      → (register env body w).0 ≡ answered r
      → r.status ≡ 201
      → (public_key metadata_uri : String) × Names body public_key
        × (filled_field "metadataUri" body ≡ some metadata_uri)
        × (env.register_executor public_key metadata_uri ≡ none)
        × (register env body w ≡ store_executor env public_key metadata_uri w)
  unfolding register register_local
  local_stores body w r here h created = elim (Option-cases (string_field "secret" body)) [
    | inl e ↦ absurd (ground arith)
    | inr (secret, e) ↦ elim (Option-cases (filled_field "metadataUri" body)) [
      | inl f ↦ absurd (ground arith)
      | inr (metadata_uri, f) ↦ elim (Option-cases (env.key_of_secret secret)) [
        | inl g ↦ absurd (ground arith)
        | inr (public_key, g) ↦
            elim (Option-cases (env.register_executor public_key metadata_uri)) [
              | inr (message, i) ↦ absurd (ground arith)
              | inl i ↦ (public_key, metadata_uri, inl (here, (secret, e, g)), f, i, ground arith)
            ]
      ]
    ]
  ]

  known_stores :
      (body : RequestBody) (w : World) (r : Response)
      → env.is_local ≡ false
      → (register env body w).0 ≡ answered r
      → r.status ≡ 201
      → (public_key metadata_uri : String) × Names body public_key
        × (filled_field "metadataUri" body ≡ some metadata_uri)
        × (env.is_registered public_key ≡ ok true)
        × (register env body w ≡ store_executor env public_key metadata_uri w)
  unfolding register register_known
  known_stores body w r there h created = elim (Option-cases (string_field "publicKey" body)) [
    | inl e ↦ absurd (ground arith)
    | inr (public_key, e) ↦ elim (Option-cases (filled_field "metadataUri" body)) [
      | inl f ↦ absurd (ground arith)
      | inr (metadata_uri, f) ↦ elim (Result-cases (env.is_registered public_key)) [
        | inr (message, i) ↦ absurd (ground arith)
        | inl (registered, i) ↦ elim (Bool-cases registered) [
          | inl y ↦ (public_key, metadata_uri, inr (there, e), f, i ∙ ap ok y, ground arith)
          | inr n ↦ absurd (ground arith)
        ]
      ]
    ]
  ]

  kept_fields :
      (r : ExecutorRecord) (w : World)
      → kept_executor env r w ≡ record r { registered_at = (kept_executor env r w).registered_at }
  unfolding kept_executor
  kept_fields r w = ground arith

  find-save_executor :
      (r : ExecutorRecord) (w : World)
      → find_executor r.public_key (save_executor env r w) ≡ some (kept_executor env r w)
  unfolding find_executor save_executor
  find-save_executor r w =
      let same : executor_key (kept_executor env r w) ≡ r.public_key =
        ap executor_key (kept_fields r w) in
      ground (
        arith,
        eq_iff (executor_key (kept_executor env r w)) r.public_key,
        find-upsert executor_key r.public_key (kept_executor env r w) w.executors,
      )

  -- what a registration leaves
  abbrev Leaves : (public_key metadata_uri : String) → World → Type 0
  Leaves public_key metadata_uri w =
      (stored : ExecutorRecord) × (find_executor public_key w ≡ some stored)
      × (stored.metadata_uri ≡ metadata_uri)

  store_executor-Leaves :
      (public_key metadata_uri : String) (w : World)
      → takes_executor env (new_executor env public_key metadata_uri w) ≡ true
      → Leaves public_key metadata_uri (store_executor env public_key metadata_uri w).1
  unfolding store_executor
  store_executor-Leaves public_key metadata_uri w taken =
      let new_record = new_executor env public_key metadata_uri w in
      rw (taken, store_executor)
        (
          kept_executor env new_record w,
          find-save_executor new_record w,
          ap (λ (x : ExecutorRecord). x.metadata_uri) (kept_fields new_record w),
        )

  store_taken :
      (body : RequestBody) (w : World) (r : Response) (public_key metadata_uri : String)
      → (register env body w).0 ≡ answered r
      → r.status ≡ 201
      → register env body w ≡ store_executor env public_key metadata_uri w
      → takes_executor env (new_executor env public_key metadata_uri w) ≡ true
  unfolding store_executor
  store_taken body w r public_key metadata_uri h created same =
      let answer = ap (λ (u : Flow (Unit {0}) × World). u.0) same in
      elim (Bool-cases (takes_executor env (new_executor env public_key metadata_uri w))) [
        | inl e ↦ e
        | inr e ↦ absurd (ground arith)
      ]

  store_answers :
      (body : RequestBody) (w : World) (r : Response) (public_key metadata_uri : String)
      → (register env body w).0 ≡ answered r
      → r.status ≡ 201
      → register env body w ≡ store_executor env public_key metadata_uri w
      → r.body ≡ Body.executor (new_executor env public_key metadata_uri w)
  unfolding store_executor
  store_answers body w r public_key metadata_uri h created same =
      let answer = ap (λ (u : Flow (Unit {0}) × World). u.0) same in
      let taken = store_taken body w r public_key metadata_uri h created same in ground arith

  -- A registration that is answered with 201 is one of the executor that the body names, by its secret
  -- on the local network and by its key elsewhere. The registry of the network knows that executor, the
  -- URI of the body is not blank, the answer names the two, and the executor is then found with that URI.
  pub register-InRegistry :
      (body : RequestBody) (w : World) (r : Response)
      → (register env body w).0 ≡ answered r
      → r.status ≡ 201
      → (public_key metadata_uri : String) × Names body public_key
        × (string_field "metadataUri" body ≡ some metadata_uri)
        × InRegistry public_key metadata_uri
        × (r.body ≡ Body.executor (new_executor env public_key metadata_uri w))
        × (is_blank metadata_uri ≡ false)
        × ((stored : ExecutorRecord) × (find_executor public_key (register env body w).1
              ≡ some stored)
            × (stored.metadata_uri ≡ metadata_uri))
  register-InRegistry body w r h created = elim (Bool-cases env.is_local) [
    | inl here ↦
        let (public_key, metadata_uri, named, f, i, same) = local_stores body w r here h created in
        (
          public_key,
          metadata_uri,
          named,
          filled_string "metadataUri" body metadata_uri f,
          inl (here, i),
          store_answers body w r public_key metadata_uri h created same,
          filled "metadataUri" body metadata_uri f,
          rw same (
              store_executor-Leaves public_key metadata_uri w
                (store_taken body w r public_key metadata_uri h created same)),
        )
    | inr there ↦
        let (public_key, metadata_uri, named, f, i, same) = known_stores body w r there h created in
        (
          public_key,
          metadata_uri,
          named,
          filled_string "metadataUri" body metadata_uri f,
          inr (there, i),
          store_answers body w r public_key metadata_uri h created same,
          filled "metadataUri" body metadata_uri f,
          rw same (
              store_executor-Leaves public_key metadata_uri w
                (store_taken body w r public_key metadata_uri h created same)),
        )
  ]

  -- No registration touches tasks or bids.
  pub register_tables : (body : RequestBody) (w : World) → SameTables w (register env body w).1
  unfolding register register_local register_known store_executor save_executor
  register_tables body w = (ground arith, ground arith)
