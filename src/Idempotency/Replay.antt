-- ===== src/Idempotency/Replay.antt =====
-- A request that is sent again.
use trust_gate.Prelude.{
  text_eq, ◌<◌, String, Text, true, false, ◌≡◌, ◌≢◌, refl, ap, ◌∙◌, List, [], ◌∷◌, ◌++◌, Option,
  none, some, arith, eq_iff, ◌==◌, Bool-cases, Option-cases, inl, inr, ltb,
}
use trust_gate.Table.{find}
use trust_gate.Http.{Request}
use trust_gate.Server.Action.{Response}
use trust_gate.Idempotency.{
  IdempotencyRecord, idempotency_key, IdempotencyOptions, Site, Handler, insert, differ,
  request_hash, owner_key, replay, remember, run_handler, idempotency,
}

differ_self : (o : Option String) → differ o o ≡ false
differ_self none = refl
differ_self (some a) = ground (arith, eq_iff a a)

text_eq_self : (t : Text) → text_eq t t ≡ true
text_eq_self [] = refl
text_eq_self (c ∷ t) = ground (arith, text_eq_self t)

find-append :
    (k : String) (rows : List IdempotencyRecord) (r : IdempotencyRecord)
    → find idempotency_key k rows ≡ none
    → r.key ≡ k
    → find idempotency_key k (rows ++ r ∷ []) ≡ some r
unfolding find
find-append k [] r h e = ground (arith, eq_iff r.key k)
find-append k (x ∷ rows) r h e = ground (arith, find-append k rows r)

find-append_some :
    (k : String) (rows : List IdempotencyRecord) (r x : IdempotencyRecord)
    → find idempotency_key k rows ≡ some x
    → find idempotency_key k (rows ++ r ∷ []) ≡ some x
unfolding find
find-append_some k [] r x h = cc
find-append_some k (y ∷ rows) r x h = ground (arith, find-append_some k rows r x)

module _ (sha256 : Text → Text) (options : IdempotencyOptions) (req : Request)
    (public_key : Option String) where
  -- the record of a response to the request
  abbrev pub record_of : Response → IdempotencyRecord
  record_of r = record {
    key = req.idempotency_key;
    scope = options.scope;
    public_key = owner_key sha256 options public_key req;
    request_hash = request_hash sha256 options req;
    response_code = r.status;
    response_body = r.body;
  }

  replay_own :
      (r : Response)
      → replay sha256 options
          (record_of r)
          (owner_key sha256 options public_key req)
          (request_hash sha256 options req)
        ≡ r
  unfolding replay
  replay_own r = ground (
    arith,
    eq_iff options.scope options.scope,
    differ_self (owner_key sha256 options public_key req),
    text_eq_self (request_hash sha256 options req),
  )

  find-remember :
      (rows : List IdempotencyRecord) (r : Response)
      → find idempotency_key req.idempotency_key rows ≡ none
      → r.status < 500
      → find idempotency_key req.idempotency_key (
          remember sha256 options req.idempotency_key
            (owner_key sha256 options public_key req)
            (request_hash sha256 options req)
            (some r)
            rows)
        ≡ some (record_of r)
  unfolding remember insert
  find-remember rows r absent ok =
      let small : ltb r.status 500 ≡ true = ground arith in
      rw (small, absent, insert) (find-append req.idempotency_key rows (record_of r) absent refl)

  module _ {S : Type 0} where
    answer_stored :
        (handler : Handler S) (s : Site S) (r : Response)
        → req.idempotency_key ≢ ""
        → find idempotency_key req.idempotency_key s.rows ≡ some (record_of r)
        → idempotency sha256 options req public_key handler s ≡ (some r, s)
    unfolding idempotency
    answer_stored handler s r named found =
        let given : (req.idempotency_key == "") ≡ false =
          ground (arith, eq_iff req.idempotency_key "") in
        rw (given, found) (ap (λ (x : Response). (some x, s)) (replay_own r))

    first_run :
        (handler : Handler S) (s : Site S)
        → req.idempotency_key ≢ ""
        → find idempotency_key req.idempotency_key s.rows ≡ none
        → idempotency sha256 options req public_key handler s
          ≡ run_handler sha256 options req public_key handler s
    unfolding idempotency
    first_run handler s named absent =
        let given : (req.idempotency_key == "") ≡ false =
          ground (arith, eq_iff req.idempotency_key "") in
        rw (given, absent) refl

    ran :
        (handler : Handler S) (s : Site S) (r : Response) (t : S)
        → handler s.state ≡ (some r, t)
        → run_handler sha256 options req public_key handler s ≡ (
          some r,
          record {
            state = t;
            rows =
                remember sha256 options req.idempotency_key
                  (owner_key sha256 options public_key req)
                  (request_hash sha256 options req)
                  (some r)
                  s.rows;
          },
        )
    unfolding run_handler
    ran handler s r t e = rw e refl

    -- A request with a key that is not in the table runs its handler. Where it is answered with a
    -- status below 500, the same request is given the same answer from then on, for as long as the
    -- row of its key stands, and no handler runs: the state stays as it is.
    pub idempotency_replay :
        (handler : Handler S) (s : Site S) (r : Response) (t : S)
        → req.idempotency_key ≢ ""
        → find idempotency_key req.idempotency_key s.rows ≡ none
        → handler s.state ≡ (some r, t)
        → r.status < 500
        → let (answer, s1) = idempotency sha256 options req public_key handler s in
          (answer ≡ some r)
          × (s1.state ≡ t)
          × ((again : Handler S) (later : Site S)
              → find idempotency_key req.idempotency_key later.rows
                ≡ find idempotency_key req.idempotency_key s1.rows
              → idempotency sha256 options req public_key again later ≡ (some r, later))
    idempotency_replay handler s r t named absent answered ok =
        rw (first_run handler s named absent ∙ ran handler s r t answered) (
          refl,
          refl,
          λ again later kept.
              answer_stored again later r named (kept ∙ find-remember s.rows r absent ok),
        )

-- The rows that are there stay, whatever is asked next.
find-insert :
    (k : String) (r x : IdempotencyRecord) (rows : List IdempotencyRecord)
    → find idempotency_key k rows ≡ some x
    → find idempotency_key k (insert r rows) ≡ some x
unfolding insert
find-insert k r x rows h = elim (Option-cases (find idempotency_key r.key rows)) [
  | inl e ↦ rw (e, insert) (find-append_some k rows r x h)
  | inr (old, e) ↦ rw (e, insert) h
]

module _ (sha256 : Text → Text) (options : IdempotencyOptions) (req : Request)
    (public_key : Option String) where
  find-remember_other :
      (answer : Option Response) (rows : List IdempotencyRecord) (k : String)
      (x : IdempotencyRecord)
      → find idempotency_key k rows ≡ some x
      → find idempotency_key k (
          remember sha256 options req.idempotency_key
            (owner_key sha256 options public_key req)
            (request_hash sha256 options req)
            answer
            rows)
        ≡ some x
  unfolding remember
  find-remember_other none rows k x h = h
  find-remember_other (some r) rows k x h = elim (Bool-cases (ltb r.status 500)) [
    | inl e ↦ rw e (find-insert k (record_of sha256 options req public_key r) x rows h)
    | inr e ↦ rw e h
  ]

  -- The row of a key stays, whatever request comes next.
  idempotency-keeps :
      {S : Type 0} (handler : Handler S) (s : Site S) (k : String) (x : IdempotencyRecord)
      → find idempotency_key k s.rows ≡ some x
      → find idempotency_key k (idempotency sha256 options req public_key handler s).1.rows ≡ some x
  unfolding idempotency run_handler
  idempotency-keeps handler s k x h = elim (Bool-cases (req.idempotency_key == "")) [
    | inl e ↦ elim (Bool-cases options.require_header) [ inl r ↦ rw (e, r) h | inr r ↦ rw (e, r) h ]
    | inr e ↦ elim (Option-cases (find idempotency_key req.idempotency_key s.rows)) [
      | inl absent ↦ rw (e, absent) (find-remember_other (handler s.state).0 s.rows k x h)
      | inr (old, there) ↦ rw (e, there) h
    ]
  ]
