-- ===== src/Server/Action.antt =====
-- Handlers: a block that reads and writes the state, and may answer and return early.
use trust_gate.Prelude.{
  ◌≡◌, refl, ◌⊎◌, inl, inr, ℕ, String, Bool, true, false, Option, none, some, List,
}
use trust_gate.Models.{TaskStatus, TaskDto, BidDto, ReleaseResult}
use trust_gate.Server.{World, ExecutorRecord, TaskResultRecord}

-- The JSON that a handler answers with. Of an error the `error` text is kept, not the detail; where
-- the text ends in ` (status: …)`, the status is kept beside it.
pub data Body : Type 0 where
  error : String → Body
  error_with_status : String → TaskStatus → Body
  task : TaskDto → Body
  task_with_status : TaskDto → String → Body
  assignment : TaskDto → BidDto → Body
  release : TaskDto → ReleaseResult → Body
  bid : BidDto → Body
  executor : ExecutorRecord → Body
  result : TaskResultRecord → Body
  published : (task_id payload_hash : String) → Body
  nonce : (public_key : String) → (timestamp : ℕ) → (nonce : String) → Body
  signed_by : Option String → Body
  expired_task_ids : List String → Body

-- `res.status(status).json(body)`
pub record Response : Type 0 where
  pub status : ℕ
  pub body : Body

-- How a part of a handler ends: it answered, or the handler goes on with a value.
pub data Flow {ℓ} (A : Type ℓ) : Type ℓ where
  answered : Response → Flow A
  next : A → Flow A

abbrev pub Action {ℓ} : Type ℓ → Type ℓ
Action A = World → Flow A × World

infixl 5 ◌>>=◌ ◌>>◌
abbrev pub ◌>>=◌ {ℓ κ} : {A : Type ℓ} {B : Type κ} → Action A → (A → Action B) → Action B
◌>>=◌ m f w = let (r, w') = m w in elim r [ answered x ↦ (answered x, w') | next a ↦ f a w' ]

abbrev pub ◌>>◌ {ℓ κ} : {A : Type ℓ} {B : Type κ} → Action A → Action B → Action B
m >> k = m >>= λ _. k

abbrev pub pure {ℓ} : {A : Type ℓ} → A → Action A
pure a w = (next a, w)

abbrev pub respond {ℓ} : {A : Type ℓ} → ℕ → Body → Action A
respond status body w = (answered (record { status = status; body = body }), w)

-- `if (b) { res.status(status).json({ error }); return; }`
abbrev pub respond_if : Bool → ℕ → String → Action (Unit {0})
respond_if true status message = respond status (error message)
respond_if false status message = pure tt

abbrev pub gets {ℓ} : {A : Type ℓ} → (World → A) → Action A
gets f w = (next (f w), w)

abbrev pub modify : (World → World) → Action (Unit {0})
modify f w = (next tt, f w)

-- the value, or an early answer where it is missing
abbrev pub or_respond {ℓ} : {A : Type ℓ} → Option A → ℕ → String → Action A
or_respond none status message = respond status (error message)
or_respond (some a) status message = pure a

pub Flow-cases {ℓ} :
    {A : Type ℓ} (f : Flow A) → ((r : Response) × (f ≡ answered r)) ⊎ ((a : A) × (f ≡ next a))
Flow-cases (answered r) = inl (r, refl)
Flow-cases (next a) = inr (a, refl)
