-- ===== src/App/Startup.antt =====
-- src/app.ts, src/server.ts and src/config/stellar.ts: what the server is put together from, or why it
-- does not start.
pub mod Real
use trust_gate.Prelude.{
  ℕ, String, Bool, true, false, not, ◌&&◌, ◌||◌, ◌≡◌, ◌≢◌, refl, ap, Option, none, some, ◌==◌, leb,
  if◌then◌else◌, arith, eq_iff, Bool-cases, Option-cases, inl, inr, ◌⊎◌,
}
use trust_gate.Money.{ℤ, pos, negsuc}
use trust_gate.Server.{Result, ok, err}

pub data Network : Type 0 where
  local testnet pubnet : Network

abbrev pub is_local : Network → Bool
is_local local = true
is_local _ = false

-- The environment of the process. A variable is "" where it is not set; of MARKETPLACE_WALLET the
-- code tells the two apart.
pub record Settings : Type 0 where
  pub network : Network
  pub is_test : Bool
  pub mock_externals : String
  pub marketplace_wallet : Option String
  pub admin_secret : String
  pub registry_contract_id : String
  pub database_url : String
  pub redis_url : String
  pub worker_enabled : String
  pub usdc_issuer : String
  pub mpp_secret_key : String
  pub trustless_work_api_key : String

-- the real service, or its mock
pub data Choice : Type 0 where
  real mock : Choice

-- What the server is put together from.
pub record Services : Type 0 where
  pub wallet : String
  pub registry : Choice
  pub charge : Choice
  pub escrow : Choice
  pub has_pool : Bool
  pub has_listing_fee_gate : Bool

infixl 5 ◌>>=◌ ◌>>◌
abbrev ◌>>=◌ : {A B : Type 0} → Result A → (A → Result B) → Result B
ok a >>= f = f a
err message >>= f = err message

abbrev ◌>>◌ : {B : Type 0} → Result (Unit {0}) → Result B → Result B
m >> k = m >>= λ _. k

-- `if (b) throw new Error(message)`
abbrev throw_if : Bool → String → Result (Unit {0})
throw_if true message = err message
throw_if false message = ok tt

-- `shouldMockExternals() && config.network === 'local'`
abbrev pub mocks_externals : Settings → Bool
mocks_externals s = (s.mock_externals == "true") && is_local s.network

abbrev pub chosen : Settings → Choice
chosen s = if mocks_externals s then mock else real

-- `key_of_secret` is the public key of `Keypair.fromSecret`, with `none` where that throws.
module _ (key_of_secret : String → Option String) where
  unfoldable pub marketplace_wallet : Settings → Result String
  marketplace_wallet s = elim s.marketplace_wallet [
    | some wallet ↦
        if wallet == "" then err "MARKETPLACE_WALLET or ADMIN_SECRET must be set" else ok wallet
    | none ↦
        if s.admin_secret == ""
        then err "MARKETPLACE_WALLET or ADMIN_SECRET must be set"
        else (elim (key_of_secret s.admin_secret) [
          | none ↦ err "invalid secret"
          | some key ↦ ok key
        ])
  ]

  -- the key that signs the ticks of the feed: a random one where no secret is set
  abbrev pub check_feed_key : Settings → Result (Unit {0})
  check_feed_key s =
      if s.admin_secret == ""
      then ok tt
      else (elim (key_of_secret s.admin_secret) [ none ↦ err "invalid secret" | some key ↦ ok tt ])

  -- `createApp()`, without overrides
  unfoldable pub create_app : Settings → Result Services
  create_app s = do
    wallet ← marketplace_wallet s
    throw_if (not (mocks_externals s) && (s.registry_contract_id == ""))
        "REGISTRY_CONTRACT_ID is not set"
    throw_if ((s.database_url == "") && (not (is_local s.network) && not s.is_test))
        "DATABASE_URL is not set (required for non-local networks)"
    check_feed_key s
    throw_if (not (mocks_externals s) && (s.usdc_issuer == "")) "USDC_ISSUER is not set"
    throw_if (not (is_local s.network) && (s.mpp_secret_key == ""))
        "MPP_SECRET_KEY is not set (required for POST /tasks on testnet/pubnet)"
    throw_if (not (mocks_externals s) && (s.trustless_work_api_key == ""))
        "TRUSTLESS_WORK_API_KEY is not set"
    ok (record {
      wallet = wallet;
      registry = chosen s;
      charge = chosen s;
      escrow = chosen s;
      has_pool = not (s.database_url == "");
      has_listing_fee_gate = not (is_local s.network);
    })

-- whether `main` starts a worker
abbrev pub starts_worker : Settings → Bool
starts_worker s =
    not (s.database_url == "") && (not (s.redis_url == "") && not (s.worker_enabled == "false"))

-- the escrow provider of the worker
unfoldable pub worker_escrow : Settings → Result Choice
worker_escrow s = if mocks_externals s then ok mock else (do
  throw_if (s.trustless_work_api_key == "") "TRUSTLESS_WORK_API_KEY is not set"
  throw_if (s.usdc_issuer == "") "USDC_ISSUER is not set"
  throw_if (elim s.marketplace_wallet [ none ↦ true | some wallet ↦ wallet == "" ])
      "MARKETPLACE_WALLET is not set"
  ok real)

-- `Number.isFinite(n) && n >= least ? Math.trunc(n) : otherwise`, for `Number` of a setting that is
-- `none` where it is not finite
unfoldable pub at_least : (least otherwise : ℕ) → Option ℤ → ℕ
at_least least otherwise none = otherwise
at_least least otherwise (some (negsuc n)) = otherwise
at_least least otherwise (some (pos n)) = if leb least n then n else otherwise

abbrev pub webhook_max_retries : Option ℤ → ℕ
webhook_max_retries = at_least 0 3

abbrev pub webhook_base_backoff_ms : Option ℤ → ℕ
webhook_base_backoff_ms = at_least 50 1000

abbrev pub backlog_sample_interval_ms : Option ℤ → ℕ
backlog_sample_interval_ms = at_least 1000 5000
