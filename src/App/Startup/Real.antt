-- ===== src/App/Startup/Real.antt =====
-- A server that starts has all that it needs.
use trust_gate.Prelude.{
  Option, String, Bool, true, false, not, ◌&&◌, ◌≡◌, ◌≢◌, refl, ◌==◌, arith, eq_iff, Bool-cases,
  inl, inr, ◌⊎◌,
}
use trust_gate.Server.{Result, ok, err}
use trust_gate.App.Startup.{
  Network, local, testnet, pubnet, is_local, Settings, real, Services, ◌>>=◌, ◌>>◌, throw_if,
  mocks_externals, chosen, marketplace_wallet, check_feed_key, create_app,
}

local_of : (n : Network) → is_local n ≡ true → n ≡ local
local_of local h = refl
local_of testnet h = absurd cc
local_of pubnet h = absurd cc

ok_inj : {A : Type 0} {a b : A} → ◌≡◌ {A = Result A} (ok a) (ok b) → a ≡ b
ok_inj h = cc

bind_ok :
    {A B : Type 0} (m : Result A) (f : A → Result B) (b : B)
    → (m >>= f) ≡ ok b
    → (a : A) × (m ≡ ok a) × (f a ≡ ok b)
bind_ok (ok a) f b h = (a, refl, h)
bind_ok (err message) f b h = absurd cc

throw_ok : (b : Bool) (message : String) (u : Unit {0}) → throw_if b message ≡ ok u → b ≡ false
throw_ok true message u h = absurd cc
throw_ok false message u h = refl

-- a check that stands before the rest
check_ok :
    {B : Type 0} (b : Bool) (message : String) (rest : Result B) (x : B)
    → (throw_if b message >> rest) ≡ ok x
    → (b ≡ false) × (rest ≡ ok x)
check_ok b message rest x h =
    let (u, passed, next) = bind_ok (throw_if b message) (λ _. rest) x h in
    (throw_ok b message u passed, next)

-- a check of a mocked service, where nothing is mocked
needed :
    (mocked : Bool) (key : String) → mocked ≡ false → (not mocked && (key == "")) ≡ false → key ≢ ""
needed mocked key h e = λ same. ground (arith, eq_iff key "")

module _ (key_of_secret : String → Option String) (s : Settings) where
  -- what a server that starts has passed
  record Passed (services : Services) : Type 0 where
    registry_id : (not (mocks_externals s) && (s.registry_contract_id == "")) ≡ false
    database : ((s.database_url == "") && (not (is_local s.network) && not s.is_test)) ≡ false
    issuer : (not (mocks_externals s) && (s.usdc_issuer == "")) ≡ false
    mpp_key : (not (is_local s.network) && (s.mpp_secret_key == "")) ≡ false
    work_key : (not (mocks_externals s) && (s.trustless_work_api_key == "")) ≡ false
    wallet : String
    parts :
        record {
          wallet = wallet;
          registry = chosen s;
          charge = chosen s;
          escrow = chosen s;
          has_pool = not (s.database_url == "");
          has_listing_fee_gate = not (is_local s.network);
        }
        ≡ services

  create_app-Passed :
      (services : Services) → create_app key_of_secret s ≡ ok services → Passed services
  unfolding create_app
  create_app-Passed services h =
      let (wallet, _, h1) = bind_ok (marketplace_wallet key_of_secret s) _ services h in
      let (registry_id, h2) = check_ok _ _ _ services h1 in
      let (database, h3) = check_ok _ _ _ services h2 in
      let (_, _, h4) = bind_ok (check_feed_key key_of_secret s) _ services h3 in
      let (issuer, h5) = check_ok _ _ _ services h4 in
      let (mpp_key, h6) = check_ok _ _ _ services h5 in
      let (work_key, h7) = check_ok _ _ _ services h6 in
      record {
        registry_id = registry_id;
        database = database;
        issuer = issuer;
        mpp_key = mpp_key;
        work_key = work_key;
        wallet = wallet;
        parts = ok_inj h7;
      }

  nothing_mocked : is_local s.network ≡ false → mocks_externals s ≡ false
  nothing_mocked h = ground arith

  database_or_test :
      is_local s.network ≡ false
      → ((s.database_url == "") && (not (is_local s.network) && not s.is_test)) ≡ false
      → (s.is_test ≡ true) ⊎ (not (s.database_url == "") ≡ true)
  database_or_test away h = ground arith

  away : s.network ≢ local → is_local s.network ≡ false
  away ne = elim (Bool-cases (is_local s.network)) [
    | inl y ↦ absurd (ne (local_of s.network y))
    | inr n ↦ n
  ]

  -- A server that starts on a network other than local mocks nothing, puts the payment gate before
  -- new tasks, and, unless it is a test, has a database; none of the keys that this takes is empty.
  pub create_app-real :
      (services : Services)
      → create_app key_of_secret s ≡ ok services
      → s.network ≢ local
      → (services.registry ≡ real)
        × (services.charge ≡ real)
        × (services.escrow ≡ real)
        × (services.has_listing_fee_gate ≡ true)
        × ((s.is_test ≡ true) ⊎ (services.has_pool ≡ true))
        × (s.mpp_secret_key ≢ "")
        × (s.trustless_work_api_key ≢ "")
        × (s.usdc_issuer ≢ "")
        × (s.registry_contract_id ≢ "")
  create_app-real services h ne =
      let passed = create_app-Passed services h in
      let remote = away ne in
      let unmocked = nothing_mocked remote in
      let parts = passed.parts in
      rw (← parts) (
        rw unmocked refl,
        rw unmocked refl,
        rw unmocked refl,
        rw remote refl,
        database_or_test remote passed.database,
        needed (is_local s.network) s.mpp_secret_key remote passed.mpp_key,
        needed (mocks_externals s) s.trustless_work_api_key unmocked passed.work_key,
        needed (mocks_externals s) s.usdc_issuer unmocked passed.issuer,
        needed (mocks_externals s) s.registry_contract_id unmocked passed.registry_id,
      )
