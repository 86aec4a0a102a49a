-- ===== src/Escrow.antt =====
-- src/services/escrowService.ts and the escrow of src/services/mockExternalServices.ts: the providers
-- of escrows, and the choice of one.
pub mod Providers
mod Tests
use trust_gate.Prelude.{
  ℕ, String, Text, codes, concat, Bool, true, false, not, ◌||◌, leb, ltb, length, Option, none,
  some, List, [], ◌∷◌, ◌==◌, if◌then◌else◌,
}
use trust_gate.Money.{ℤ, pos, negsuc}
use trust_gate.Models.{ReleaseResult}
use trust_gate.Schema.{is_public_key}
use trust_gate.Server.{Result, ok, err}
use trust_gate.Safety.{EscrowImplementation, ProcessEnv}
use trust_gate.App.Startup.{Network, local, testnet, pubnet}

-- `ConfiscateResult`; shares are numbers of JavaScript, kept as texts
pub record ConfiscateResult : Type 0 where
  pub success : Bool
  pub dispute_id : String
  pub status : String
  pub requester_share : Text
  pub marketplace_share : Text

-- `IProviderEscrow`: what its calls return, or the message of what they throw. A collateral is the
-- decimal text of a number.
pub record IProviderEscrow : Type 0 where
  pub create_escrow : (executor task_id : String) → (collateral : Text) → Result String
  pub release_milestone : (escrow_id : String) → Result ReleaseResult
  pub confiscate : (escrow_id : String) → (collateral : Text) → Result ConfiscateResult

pub record EscrowConfig : Type 0 where
  pub api_key : String
  pub is_mainnet : Bool
  pub marketplace_wallet : String
  pub usdc_issuer : String

-- what `createSingleRelease` is given
pub record SingleRelease : Type 0 where
  pub engagement_id : String
  pub title : String
  pub description : String
  pub approver : String
  pub service_provider : String
  pub release_signer : String
  pub platform_address : String
  pub dispute_resolver : String
  pub amount : Text
  pub milestone : String
  pub trustline_address : String
  pub trustline_code : String

-- The client of Trustless Work, which answers a dispute with its success, id and status.
pub record TrustlessWorkClient : Type 0 where
  pub create_single_release : SingleRelease → Result String
  pub release_all : String → Result ReleaseResult
  pub raise_dispute :
      (escrow_id : String) → (reason requested_action : Text) → Result (Bool × String × String)

abbrev pub dispute_reason : Text
dispute_reason = codes "Executor abandoned task — deadline expired without delivery"

unfoldable pub single_release : EscrowConfig → (executor task_id : String) → Text → SingleRelease
unfolding concat
single_release config executor task_id collateral = record {
  engagement_id = task_id;
  title = concat "Collateral for task " task_id;
  description = concat "Executor collateral bond for task " task_id;
  approver = config.marketplace_wallet;
  service_provider = executor;
  release_signer = config.marketplace_wallet;
  platform_address = config.marketplace_wallet;
  dispute_resolver = config.marketplace_wallet;
  amount = collateral;
  milestone = concat "Deliver result for task " task_id;
  trustline_address = config.usdc_issuer;
  trustline_code = "USDC";
}

-- `shares` are the two rounded shares of a collateral, and `split_action` the text that asks for
-- them: arithmetic of floating point and its printing.
module _ (shares : Text → Text × Text) (split_action : Text → Text → Text) where
  unfoldable pub confiscated : Text → Bool × String × String → ConfiscateResult
  confiscated collateral (success, dispute_id, status) = record {
    success = success;
    dispute_id = dispute_id;
    status = status;
    requester_share = (shares collateral).0;
    marketplace_share = (shares collateral).1;
  }

  -- `EscrowService`
  unfoldable pub escrow_service : EscrowConfig → TrustlessWorkClient → IProviderEscrow
  unfolding single_release confiscated
  escrow_service config client = record {
    create_escrow = λ executor task_id collateral.
        client.create_single_release (single_release config executor task_id collateral);
    release_milestone = client.release_all;
    confiscate = λ escrow_id collateral.
        let (requester_share, marketplace_share) = shares collateral in
        elim (client.raise_dispute escrow_id dispute_reason
          (split_action requester_share marketplace_share)) [
            | ok dispute ↦ ok (confiscated collateral dispute)
            | err message ↦ err message
          ];
  }

-- `MockEscrowService`
unfoldable pub mock_escrow_service : IProviderEscrow
unfolding concat
mock_escrow_service = record {
  create_escrow = λ executor task_id collateral. ok (concat "mock-escrow:" task_id);
  release_milestone = λ escrow_id. ok (record {
    success = true;
    transaction_hash = concat "mock-release:" escrow_id;
    amount_released = codes "0";
    receiver = "mock-receiver";
  });
  confiscate = λ escrow_id collateral. ok (record {
    success = true;
    dispute_id = concat "mock-dispute:" escrow_id;
    status = "mocked";
    requester_share = codes "0";
    marketplace_share = codes "0";
  });
}

-- the beginning of the message of the stub
abbrev pub own_escrow_blocker : String
own_escrow_blocker = "[OurOwnEscrowContractClient P0 blockers not cleared]"

-- `OurOwnEscrowContractClientStub`
unfoldable pub own_escrow_stub : IProviderEscrow
own_escrow_stub = record {
  create_escrow = λ executor task_id collateral. err own_escrow_blocker;
  release_milestone = λ escrow_id. err own_escrow_blocker;
  confiscate = λ escrow_id collateral. err own_escrow_blocker;
}

-- The input of the factory. `env` is `envOverrides`, where they are given; `client_of` is the client
-- that is loaded for a configuration.
pub record CreateEscrowProviderInput : Type 0 where
  pub implementation : EscrowImplementation
  pub network : Network
  pub env : ProcessEnv
  pub injected_client : Option TrustlessWorkClient
  pub injected_mock : Option IProviderEscrow
  pub injected_own : Option IProviderEscrow

abbrev pub is_pubnet : Network → Bool
is_pubnet pubnet = true
is_pubnet _ = false

abbrev pub or_empty : Option String → String
or_empty none = ""
or_empty (some s) = s

abbrev pub is_long : Option String → Bool
is_long none = false
is_long (some s) = leb 56 (length (codes s))

abbrev pub is_wallet : Option String → Bool
is_wallet none = false
is_wallet (some s) = is_public_key s

-- `number` is `Number` of a text where that is finite, for whole numbers.
module _ (shares : Text → Text × Text) (split_action : Text → Text → Text)
    (number : String → Option ℤ) (client_of : EscrowConfig → TrustlessWorkClient) where
  -- ESCROW_CONFISCATE_REQUESTER_BP, 7000 where it is not set
  unfoldable pub requester_bp : ProcessEnv → Option ℤ
  requester_bp env =
      let raw = or_empty (env "ESCROW_CONFISCATE_REQUESTER_BP") in
      if raw == "" then some (pos 7000) else number raw

  unfoldable pub is_share : Option ℤ → Bool
  is_share none = false
  is_share (some (negsuc n)) = false
  is_share (some (pos n)) = leb n 10000

  -- the implementation 'ourown'
  unfoldable pub own_escrow : ProcessEnv → Result IProviderEscrow
  unfolding requester_bp is_share own_escrow_stub
  own_escrow env =
      if not (is_share (requester_bp env))
      then err "[createEscrowProvider ourown] ESCROW_CONFISCATE_REQUESTER_BP invalid"
      else if not (is_long (env "ESCROW_CONTRACT_ID"))
      then err "[createEscrowProvider ourown] ESCROW_CONTRACT_ID is not set or too short"
      else if not (is_long (env "ESCROW_TOKEN_CONTRACT"))
      then err "[createEscrowProvider ourown] ESCROW_TOKEN_CONTRACT is not set or too short"
      else if not (is_wallet (env "MARKETPLACE_WALLET"))
      then err "[createEscrowProvider ourown] MARKETPLACE_WALLET is not a valid Stellar address"
      else ok own_escrow_stub

  -- the implementation 'trustlesswork'
  unfoldable pub trustless_escrow : CreateEscrowProviderInput → Result IProviderEscrow
  unfolding escrow_service
  trustless_escrow input =
      let api_key = or_empty (input.env "TRUSTLESS_WORK_API_KEY") in
      let usdc_issuer = or_empty (input.env "USDC_ISSUER") in
      let marketplace_wallet = or_empty (input.env "MARKETPLACE_WALLET") in
      let config : EscrowConfig = record {
        api_key = api_key;
        is_mainnet = is_pubnet input.network;
        marketplace_wallet = marketplace_wallet;
        usdc_issuer = usdc_issuer;
      } in
      elim input.injected_client [
        | some client ↦ ok (escrow_service shares split_action config client)
        | none ↦
            if api_key == ""
            then err "TRUSTLESS_WORK_API_KEY is not set"
            else if usdc_issuer == ""
            then err "USDC_ISSUER is not set"
            else if marketplace_wallet == ""
            then err "MARKETPLACE_WALLET is not set"
            else ok (escrow_service shares split_action config (client_of config))
      ]

  unfoldable pub create_escrow_provider : CreateEscrowProviderInput → Result IProviderEscrow
  unfolding own_escrow trustless_escrow mock_escrow_service
  create_escrow_provider input = elim input.injected_mock [
    | some provider ↦ ok provider
    | none ↦ elim input.injected_own [
      | some provider ↦ ok provider
      | none ↦ elim input.implementation [
        | EscrowImplementation.mock ↦ ok mock_escrow_service
        | EscrowImplementation.ourown ↦ own_escrow input.env
        | EscrowImplementation.trustlesswork ↦ trustless_escrow input
      ]
    ]
  ]
