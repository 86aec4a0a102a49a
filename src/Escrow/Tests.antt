-- ===== src/Escrow/Tests.antt =====
-- The server's own contract on testnet.
use trust_gate.Prelude.{◌≡◌, refl, true, none, some, [], ◌==◌, if◌then◌else◌}
use trust_gate.Samples.{ada}
use trust_gate.Schema.{is_public_key}
use trust_gate.Server.{ok, err}
use trust_gate.Safety.{EscrowImplementation, ProcessEnv}
use trust_gate.App.Startup.{Network}
use trust_gate.Escrow.{
  EscrowConfig, TrustlessWorkClient, CreateEscrowProviderInput, own_escrow_stub, is_share,
  requester_bp, is_long, is_wallet, create_escrow_provider,
}
use trust_gate.Escrow.Providers.{IsBlocked, create_escrow_provider-IsBlocked}

-- the same address for every name but the share, which is not set
abbrev own_env : ProcessEnv
own_env name = if name == "ESCROW_CONFISCATE_REQUESTER_BP" then none else some ada

abbrev down_client : EscrowConfig → TrustlessWorkClient
down_client config = record {
  create_single_release = λ _. err "down";
  release_all = λ _. err "down";
  raise_dispute = λ _ _ _. err "down";
}

abbrev own_input : CreateEscrowProviderInput
own_input = record {
  implementation = EscrowImplementation.ourown;
  network = Network.testnet;
  env = own_env;
  injected_client = none;
  injected_mock = none;
  injected_own = none;
}

given :
    create_escrow_provider (λ c. (c, [])) (λ a b. a) (λ _. none) down_client own_input
    ≡ ok own_escrow_stub
unfolding create_escrow_provider is_public_key
given = refl

create_escrow_provider-IsBlocked_example :
    (is_share
        (λ c. (c, []))
        (λ a b. a)
        (λ _. none)
        down_client
        (requester_bp (λ c. (c, [])) (λ a b. a) (λ _. none) down_client own_env)
      ≡ true)
    × (is_long (own_env "ESCROW_CONTRACT_ID") ≡ true)
    × (is_long (own_env "ESCROW_TOKEN_CONTRACT") ≡ true)
    × (is_wallet (own_env "MARKETPLACE_WALLET") ≡ true)
    × IsBlocked own_escrow_stub
create_escrow_provider-IsBlocked_example =
    create_escrow_provider-IsBlocked (λ c. (c, [])) (λ a b. a) (λ _. none) down_client own_input
      own_escrow_stub refl refl refl given
