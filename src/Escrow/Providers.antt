-- ===== src/Escrow/Providers.antt =====
-- The provider of the server's own contract is a stub.
use mathlib.Core.Path.{subst}
use trust_gate.Prelude.{String, Text, true, ◌≡◌, refl, Option, none, Bool-cases, inl, inr}
use trust_gate.Money.{ℤ}
use trust_gate.Server.{Result, ok, err}
use trust_gate.Safety.{EscrowImplementation, ProcessEnv}
use trust_gate.Escrow.{
  IProviderEscrow, EscrowConfig, TrustlessWorkClient, CreateEscrowProviderInput, own_escrow_blocker,
  own_escrow_stub, requester_bp, is_share, is_long, is_wallet, own_escrow, create_escrow_provider,
}

-- Every call of the provider throws the message of the stub.
abbrev pub IsBlocked : IProviderEscrow → Type 0
IsBlocked provider =
    ((executor task_id : String) (collateral : Text)
      → provider.create_escrow executor task_id collateral ≡ err own_escrow_blocker)
    × ((escrow_id : String) → provider.release_milestone escrow_id ≡ err own_escrow_blocker)
    × ((escrow_id : String) (collateral : Text)
        → provider.confiscate escrow_id collateral ≡ err own_escrow_blocker)

stub-IsBlocked : IsBlocked own_escrow_stub
unfolding own_escrow_stub
stub-IsBlocked =
    (λ executor task_id collateral. refl, λ escrow_id. refl, λ escrow_id collateral. refl)

ok_inj : (a b : IProviderEscrow) → ◌≡◌ {A = Result IProviderEscrow} (ok a) (ok b) → a ≡ b
ok_inj a b h = cc

module _ (shares : Text → Text × Text) (split_action : Text → Text → Text)
    (number : String → Option ℤ) (client_of : EscrowConfig → TrustlessWorkClient) where
  own_escrow_checked :
      (env : ProcessEnv) (provider : IProviderEscrow)
      → own_escrow shares split_action number client_of env ≡ ok provider
      → (is_share shares split_action number client_of
            (requester_bp shares split_action number client_of env)
          ≡ true)
        × (is_long (env "ESCROW_CONTRACT_ID") ≡ true)
        × (is_long (env "ESCROW_TOKEN_CONTRACT") ≡ true)
        × (is_wallet (env "MARKETPLACE_WALLET") ≡ true)
        × (own_escrow_stub ≡ provider)
  unfolding own_escrow
  own_escrow_checked env provider h =
      elim (Bool-cases (
        is_share shares split_action number client_of
          (requester_bp shares split_action number client_of env))) [
            | inr e ↦ absurd (let wrong = (rw (e, own_escrow) at h) in cc)
            | inl share ↦ elim (Bool-cases (is_long (env "ESCROW_CONTRACT_ID"))) [
              | inr e ↦ absurd (let wrong = (rw (share, e, own_escrow) at h) in cc)
              | inl contract ↦ elim (Bool-cases (is_long (env "ESCROW_TOKEN_CONTRACT"))) [
                | inr e ↦ absurd (let wrong = (rw (share, contract, e, own_escrow) at h) in cc)
                | inl token ↦ elim (Bool-cases (is_wallet (env "MARKETPLACE_WALLET"))) [
                  | inr e ↦
                      absurd (let wrong = (rw (share, contract, token, e, own_escrow) at h) in cc)
                  | inl wallet ↦
                      let same = (rw (share, contract, token, wallet, own_escrow) at h) in
                      (share, contract, token, wallet, ok_inj own_escrow_stub provider same)
                ]
              ]
            ]
          ]

  -- Where nothing is injected and the implementation is 'ourown', the factory only gives a provider
  -- for an environment with a share of 0 to 10000, two contract addresses of 56 characters and more
  -- and a wallet that is a Stellar address; and each call of that provider throws.
  pub create_escrow_provider-IsBlocked :
      (input : CreateEscrowProviderInput) (provider : IProviderEscrow)
      → input.injected_mock ≡ none
      → input.injected_own ≡ none
      → input.implementation ≡ EscrowImplementation.ourown
      → create_escrow_provider shares split_action number client_of input ≡ ok provider
      → (is_share shares split_action number client_of
            (requester_bp shares split_action number client_of input.env)
          ≡ true)
        × (is_long (input.env "ESCROW_CONTRACT_ID") ≡ true)
        × (is_long (input.env "ESCROW_TOKEN_CONTRACT") ≡ true)
        × (is_wallet (input.env "MARKETPLACE_WALLET") ≡ true)
        × IsBlocked provider
  unfolding create_escrow_provider
  create_escrow_provider-IsBlocked input provider no_mock no_own ours h =
      let own = (rw (no_mock, no_own, ours, create_escrow_provider) at h) in
      let (share, contract, token, wallet, same) = own_escrow_checked input.env provider own in
      (share, contract, token, wallet, subst IsBlocked same stub-IsBlocked)
