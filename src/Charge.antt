-- ===== src/Charge.antt =====
-- src/services/mppChargeService.ts: the transfer of the listing fee on the local network.
pub mod Resending
pub mod Sending
mod Tests
use trust_gate.Prelude.{
  ◌≡◌, refl, ◌⊎◌, inl, inr, ◌&&◌, ◌++◌, ℕ, zero, suc, ◌+◌, String, Text, codes, contains_any,
  concat, Bool, true, false, Option, none, some, List, [], ◌∷◌, if◌then◌else◌,
}
use trust_gate.Money.{pos, calculate_listing_fee_stroops, format_usdc_stroops_to_decimal, decimal}
use trust_gate.Retry.{
  Attempt, returned, threw, Outcome, Step, tried, slept, with_retry, default_options,
}

-- A call of an outside service: what it returned, or the message of what it threw.
pub data Result (A : Type 0) : Type 0 where
  ok : A → Result A
  err : String → Result A

pub Result-cases :
    {A : Type 0} (r : Result A) → ((a : A) × (r ≡ ok a)) ⊎ ((message : String) × (r ≡ err message))
Result-cases (ok a) = inl (a, refl)
Result-cases (err message) = inr (message, refl)

pub record ChargeResult : Type 0 where
  pub fee_amount : Text
  pub fee_stroops : Text
  pub tx_hash : String

-- `InsufficientBalanceError` and `ChargeNetworkError`, with the part of their message that the code
-- reads: the error behind them.
pub data ChargeFailure : Type 0 where
  insufficient_balance : ChargeFailure
  charge_network : (prefix message : String) → ChargeFailure

unfoldable pub message_of : ChargeFailure → String
unfolding concat
message_of insufficient_balance = "Requester has insufficient USDC balance for listing fee"
message_of (charge_network prefix message) = concat prefix message

-- The token contract of an attempt: the message of what opening its client and building the transfer
-- throw, and what sending it answers, the hash or a message.
pub record TokenContract : Type 0 where
  pub open_client : ℕ → Option String
  pub transfer : ℕ → (amount : ℕ) → Option String
  pub sign_and_send : ℕ → Result String

-- `isInsufficientBalanceError`
unfoldable pub is_insufficient_balance_error : String → Bool
unfolding contains_any
is_insufficient_balance_error message =
    contains_any ("balance" ∷ "underflow" ∷ "insufficient" ∷ "trustline" ∷ []) (codes message)

-- what the two `catch` blocks of a transfer throw
unfoldable pub transfer_failure : (prefix message : String) → ChargeFailure
unfolding is_insufficient_balance_error
transfer_failure prefix message =
    if is_insufficient_balance_error message
    then insufficient_balance
    else charge_network prefix message

-- one attempt
unfoldable pub attempt_charge :
    TokenContract → (fee_stroops : ℕ) → ℕ → Attempt ChargeFailure ChargeResult
unfolding transfer_failure
attempt_charge token fee_stroops attempt = elim (token.open_client attempt) [
  | some message ↦ threw (charge_network "Failed to reach USDC contract: " message)
  | none ↦ elim (token.transfer attempt fee_stroops) [
    | some message ↦ threw (transfer_failure "Failed to build listing fee transfer: " message)
    | none ↦ elim (token.sign_and_send attempt) [
      | err message ↦ threw (transfer_failure "Failed to submit listing fee transfer: " message)
      | ok hash ↦ returned (record {
        fee_amount = format_usdc_stroops_to_decimal (pos fee_stroops);
        fee_stroops = decimal fee_stroops;
        tx_hash = hash;
      })
    ]
  ]
]

-- `chargeListingFee`, with the attempts and sleeps that it makes
unfoldable pub charge_listing_fee :
    TokenContract
    → (reserve_price_stroops : ℕ)
    → Outcome ChargeFailure ChargeResult × List (Step ChargeFailure ChargeResult)
unfolding attempt_charge message_of
charge_listing_fee token reserve_price_stroops =
    with_retry (default_options message_of)
      (attempt_charge token (calculate_listing_fee_stroops reserve_price_stroops))

-- The attempt comes to the point where its transfer is sent.
unfoldable pub is_sent : TokenContract → (fee_stroops : ℕ) → ℕ → Bool
is_sent token fee_stroops attempt = elim (token.open_client attempt) [
  | some message ↦ false
  | none ↦ elim (token.transfer attempt fee_stroops) [ some message ↦ false | none ↦ true ]
]

-- the number of transfers that were sent on the way
unfoldable pub count_sent : TokenContract → ℕ → List (Step ChargeFailure ChargeResult) → ℕ
unfolding is_sent
count_sent token fee_stroops [] = 0
count_sent token fee_stroops (slept _ _ _ _ ∷ steps) = count_sent token fee_stroops steps
count_sent token fee_stroops (tried attempt _ ∷ steps) =
    (if is_sent token fee_stroops attempt then 1 else 0) + count_sent token fee_stroops steps

-- as many transfers of a fee
unfoldable pub transfers : ℕ → (requester : String) → (fee_stroops : ℕ) → List (String × ℕ)
transfers zero requester fee_stroops = []
transfers (suc n) requester fee_stroops =
    (requester, fee_stroops) ∷ transfers n requester fee_stroops
