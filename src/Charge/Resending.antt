-- ===== src/Charge/Resending.antt =====
-- A transfer that was sent may be sent again.
use trust_gate.Prelude.{ℕ, String, concat, true, false, ◌≡◌, refl, none}
use trust_gate.Money.{pos, calculate_listing_fee_stroops, format_usdc_stroops_to_decimal, decimal}
use trust_gate.Retry.{
  returned, threw, value, with_retry, loop, default_options, is_transient_network_error,
}
use trust_gate.Charge.{
  ok, err, charge_network, message_of, TokenContract, is_insufficient_balance_error,
  transfer_failure, attempt_charge, charge_listing_fee,
}

abbrev pub submit_prefix : String
submit_prefix = "Failed to submit listing fee transfer: "

-- The contract takes the transfer of an attempt to the point where it is sent.
abbrev pub Reaches : TokenContract → ℕ → ℕ → Type 0
Reaches token fee attempt = (token.open_client attempt ≡ none) × (token.transfer attempt fee ≡ none)

module _ (token : TokenContract) (fee : ℕ) where
  attempt_fails :
      (attempt : ℕ) (message : String)
      → Reaches token fee attempt
      → token.sign_and_send attempt ≡ err message
      → is_insufficient_balance_error message ≡ false
      → attempt_charge token fee attempt ≡ threw (charge_network submit_prefix message)
  unfolding attempt_charge transfer_failure
  attempt_fails attempt message (opened, built) failed other =
      rw (opened, built, failed, other, attempt_charge) refl

  attempt_succeeds :
      (attempt : ℕ) (hash : String)
      → Reaches token fee attempt
      → token.sign_and_send attempt ≡ ok hash
      → attempt_charge token fee attempt
        ≡ returned (record {
          fee_amount = format_usdc_stroops_to_decimal (pos fee);
          fee_stroops = decimal fee;
          tx_hash = hash;
        })
  unfolding attempt_charge
  attempt_succeeds attempt hash (opened, built) sent = rw (opened, built, sent, attempt_charge) refl

-- Where sending the transfer fails with a message that looks transient, such as a timeout, a second
-- transfer of the same fee is sent, and the answer names only the second: nothing asks whether the
-- first was carried out after all.
pub charge_listing_fee_resends :
    (token : TokenContract) (price : ℕ) (message hash : String)
    → Reaches token (calculate_listing_fee_stroops price) 0
    → token.sign_and_send 0 ≡ err message
    → is_insufficient_balance_error message ≡ false
    → is_transient_network_error (concat submit_prefix message) ≡ true
    → Reaches token (calculate_listing_fee_stroops price) 1
    → token.sign_and_send 1 ≡ ok hash
    → (charge_listing_fee token price).0
      ≡ value (record {
        fee_amount = format_usdc_stroops_to_decimal (pos (calculate_listing_fee_stroops price));
        fee_stroops = decimal (calculate_listing_fee_stroops price);
        tx_hash = hash;
      })
unfolding charge_listing_fee with_retry loop default_options message_of
charge_listing_fee_resends token price message hash reaches failed other transient again sent =
    let fee = calculate_listing_fee_stroops price in
    rw
      (
        attempt_fails token fee 0 message reaches failed other,
        transient,
        attempt_succeeds token fee 1 hash again sent,
        loop,
      )
      refl
