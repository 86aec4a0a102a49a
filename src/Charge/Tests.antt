-- ===== src/Charge/Tests.antt =====
-- A transfer that times out, and is sent again.
use trust_gate.Prelude.{ℕ, zero, suc, String, concat, ◌≡◌, refl, true, false, none}
use trust_gate.Money.{pos, calculate_listing_fee_stroops, format_usdc_stroops_to_decimal, decimal}
use trust_gate.Retry.{value, is_transient_network_error}
use trust_gate.Charge.{
  Result, ok, err, TokenContract, is_insufficient_balance_error, charge_listing_fee,
}
use trust_gate.Charge.Resending.{submit_prefix, charge_listing_fee_resends}

abbrev second_answers : ℕ → Result String
second_answers zero = err "timed out"
second_answers (suc n) = ok "tx2"

abbrev slow_token : TokenContract
slow_token = record {
  open_client = λ _. none;
  transfer = λ _ _. none;
  sign_and_send = second_answers;
}

not_insufficient : is_insufficient_balance_error "timed out" ≡ false
unfolding is_insufficient_balance_error
not_insufficient = refl

looks_transient : is_transient_network_error (concat submit_prefix "timed out") ≡ true
unfolding is_transient_network_error concat
looks_transient = refl

charge_listing_fee_resends_example :
    (charge_listing_fee slow_token 1000).0
    ≡ value (record {
      fee_amount = format_usdc_stroops_to_decimal (pos (calculate_listing_fee_stroops 1000));
      fee_stroops = decimal (calculate_listing_fee_stroops 1000);
      tx_hash = "tx2";
    })
charge_listing_fee_resends_example =
    charge_listing_fee_resends slow_token 1000 "timed out" "tx2" (refl, refl) refl not_insufficient
      looks_transient (refl, refl) refl
