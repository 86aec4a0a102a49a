-- ===== src/Schema/Tests.antt =====
-- Bodies that are accepted.
use trust_gate.Money.{
  parse_usdc_decimal_to_stroops, is_decimal, trim, after_dot, before_dot, value_from, strip_start,
}
use trust_gate.Prelude.{◌≡◌, refl, some}
use trust_gate.Schema.{
  create_bid_signed_schema, create_task_schema, string_field, is_public_key, is_amount,
}
use trust_gate.Samples.{sample_env, bid_body, bid_input, task_body, task_input}

bid_accepted : create_bid_signed_schema bid_body ≡ some bid_input
unfolding create_bid_signed_schema string_field is_public_key is_amount
    parse_usdc_decimal_to_stroops is_decimal trim after_dot before_dot value_from strip_start
bid_accepted = refl

task_accepted : create_task_schema sample_env.date_parse 1000 task_body ≡ some task_input
unfolding create_task_schema string_field is_public_key is_amount parse_usdc_decimal_to_stroops
    is_decimal trim after_dot value_from strip_start before_dot
task_accepted = refl
