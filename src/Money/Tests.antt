-- ===== src/Money/Tests.antt =====
-- Amounts of USDC.
use trust_gate.Prelude.{◌≡◌, some}
use trust_gate.Money.{parse_usdc_decimal_to_stroops, format_usdc_stroops_to_decimal, pos}
use trust_gate.Money.RoundTrip.{parse-format}

parse-format_example :
    parse_usdc_decimal_to_stroops (format_usdc_stroops_to_decimal (pos 12050)) ≡ some 12050
parse-format_example = parse-format 12050
