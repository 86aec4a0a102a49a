-- ===== src/Money.antt =====
-- src/utils/money.ts: USDC decimal texts and stroops. A text is the list of its code units, a
-- bigint is an integer; a thrown error is `none`.
pub mod Digits
pub mod RoundTrip
mod Tests
use trust_gate.Prelude.{
  Text, ℕ, zero, suc, ◌+◌, ◌-◌, ◌*◌, ◌/◌, ◌%◌, Bool, true, false, not, ◌&&◌, ◌||◌, Option, none,
  some, List, [], ◌∷◌, ◌++◌, leb, ltb, ◌=?◌, if◌then◌else◌, length, take, drop, all, replicate,
  reverse, refl, ◌≡◌,
}

-- `bigint`; `negsuc n` is -(n + 1).
pub data ℤ : Type 0 where
  pos : ℕ → ℤ
  negsuc : ℕ → ℤ

-- `USDC_DECIMALS` of src/config/usdc.ts
abbrev pub usdc_decimals : ℕ
usdc_decimals = 7

-- What `String.prototype.trim` removes.
unfoldable pub is_space : ℕ → Bool
is_space c =
    (leb 9 c && leb c 13)
    || c =? 32
    || c =? 160
    || c =? 0x1680
    || (leb 0x2000 c && leb c 0x200a)
    || c =? 0x2028
    || c =? 0x2029
    || c =? 0x202f
    || c =? 0x205f
    || c =? 0x3000
    || c =? 0xfeff

unfoldable pub trim_start : Text → Text
trim_start [] = []
trim_start (c ∷ s) = let rest = trim_start s in if is_space c then rest else c ∷ s

unfoldable pub trim : Text → Text
unfolding trim_start is_space
trim s = reverse (trim_start (reverse (trim_start s)))

abbrev pub is_digit : ℕ → Bool
is_digit c = leb b'0' c && leb c b'9'

-- `\d+$`
unfoldable pub some_digits : Text → Bool
some_digits [] = false
some_digits (c ∷ s) = is_digit c && all is_digit s

-- what may follow the first digit: `\d*(\.\d+)?$`
unfoldable pub after_whole : Text → Bool
after_whole [] = true
after_whole (c ∷ s) =
    let more = after_whole s in if is_digit c then more else c =? b'.' && some_digits s

-- `/^\d+(\.\d+)?$/.test(s)`
unfoldable pub is_decimal : Text → Bool
unfolding after_whole some_digits
is_decimal [] = false
is_decimal (c ∷ s) = is_digit c && after_whole s

-- `[whole, frac = ''] = s.split('.')`
unfoldable pub before_dot : Text → Text
before_dot [] = []
before_dot (c ∷ s) = let more = before_dot s in if c =? b'.' then [] else c ∷ more

unfoldable pub after_dot : Text → Text
after_dot [] = []
after_dot (c ∷ s) = let more = after_dot s in if c =? b'.' then before_dot s else more

abbrev pub pad_end : ℕ → Text → Text
pad_end n s = s ++ replicate (n - length s) b'0'

abbrev pub pad_start : ℕ → Text → Text
pad_start n s = replicate (n - length s) b'0' ++ s

-- `s.replace(/^0+(?=\d)/, '')`, for a text of digits
unfoldable pub strip_start : Text → Text
strip_start [] = []
strip_start (c ∷ []) = c ∷ []
strip_start (c ∷ d ∷ s) = let rest = strip_start (d ∷ s) in if c =? b'0' then rest else c ∷ d ∷ s

-- `BigInt(s)`, for a text of digits: the number that they spell behind `acc`
unfoldable pub value_from : ℕ → Text → ℕ
value_from acc [] = acc
value_from acc (c ∷ s) = value_from (acc * 10 + (c - b'0')) s

unfoldable pub parse_usdc_decimal_to_stroops : Text → Option ℕ
parse_usdc_decimal_to_stroops value =
    let trimmed = trim value in
    let whole = before_dot trimmed in
    let frac = after_dot trimmed in
    if not (is_decimal trimmed)
    then none
    else if ltb usdc_decimals (length frac)
    then none
    else some (value_from 0 (strip_start (whole ++ pad_end usdc_decimals frac)))

-- the digits of `n` before `out`; `fuel` rounds, of which `n` are enough
unfoldable pub emit : ℕ → ℕ → Text → Text
emit zero n out = out
emit (suc fuel) n out =
    let more = emit fuel (n / 10) ((b'0' + n % 10) ∷ out) in if n =? 0 then out else more

-- `n.toString()`
unfoldable pub decimal : ℕ → Text
unfolding emit
decimal n = if n =? 0 then b'0' ∷ [] else emit n n []

-- `s.replace(/0+$/, '')`
abbrev pub is_nil : Text → Bool
is_nil [] = true
is_nil (_ ∷ _) = false

unfoldable pub strip_end : Text → Text
strip_end [] = []
strip_end (c ∷ s) = let rest = strip_end s in if c =? b'0' && is_nil rest then [] else c ∷ rest

-- the text of `abs` behind the sign
unfoldable pub format_abs : ℕ → Text
format_abs abs =
    let s = pad_start (usdc_decimals + 1) (decimal abs) in
    let whole = take (length s - usdc_decimals) s in
    let frac = strip_end (drop (length s - usdc_decimals) s) in
    if is_nil frac then whole else whole ++ b'.' ∷ frac

unfoldable pub format_usdc_stroops_to_decimal : ℤ → Text
unfolding format_abs
format_usdc_stroops_to_decimal (pos n) = format_abs n
format_usdc_stroops_to_decimal (negsuc n) = b'-' ∷ format_abs (suc n)

-- src/services/listingFee.ts: half a percent, rounded to the nearest stroop, halves up
unfoldable pub calculate_listing_fee_stroops : ℕ → ℕ
calculate_listing_fee_stroops reserve_price_stroops = (reserve_price_stroops * 5 + 500) / 1000

money_tests :
    (parse_usdc_decimal_to_stroops (b' ' ∷ b'1' ∷ b'.' ∷ b'5' ∷ []) ≡ some 15000000)
    × (format_usdc_stroops_to_decimal (negsuc 4999999) ≡ b'-' ∷ b'0' ∷ b'.' ∷ b'5' ∷ [])
    × (parse_usdc_decimal_to_stroops (b'.' ∷ b'5' ∷ []) ≡ none)
unfolding parse_usdc_decimal_to_stroops trim is_decimal before_dot after_dot strip_start value_from
    format_usdc_stroops_to_decimal decimal strip_end
money_tests = (refl, refl, refl)
