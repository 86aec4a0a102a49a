-- ===== src/Money/RoundTrip.antt =====
-- Parsing what was formatted.
use mathlib.Core.List.{cons-ne-nil, reverse_aux, reverse-reverse}
use trust_gate.Prelude.{
  Text, ℕ, ◌+◌, ◌-◌, ◌≤◌, ◌≡◌, ◌≢◌, refl, ap, true, false, some, [], ◌∷◌, ◌++◌, ◌=?◌, ltb, length,
  take, drop, reverse, arith, All, All-append, length-append, if◌then◌else◌, replicate, ◌∙◌, all,
}
use trust_gate.Money.{
  pos, is_space, trim_start, trim, is_digit, some_digits, after_whole, is_decimal, before_dot,
  after_dot, value_from, decimal, is_nil, strip_end, pad_end, pad_start,
  parse_usdc_decimal_to_stroops, format_abs, format_usdc_stroops_to_decimal, usdc_decimals,
}
use trust_gate.Money.Digits.{
  AllDigits, value_from-zeros, value_from-strip_start, value_from-decimal, decimal-AllDigits,
  replicate-AllDigits, take-AllDigits, drop-AllDigits, strip_end-AllDigits, length-strip_end,
  pad_end-strip_end, take-append-drop, length-drop, take-ne-nil, length-replicate,
}

-- Nothing that `trim` would remove.
abbrev pub IsPlain : Text → Type 0
IsPlain = All (λ c. is_space c ≡ false)

reverse_aux-IsPlain : (s t : Text) → IsPlain s → IsPlain t → IsPlain (reverse_aux s t)
reverse_aux-IsPlain [] t h k = k
reverse_aux-IsPlain (c ∷ s) t (p, h) k = reverse_aux-IsPlain s (c ∷ t) h (p, k)

trim_start_plain : (s : Text) → IsPlain s → trim_start s ≡ s
unfolding trim_start
trim_start_plain [] h = refl
trim_start_plain (c ∷ s) h = rw h.0

pub trim_plain : (s : Text) → IsPlain s → trim s ≡ s
unfolding trim
trim_plain s h =
    rw (trim_start_plain s h, trim_start_plain (reverse s) (reverse_aux-IsPlain s [] h tt))
      (reverse-reverse s)

digit_plain : (c : ℕ) → is_digit c ≡ true → is_space c ≡ false
unfolding is_space
digit_plain c h = ground arith

AllDigits-IsPlain : (s : Text) → AllDigits s → IsPlain s
AllDigits-IsPlain [] h = tt
AllDigits-IsPlain (c ∷ s) (d, h) = (digit_plain c d, AllDigits-IsPlain s h)

module _ (f : Text) (hf : AllDigits f) (some_frac : f ≢ []) where
  point-IsPlain : (w : Text) → AllDigits w → IsPlain (w ++ b'.' ∷ f)
  unfolding is_space
  point-IsPlain [] h = (refl, AllDigits-IsPlain f hf)
  point-IsPlain (c ∷ w) (d, h) = (digit_plain c d, point-IsPlain w h)

all-is_digit : (s : Text) → AllDigits s → all is_digit s ≡ true
all-is_digit [] h = refl
all-is_digit (c ∷ s) (d, h) = rw d (all-is_digit s h)

some_digits-all : (s : Text) → AllDigits s → s ≢ [] → some_digits s ≡ true
unfolding some_digits
some_digits-all [] h k = absurd (k refl)
some_digits-all (c ∷ s) (d, h) k = rw d (all-is_digit s h)

digit_ne_dot : (c : ℕ) → is_digit c ≡ true → (c =? b'.') ≡ false
digit_ne_dot c h = ground arith

module _ (f : Text) (hf : AllDigits f) (some_frac : f ≢ []) where
  after_whole_point : (w : Text) → AllDigits w → after_whole (w ++ b'.' ∷ f) ≡ true
  unfolding after_whole
  after_whole_point [] h = some_digits-all f hf some_frac
  after_whole_point (c ∷ w) (d, h) = rw d (after_whole_point w h)

  is_decimal_point : (w : Text) → AllDigits w → w ≢ [] → is_decimal (w ++ b'.' ∷ f) ≡ true
  unfolding is_decimal
  is_decimal_point [] h k = absurd (k refl)
  is_decimal_point (c ∷ w) (d, h) k = rw d (after_whole_point w h)

after_whole_digits : (w : Text) → AllDigits w → after_whole w ≡ true
unfolding after_whole
after_whole_digits [] h = refl
after_whole_digits (c ∷ w) (d, h) = rw d (after_whole_digits w h)

is_decimal_digits : (w : Text) → AllDigits w → w ≢ [] → is_decimal w ≡ true
unfolding is_decimal
is_decimal_digits [] h k = absurd (k refl)
is_decimal_digits (c ∷ w) (d, h) k = rw d (after_whole_digits w h)

before_dot_digits : (w : Text) → AllDigits w → before_dot w ≡ w
unfolding before_dot
before_dot_digits [] h = refl
before_dot_digits (c ∷ w) (d, h) = rw (digit_ne_dot c d) (ap (λ t. c ∷ t) (before_dot_digits w h))

after_dot_digits : (w : Text) → AllDigits w → after_dot w ≡ []
unfolding after_dot
after_dot_digits [] h = refl
after_dot_digits (c ∷ w) (d, h) = rw (digit_ne_dot c d) (after_dot_digits w h)

before_dot_point : (w f : Text) → AllDigits w → before_dot (w ++ b'.' ∷ f) ≡ w
unfolding before_dot
before_dot_point [] f h = refl
before_dot_point (c ∷ w) f (d, h) = rw (digit_ne_dot c d) (ap (λ t. c ∷ t) (before_dot_point w f h))

after_dot_point : (w f : Text) → AllDigits w → after_dot (w ++ b'.' ∷ f) ≡ before_dot f
unfolding after_dot
after_dot_point [] f h = refl
after_dot_point (c ∷ w) f (d, h) = rw (digit_ne_dot c d) (after_dot_point w f h)

ltb_of_le : (n m : ℕ) → m ≤ n → ltb n m ≡ false
ltb_of_le n m h = ground arith

-- A text of digits is a whole number of USDC.
pub parse_whole :
    (w : Text)
    → AllDigits w
    → w ≢ []
    → parse_usdc_decimal_to_stroops w ≡ some (value_from 0 (w ++ pad_end usdc_decimals []))
unfolding parse_usdc_decimal_to_stroops
parse_whole w h k = rw (
  trim_plain w (AllDigits-IsPlain w h),
  is_decimal_digits w h k,
  before_dot_digits w h,
  after_dot_digits w h,
  value_from-strip_start,
)

-- Digits, a point and one to seven digits: the fraction counts in stroops.
parse_point :
    (w f : Text)
    → AllDigits w
    → w ≢ []
    → AllDigits f
    → f ≢ []
    → length f ≤ usdc_decimals
    → parse_usdc_decimal_to_stroops (w ++ b'.' ∷ f)
      ≡ some (value_from 0 (w ++ pad_end usdc_decimals f))
unfolding parse_usdc_decimal_to_stroops
parse_point w f h k hf kf fits = rw (
  trim_plain (w ++ b'.' ∷ f) (point-IsPlain f hf kf w h),
  is_decimal_point f hf kf w h k,
  before_dot_point w f h,
  after_dot_point w f h,
  before_dot_digits f hf,
  ltb_of_le usdc_decimals (length f) fits,
  value_from-strip_start,
)

-- the text that `format_abs` joins from a whole and a fraction
abbrev join : Text → Text → Text
join w f = if is_nil f then w else w ++ b'.' ∷ f

parse-join :
    (w f d : Text)
    → AllDigits w
    → w ≢ []
    → AllDigits f
    → length f ≤ usdc_decimals
    → pad_end usdc_decimals f ≡ d
    → parse_usdc_decimal_to_stroops (join w f) ≡ some (value_from 0 (w ++ d))
parse-join w [] d h k hf fits p = rw (← p) (parse_whole w h k)
parse-join w (c ∷ f) d h k hf fits p =
    rw (← p) (parse_point w (c ∷ f) h k hf (cons-ne-nil c f) fits)

module _ (s : Text) (h : AllDigits s) (long : usdc_decimals + 1 ≤ length s) where
  abbrev cut : ℕ
  cut = length s - usdc_decimals

  length-frac : length (drop cut s) ≡ usdc_decimals
  length-frac = omega (arith, length-drop cut s)

  frac_short : length (strip_end (drop cut s)) ≤ usdc_decimals
  frac_short = omega (arith, length-strip_end (drop cut s), length-frac)

  parse-cut :
      parse_usdc_decimal_to_stroops (join (take cut s) (strip_end (drop cut s)))
      ≡ some (value_from 0 s)
  parse-cut =
      parse-join (take cut s) (strip_end (drop cut s)) (drop cut s) (take-AllDigits cut s h)
        (take-ne-nil cut s (omega arith) (omega arith))
        (strip_end-AllDigits (drop cut s) (drop-AllDigits cut s h)) frac_short
        (rw length-frac at (pad_end-strip_end (drop cut s)))
      ∙ ap (λ t. some (value_from 0 t)) (take-append-drop cut s)

padded : ℕ → Text
padded n = pad_start (usdc_decimals + 1) (decimal n)

padded-AllDigits : (n : ℕ) → AllDigits (padded n)
unfolding padded
padded-AllDigits n = All-append _ _ _ (replicate-AllDigits _) (decimal-AllDigits n)

length-padded : (n : ℕ) → usdc_decimals + 1 ≤ length (padded n)
unfolding padded
length-padded n = omega (
  arith,
  length-append {0} (replicate (usdc_decimals + 1 - length (decimal n)) b'0') (decimal n),
  length-replicate (usdc_decimals + 1 - length (decimal n)),
)

value_from-padded : (n : ℕ) → value_from 0 (padded n) ≡ n
unfolding padded
value_from-padded n = value_from-zeros _ (decimal n) ∙ value_from-decimal n

-- Formatting an amount of stroops and parsing the text gives the amount back.
pub parse-format :
    (n : ℕ) → parse_usdc_decimal_to_stroops (format_usdc_stroops_to_decimal (pos n)) ≡ some n
unfolding format_usdc_stroops_to_decimal format_abs padded
parse-format n =
    parse-cut (padded n) (padded-AllDigits n) (length-padded n) ∙ ap some (value_from-padded n)
