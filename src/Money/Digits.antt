-- ===== src/Money/Digits.antt =====
-- The decimal digits of a number: what they are, and what they spell.
use trust_gate.Prelude.{
  Text, ℕ, zero, suc, ◌+◌, ◌-◌, ◌*◌, ◌/◌, ◌%◌, ◌≤◌, ◌<◌, ◌≡◌, ◌≢◌, refl, ap, true, [], ◌∷◌, ◌++◌,
  ◌=?◌, length, take, drop, replicate, arith, All, ◌&&◌, Bool-cases, inl, inr,
}
use trust_gate.Money.{is_digit, strip_start, value_from, emit, decimal, is_nil, strip_end, pad_end}

-- Every code unit is one of '0' to '9'.
abbrev pub AllDigits : Text → Type 0
AllDigits = All (λ c. is_digit c ≡ true)

pub value_from-append :
    (acc : ℕ) (s t : Text) → value_from acc (s ++ t) ≡ value_from (value_from acc s) t
unfolding value_from
value_from-append acc [] t = refl
value_from-append acc (c ∷ s) t = value_from-append (acc * 10 + (c - b'0')) s t

pub value_from-zeros : (n : ℕ) (s : Text) → value_from 0 (replicate n b'0' ++ s) ≡ value_from 0 s
unfolding value_from
value_from-zeros zero s = refl
value_from-zeros (suc n) s = value_from-zeros n s

pub value_from-strip_start : (s : Text) → value_from 0 (strip_start s) ≡ value_from 0 s
unfolding value_from strip_start
value_from-strip_start [] = refl
value_from-strip_start (c ∷ []) = refl
value_from-strip_start (c ∷ d ∷ s) = ground (arith, value_from-strip_start (d ∷ s))

-- Each round of `emit` moves the last digit over; as many rounds as the number are enough.
value_from-emit :
    (fuel n : ℕ) (out : Text) → n ≤ fuel → value_from 0 (emit fuel n out) ≡ value_from n out
unfolding emit value_from
value_from-emit zero zero out h = refl
value_from-emit zero (suc n) out h = absurd (omega arith)
value_from-emit (suc fuel) n out h =
    ground (arith, value_from-emit fuel (n / 10) ((b'0' + n % 10) ∷ out))

emit-AllDigits : (fuel n : ℕ) (out : Text) → AllDigits out → AllDigits (emit fuel n out)
unfolding emit
emit-AllDigits zero n out h = h
emit-AllDigits (suc fuel) n out h = elim (Bool-cases (n =? 0)) [
  | inl e ↦ rw e h
  | inr e ↦ rw e (emit-AllDigits fuel (n / 10) ((b'0' + n % 10) ∷ out) (ground arith, h))
]

length-emit : (fuel n : ℕ) (out : Text) → length out ≤ length (emit fuel n out)
unfolding emit
length-emit zero n out = omega arith
length-emit (suc fuel) n out = ground (arith, length-emit fuel (n / 10) ((b'0' + n % 10) ∷ out))

pub value_from-decimal : (n : ℕ) → value_from 0 (decimal n) ≡ n
unfolding decimal value_from
value_from-decimal n = ground (arith, value_from-emit n n [])

pub decimal-AllDigits : (n : ℕ) → AllDigits (decimal n)
unfolding decimal
decimal-AllDigits n = elim (Bool-cases (n =? 0)) [
  | inl e ↦ rw e (refl, tt)
  | inr e ↦ rw e (emit-AllDigits n n [] tt)
]

pub replicate-AllDigits : (n : ℕ) → AllDigits (replicate n b'0')
replicate-AllDigits zero = tt
replicate-AllDigits (suc n) = (refl, replicate-AllDigits n)

pub take-AllDigits : (n : ℕ) (s : Text) → AllDigits s → AllDigits (take n s)
take-AllDigits zero s h = tt
take-AllDigits (suc n) [] h = tt
take-AllDigits (suc n) (c ∷ s) (d, h) = (d, take-AllDigits n s h)

pub drop-AllDigits : (n : ℕ) (s : Text) → AllDigits s → AllDigits (drop n s)
drop-AllDigits zero s h = h
drop-AllDigits (suc n) [] h = tt
drop-AllDigits (suc n) (c ∷ s) (d, h) = drop-AllDigits n s h

pub strip_end-AllDigits : (s : Text) → AllDigits s → AllDigits (strip_end s)
unfolding strip_end
strip_end-AllDigits [] h = tt
strip_end-AllDigits (c ∷ s) (d, h) = elim (Bool-cases (c =? b'0' && is_nil (strip_end s))) [
  | inl e ↦ rw e tt
  | inr e ↦ rw e (d, strip_end-AllDigits s h)
]

pub length-strip_end : (s : Text) → length (strip_end s) ≤ length s
unfolding strip_end
length-strip_end [] = omega arith
length-strip_end (c ∷ s) = ground (arith, length-strip_end s)

sub-zero : (n : ℕ) → n - 0 ≡ n
sub-zero n = omega arith

suc-sub-suc : (n m : ℕ) → suc n - suc m ≡ n - m
suc-sub-suc n m = omega arith

pub is_nil_eq : (s : Text) → is_nil s ≡ true → s ≡ []
is_nil_eq [] h = refl
is_nil_eq (c ∷ s) h = cc

pad_stripped :
    (c : ℕ) (s : Text)
    → (c =? b'0' && is_nil (strip_end s)) ≡ true
    → pad_end (length s) (strip_end s) ≡ s
    → replicate (suc (length s) - 0) b'0' ≡ c ∷ s
pad_stripped c s e ih =
    let zero_digit : c ≡ b'0' = ground arith in
    let stripped : strip_end s ≡ [] = is_nil_eq (strip_end s) (ground arith) in
    let zeros : replicate (length s - 0) b'0' ≡ s = rw stripped at ih in
    rw (sub-zero, zero_digit) (ap (λ t. b'0' ∷ t) (rw sub-zero at zeros))

-- Padding puts back the zeros that were stripped.
pub pad_end-strip_end : (s : Text) → pad_end (length s) (strip_end s) ≡ s
unfolding strip_end
pad_end-strip_end [] = refl
pad_end-strip_end (c ∷ s) = elim (Bool-cases (c =? b'0' && is_nil (strip_end s))) [
  | inl e ↦ rw e (pad_stripped c s e (pad_end-strip_end s))
  | inr e ↦ rw e (ap (λ t. c ∷ t) (rw suc-sub-suc (pad_end-strip_end s)))
]

pub take-append-drop : (n : ℕ) (s : Text) → take n s ++ drop n s ≡ s
take-append-drop zero s = refl
take-append-drop (suc n) [] = refl
take-append-drop (suc n) (c ∷ s) = ap (λ t. c ∷ t) (take-append-drop n s)

pub length-drop : (n : ℕ) (s : Text) → length (drop n s) ≡ length s - n
length-drop zero s = omega arith
length-drop (suc n) [] = omega arith
length-drop (suc n) (c ∷ s) = omega (arith, length-drop n s)

pub take-ne-nil : (n : ℕ) (s : Text) → 0 < n → 0 < length s → take n s ≢ []
take-ne-nil zero s h k = absurd (omega arith)
take-ne-nil (suc n) [] h k = absurd (omega arith)
take-ne-nil (suc n) (c ∷ s) h k = cc

pub length-replicate : (n : ℕ) → length {A = ℕ} (replicate n b'0') ≡ n
length-replicate zero = refl
length-replicate (suc n) = ap suc (length-replicate n)
