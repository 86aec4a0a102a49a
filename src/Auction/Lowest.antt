-- ===== src/Auction/Lowest.antt =====
-- The bid that `reduce` leaves is the lowest, the earliest among equals.
use trust_gate.Prelude.{◌<◌, ◌≤◌, ◌≡◌, ◌⊎◌, inl, inr, List, [], ◌∷◌, All, refl, ◌∙◌, arith}
use trust_gate.Models.{Bid}
use trust_gate.Auction.{lower, lowest}

-- `a` asks for less than `b`, or for the same and came no later.
abbrev pub Beats : Bid → Bid → Type 0
Beats a b =
    (a.amount_stroops < b.amount_stroops)
    ⊎ ((a.amount_stroops ≡ b.amount_stroops) × (a.created_at ≤ b.created_at))

abbrev pub OneOf : Bid → List Bid → Type 0
OneOf a [] = ⊥
OneOf a (b ∷ bids) = (a ≡ b) ⊎ OneOf a bids

Beats-refl : (a : Bid) → Beats a a
Beats-refl a = ground arith

Beats-trans : (a b c : Bid) → Beats a b → Beats b c → Beats a c
Beats-trans a b c h k = ground arith

Beats-lower : (best bid : Bid) → Beats (lower best bid) best × Beats (lower best bid) bid
Beats-lower best bid = ground arith

lower_one : (best bid : Bid) → (lower best bid ≡ best) ⊎ (lower best bid ≡ bid)
lower_one best bid = ground arith

Beats-lowest :
    (best : Bid) (bids : List Bid)
    → Beats (lowest best bids) best × All (Beats (lowest best bids)) bids
unfolding lowest
Beats-lowest best [] = (Beats-refl best, tt)
Beats-lowest best (bid ∷ bids) =
    let (head, later) = Beats-lowest (lower best bid) bids in
    let (old, new) = Beats-lower best bid in
    let low = lowest (lower best bid) bids in
    (
      Beats-trans low (lower best bid) best head old,
      (Beats-trans low (lower best bid) bid head new, later),
    )

lowest-OneOf : (best : Bid) (bids : List Bid) → OneOf (lowest best bids) (best ∷ bids)
unfolding lowest
lowest-OneOf best [] = inl refl
lowest-OneOf best (bid ∷ bids) = elim (lowest-OneOf (lower best bid) bids) [
  | inr later ↦ inr (inr later)
  | inl here ↦ elim (lower_one best bid) [
    | inl old ↦ inl (here ∙ old)
    | inr new ↦ inr (inl (here ∙ new))
  ]
]

-- The winner is one of the bids, and no bid beats it.
pub lowest_least :
    (first : Bid) (others : List Bid)
    → OneOf (lowest first others) (first ∷ others)
      × All (Beats (lowest first others)) (first ∷ others)
lowest_least first others = (lowest-OneOf first others, Beats-lowest first others)
