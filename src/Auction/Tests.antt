-- ===== src/Auction/Tests.antt =====
-- An auction of two bids.
use trust_gate.Table.{find}
use trust_gate.Prelude.{◌≡◌, refl, ◌∷◌, [], All}
use trust_gate.Auction.{selected, lowest, select_winner}
use trust_gate.Auction.Lowest.{Beats, OneOf, lowest_least}
use trust_gate.Auction.Effect.{as_assigned, as_selected, Assigned, select_winner-Assigned}
use trust_gate.Samples.{sample_world, open_task, bid_high, bid_low}
use trust_gate.Samples.Keys.{sample_bids-IsKeyed}

lowest_is_low : lowest bid_high (bid_low ∷ []) ≡ bid_low
unfolding lowest
lowest_is_low = refl

lowest_least_example :
    OneOf (lowest bid_high (bid_low ∷ [])) (bid_high ∷ bid_low ∷ [])
    × All (Beats (lowest bid_high (bid_low ∷ []))) (bid_high ∷ bid_low ∷ [])
lowest_least_example = lowest_least bid_high (bid_low ∷ [])

select_winner-Assigned_example :
    let winner = lowest bid_high (bid_low ∷ []) in
    let (selection, w') = select_winner "t1" sample_world in
    (selection ≡ selected (as_assigned open_task) (as_selected winner))
    × Assigned "t1" open_task (bid_high ∷ bid_low ∷ []) winner sample_world w'
unfolding find
select_winner-Assigned_example =
    select_winner-Assigned "t1" sample_world open_task bid_high (bid_low ∷ []) refl refl refl
      sample_bids-IsKeyed
