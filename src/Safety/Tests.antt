-- ===== src/Safety/Tests.antt =====
-- A denylist of two keys.
use trust_gate.Prelude.{codes, ◌≡◌, refl, [], ◌∷◌, some}
use trust_gate.Samples.{ada}
use trust_gate.Schema.{matches_key}
use trust_gate.Server.{ok}
use trust_gate.Safety.{parse_executor_denylist}
use trust_gate.Safety.Denylist.{IsKey, join, parse_executor_denylist-join}

ada-IsKey : IsKey (codes ada)
unfolding matches_key
ada-IsKey = refl

joined :
    codes
      "GAAAAAAAAAAAAAAAAAAAAAAAAAAAAAAAAAAAAAAAAAAAAAAAAAAAAAAA,GAAAAAAAAAAAAAAAAAAAAAAAAAAAAAAAAAAAAAAAAAAAAAAAAAAAAAAA"
    ≡ join (codes ada ∷ codes ada ∷ [])
unfolding join
joined = refl

parse_executor_denylist-join_example :
    parse_executor_denylist (
      some
        "GAAAAAAAAAAAAAAAAAAAAAAAAAAAAAAAAAAAAAAAAAAAAAAAAAAAAAAA,GAAAAAAAAAAAAAAAAAAAAAAAAAAAAAAAAAAAAAAAAAAAAAAAAAAAAAAA")
    ≡ ok (codes ada ∷ codes ada ∷ [])
parse_executor_denylist-join_example =
    parse_executor_denylist-join (codes ada) (codes ada ∷ [])
      "GAAAAAAAAAAAAAAAAAAAAAAAAAAAAAAAAAAAAAAAAAAAAAAAAAAAAAAA,GAAAAAAAAAAAAAAAAAAAAAAAAAAAAAAAAAAAAAAAAAAAAAAAAAAAAAAA"
      (ada-IsKey, (ada-IsKey, tt)) joined
