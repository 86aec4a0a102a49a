-- ===== src/Safety/Denylist.antt =====
-- A list of keys is read as it was written.
use trust_gate.Prelude.{
  ℕ, String, Text, codes, true, false, not, ◌≡◌, refl, ap, ◌∙◌, List, [], ◌∷◌, ◌++◌, some, All, all,
  keep, map, arith, ◌=?◌,
}
use trust_gate.Money.{is_space, trim}
use trust_gate.Money.RoundTrip.{IsPlain, trim_plain}
use trust_gate.Schema.{matches_key, is_base32}
use trust_gate.Server.{ok}
use trust_gate.Safety.{split, is_empty, denylist_items, parse_executor_denylist}

abbrev pub IsKey : Text → Type 0
IsKey key = matches_key b'G' key ≡ true

-- keys with commas between them
unfoldable pub join : List Text → Text
join [] = []
join (key ∷ []) = key
join (key ∷ next ∷ keys) = key ++ b',' ∷ join (next ∷ keys)

-- A character of a key is no comma and no space.
abbrev IsInner : ℕ → Type 0
IsInner c = ((c =? b',') ≡ false) × (is_space c ≡ false)

IsInner-of : (c : ℕ) → is_base32 c ≡ true → IsInner c
unfolding is_space
IsInner-of c h = (ground arith, ground arith)

All-IsInner : (s : Text) → all is_base32 s ≡ true → All IsInner s
All-IsInner [] h = tt
All-IsInner (c ∷ s) h = (IsInner-of c (ground arith), All-IsInner s (ground arith))

IsKey-IsInner : (key : Text) → IsKey key → All IsInner key
unfolding matches_key
IsKey-IsInner [] h = absurd cc
IsKey-IsInner (c ∷ s) h = (IsInner-of c (ground arith), All-IsInner s (ground arith))

IsKey-filled : (key : Text) → IsKey key → is_empty key ≡ false
unfolding matches_key
IsKey-filled [] h = absurd cc
IsKey-filled (c ∷ s) h = refl

IsPlain-of : (s : Text) → All IsInner s → IsPlain s
IsPlain-of [] h = tt
IsPlain-of (c ∷ s) ((comma, space), h) = (space, IsPlain-of s h)

split_one : (s : Text) → All IsInner s → split b',' s ≡ s ∷ []
unfolding split
split_one [] h = refl
split_one (c ∷ s) ((comma, space), h) = rw (comma, split_one s h) refl

split_first : (s rest : Text) → All IsInner s → split b',' (s ++ b',' ∷ rest) ≡ s ∷ split b',' rest
unfolding split
split_first [] rest h = refl
split_first (c ∷ s) rest ((comma, space), h) = rw (comma, split_first s rest h) refl

split-join :
    (key : Text) (keys : List Text)
    → All IsKey (key ∷ keys)
    → split b',' (join (key ∷ keys)) ≡ key ∷ keys
unfolding join
split-join key [] (k, h) = split_one key (IsKey-IsInner key k)
split-join key (next ∷ keys) (k, h) =
    split_first key (join (next ∷ keys)) (IsKey-IsInner key k)
    ∙ ap (λ (rest : List Text). key ∷ rest) (split-join next keys h)

trimmed : (keys : List Text) → All IsKey keys → map trim keys ≡ keys
trimmed [] h = refl
trimmed (key ∷ keys) (k, h) =
    rw (trim_plain key (IsPlain-of key (IsKey-IsInner key k)), trimmed keys h) refl

kept : (keys : List Text) → All IsKey keys → keep (λ (s : Text). not (is_empty s)) keys ≡ keys
kept [] h = refl
kept (key ∷ keys) (k, h) = rw (IsKey-filled key k, kept keys h) refl

all_keys : (keys : List Text) → All IsKey keys → all (matches_key b'G') keys ≡ true
all_keys [] h = refl
all_keys (key ∷ keys) (k, h) = rw (k, all_keys keys h) refl

IsPlain-append : (s t : Text) → IsPlain s → IsPlain t → IsPlain (s ++ b',' ∷ t)
unfolding is_space
IsPlain-append [] t h k = (refl, k)
IsPlain-append (c ∷ s) t (p, h) k = (p, IsPlain-append s t h k)

IsPlain-join :
    (key : Text) (keys : List Text) → All IsKey (key ∷ keys) → IsPlain (join (key ∷ keys))
unfolding join
IsPlain-join key [] (k, h) = IsPlain-of key (IsKey-IsInner key k)
IsPlain-join key (next ∷ keys) (k, h) =
    IsPlain-append key (join (next ∷ keys)) (IsPlain-of key (IsKey-IsInner key k))
      (IsPlain-join next keys h)

join_filled :
    (key : Text) (keys : List Text) → All IsKey (key ∷ keys) → is_empty (join (key ∷ keys)) ≡ false
unfolding join matches_key
join_filled [] keys (k, h) = absurd cc
join_filled (c ∷ s) [] h = refl
join_filled (c ∷ s) (next ∷ keys) h = refl

denylist_items-join :
    (key : Text) (keys : List Text) (raw : String)
    → All IsKey (key ∷ keys)
    → codes raw ≡ join (key ∷ keys)
    → denylist_items raw ≡ key ∷ keys
unfolding denylist_items
denylist_items-join key keys raw h e =
    let filter : List Text → List Text = keep (λ (s : Text). not (is_empty s)) in
    ap (λ (t : Text). filter (map trim (split b',' t))) e
    ∙ ap (λ (parts : List Text). filter (map trim parts)) (split-join key keys h)
    ∙ ap filter (trimmed (key ∷ keys) h)
    ∙ kept (key ∷ keys) h

-- One or more Stellar addresses with commas between them are read as the denylist of just these.
pub parse_executor_denylist-join :
    (key : Text) (keys : List Text) (raw : String)
    → All IsKey (key ∷ keys)
    → codes raw ≡ join (key ∷ keys)
    → parse_executor_denylist (some raw) ≡ ok (key ∷ keys)
unfolding parse_executor_denylist
parse_executor_denylist-join key keys raw h e =
    let same = denylist_items-join key keys raw h e in
    let filled : is_empty (trim (codes raw)) ≡ false =
      rw (e, trim_plain (join (key ∷ keys)) (IsPlain-join key keys h)) (join_filled key keys h) in
    rw (filled, same, all_keys (key ∷ keys) h, parse_executor_denylist) refl
