-- ===== src/Table.antt =====
-- Rows with a text for a key: a `Map` in insertion order, or a table with a primary key.
use mathlib.Core.Path.{subst}
use trust_gate.Prelude.{
  ap, ◌∙◌, ℕ, String, ◌≡◌, refl, Bool, true, false, Option, none, some, List, [], ◌∷◌, ◌==◌, eq_iff,
  if◌then◌else◌, arith, keep, All, All-keep, All-keep_passes, All-take, take, zero, suc, ◌≢◌,
  Bool-cases, inl, inr,
}

module _ {A : Type 0} (key : A → String) where
  -- `map.get(k)`
  unfoldable pub find : String → List A → Option A
  find k [] = none
  find k (x ∷ xs) = if key x == k then some x else find k xs

  -- `map.set(key, a)`, `insert … on conflict do update`
  unfoldable pub upsert : A → List A → List A
  upsert a [] = a ∷ []
  upsert a (x ∷ xs) = if key x == key a then a ∷ xs else x ∷ upsert a xs

  -- `update … where key = k`
  unfoldable pub update_at : String → (A → A) → List A → List A
  update_at k f [] = []
  update_at k f (x ∷ xs) = (if key x == k then f x else x) ∷ update_at k f xs

  pub find-upsert :
      (k : String) (a : A) (xs : List A)
      → find k (upsert a xs) ≡ (if key a == k then some a else find k xs)
  unfolding find upsert
  find-upsert k a [] = refl
  find-upsert k a (x ∷ xs) =
      ground (arith, eq_iff (key x) (key a), eq_iff (key x) k, eq_iff (key a) k, find-upsert k a xs)

  pub find-update_at :
      (k j : String) (f : A → A) (xs : List A)
      → ((x : A) → key (f x) ≡ key x)
      → find k (update_at j f xs)
        ≡ (elim (find k xs) [ none ↦ none | some x ↦ if k == j then some (f x) else some x ])
  unfolding find update_at
  find-update_at k j f [] h = refl
  find-update_at k j f (x ∷ xs) h =
      ground (arith, h x, eq_iff (key x) j, eq_iff (key x) k, eq_iff k j, find-update_at k j f xs h)

  pub key-find : (k : String) (xs : List A) (a : A) → find k xs ≡ some a → key a ≡ k
  unfolding find
  key-find k [] a h = cc
  key-find k (x ∷ xs) a h = ground (arith, eq_iff (key x) k, key-find k xs a)

-- The rows have different keys.
module _ {A : Type 0} (key : A → String) where
  abbrev pub IsKeyed : List A → Type 0
  IsKeyed [] = Unit
  IsKeyed (x ∷ xs) = All (λ y. key y ≢ key x) xs × IsKeyed xs

  pub All-upsert : (P : A → Type 0) (a : A) (xs : List A) → P a → All P xs → All P (upsert key a xs)
  unfolding upsert
  All-upsert P a [] p h = (p, tt)
  All-upsert P a (x ∷ xs) p (q, h) = elim (Bool-cases (key x == key a)) [
    | inl e ↦ rw e (p, h)
    | inr e ↦ rw e (q, All-upsert P a xs p h)
  ]

  ne_of_str : (a b : String) → (a == b) ≡ false → b ≢ a
  ne_of_str a b h e = ground (arith, eq_iff a b)

  pub IsKeyed-upsert : (a : A) (xs : List A) → IsKeyed xs → IsKeyed (upsert key a xs)
  unfolding upsert
  IsKeyed-upsert a [] h = (tt, tt)
  IsKeyed-upsert a (x ∷ xs) (h, k) = elim (Bool-cases (key x == key a)) [
    | inl e ↦ rw e (subst (λ s. All (λ y. key y ≢ s) xs) ((eq_iff _ _).0 e) h, k)
    | inr e ↦ rw e (All-upsert (λ y. key y ≢ key x) a xs (ne_of_str _ _ e) h, IsKeyed-upsert a xs k)
  ]

  pub IsKeyed-keep : (p : A → Bool) (xs : List A) → IsKeyed xs → IsKeyed (keep p xs)
  IsKeyed-keep p [] h = tt
  IsKeyed-keep p (x ∷ xs) (h, k) = elim (Bool-cases (p x)) [
    | inl e ↦ rw e (All-keep (λ y. key y ≢ key x) p xs h, IsKeyed-keep p xs k)
    | inr e ↦ rw e (IsKeyed-keep p xs k)
  ]

  -- Of rows with different keys, a filter that drops the row of a key keeps no row of that key.
  pub keep-drops :
      (p : A → Bool) (k : String) (xs : List A) (a : A)
      → IsKeyed xs
      → find key k xs ≡ some a
      → p a ≡ false
      → All (λ x. key x ≢ k) (keep p xs)
  unfolding find
  keep-drops p k [] a keyed found h = tt
  keep-drops p k (x ∷ xs) a (ne, keyed) found h = elim (Bool-cases (key x == k)) [
    | inl e ↦
        let same : x ≡ a = ground (arith, e) in
        let dropped : p x ≡ false = ap p same ∙ h in
        rw dropped (
          subst (λ s. All (λ y. key y ≢ s) (keep p xs)) ((eq_iff _ _).0 e)
            (All-keep (λ y. key y ≢ key x) p xs ne))
    | inr e ↦
        let later : find key k xs ≡ some a = ground (arith, e) in
        let rest = keep-drops p k xs a keyed later h in
        elim (Bool-cases (p x)) [
          | inl kept ↦ rw kept (λ same. ground (arith, eq_iff (key x) k), rest)
          | inr dropped ↦ rw dropped rest
        ]
  ]

  pub IsKeyed-take : (n : ℕ) (xs : List A) → IsKeyed xs → IsKeyed (take n xs)
  IsKeyed-take zero xs h = tt
  IsKeyed-take (suc n) [] h = tt
  IsKeyed-take (suc n) (x ∷ xs) (h, k) = (All-take (λ y. key y ≢ key x) n xs h, IsKeyed-take n xs k)

  find_skip :
      (x : A) (xs rows : List A)
      → All (λ y. key y ≢ key x) xs
      → All (λ y. find key (key y) rows ≡ some y) xs
      → All (λ y. find key (key y) (x ∷ rows) ≡ some y) xs
  unfolding find
  find_skip x [] rows ne h = tt
  find_skip x (y ∷ xs) rows (ne, nes) (e, h) =
      (ground (arith, eq_iff (key x) (key y)), find_skip x xs rows nes h)

  found-All : (xs : List A) → IsKeyed xs → All (λ x. find key (key x) xs ≡ some x) xs
  unfolding find
  found-All [] h = tt
  found-All (x ∷ xs) (ne, k) =
      (ground (arith, eq_iff (key x) (key x)), find_skip x xs xs ne (found-All xs k))

  -- Rows with different keys are found by their keys; those that a filter keeps pass it.
  pub keep-found :
      (p : A → Bool) (xs : List A)
      → IsKeyed xs
      → All (λ x. (find key (key x) xs ≡ some x) × (p x ≡ true)) (keep p xs)
  keep-found p xs keyed =
      All-keep_passes (λ x. find key (key x) xs ≡ some x) p xs (found-All xs keyed)
