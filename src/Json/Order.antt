-- ===== src/Json/Order.antt =====
-- The order in which an object names its entries does not show in its canonical form.
use trust_gate.Prelude.{String, Bool, true, false, ◌≡◌, refl, ap, ◌∙◌, arith, ◌⊎◌}
use trust_gate.Json.{
  Json, Items, Entries, array, object, no_items, item, no_entries, entry, insert_entry,
  canonicalize, canonicalize_items, canonicalize_entries,
}

module _ (before : String → String → Bool) where
  -- The two keys are not the same to the order.
  abbrev pub TellsApart : String → String → Type 0
  TellsApart k j =
      ((before k j ≡ true) × (before j k ≡ false)) ⊎ ((before k j ≡ false) × (before j k ≡ true))

  -- Two values that differ in the order of entries only, at any depth.
  mutual
    pub data Same : Json → Json → Type 0 where
      same : (v : Json) → Same v v
      same_array : {xs ys : Items} → SameItems xs ys → Same (array xs) (array ys)
      same_object : {es fs : Entries} → SameEntries es fs → Same (object es) (object fs)

    pub data SameItems : Items → Items → Type 0 where
      same_done : SameItems no_items no_items
      same_item :
          {v w : Json} {xs ys : Items}
          → Same v w
          → SameItems xs ys
          → SameItems (item v xs) (item w ys)

    pub data SameEntries : Entries → Entries → Type 0 where
      same_none : SameEntries no_entries no_entries
      same_entry :
          (k : String) {v w : Json} {es fs : Entries}
          → Same v w
          → SameEntries es fs
          → SameEntries (entry k v es) (entry k w fs)
      swapped :
          (k j : String) (v w : Json) (es : Entries)
          → TellsApart k j
          → SameEntries (entry k v (entry j w es)) (entry j w (entry k v es))
      then_same : {es fs gs : Entries} → SameEntries es fs → SameEntries fs gs → SameEntries es gs

  module _
      (transitive : (a b c : String)
        → before a b ≡ true
        → before b c ≡ true
        → before a c ≡ true) where
    insert-swap :
        (k j : String) (v w : Json) (es : Entries)
        → TellsApart k j
        → insert_entry before k v (insert_entry before j w es)
          ≡ insert_entry before j w (insert_entry before k v es)
    unfolding insert_entry
    insert-swap k j v w no_entries apart = ground arith
    insert-swap k j v w (entry i u es) apart =
        ground (arith, insert-swap k j v w es apart, transitive k j i, transitive j k i)

    mutual
      unfolding canonicalize canonicalize_items canonicalize_entries

      -- Values that differ in the order of entries only have the same canonical form, where the order
      -- on keys is transitive and tells the keys that are swapped apart.
      pub canonicalize-Same :
          {a b : Json} → Same a b → canonicalize before a ≡ canonicalize before b
      canonicalize-Same (same v) = refl
      canonicalize-Same (same_array h) = ap array (canonicalize_items-Same h)
      canonicalize-Same (same_object h) = ap object (canonicalize_entries-Same h)

      pub canonicalize_items-Same :
          {xs ys : Items}
          → SameItems xs ys
          → canonicalize_items before xs ≡ canonicalize_items before ys
      canonicalize_items-Same same_done = refl
      canonicalize_items-Same (same_item h k) =
          rw (canonicalize-Same h, canonicalize_items-Same k) refl

      pub canonicalize_entries-Same :
          {es fs : Entries}
          → SameEntries es fs
          → canonicalize_entries before es ≡ canonicalize_entries before fs
      canonicalize_entries-Same same_none = refl
      canonicalize_entries-Same (same_entry k h r) =
          rw (canonicalize-Same h, canonicalize_entries-Same r) refl
      canonicalize_entries-Same (swapped k j v w es apart) =
          insert-swap k j (canonicalize before v) (canonicalize before w)
            (canonicalize_entries before es) apart
      canonicalize_entries-Same (then_same h k) =
          canonicalize_entries-Same h ∙ canonicalize_entries-Same k
