-- ===== src/Json.antt =====
-- JSON values, and `canonicalize` of src/services/executorResultService.ts.
pub mod Order
use trust_gate.Prelude.{String, Bool, if◌then◌else◌}

-- Numbers are kept as their text. The entries of an object are those of `Object.entries`, in order.
mutual
  pub data Json : Type 0 where
    null : Json
    boolean : Bool → Json
    number text : String → Json
    array : Items → Json
    object : Entries → Json

  pub data Items : Type 0 where
    no_items : Items
    item : Json → Items → Items

  pub data Entries : Type 0 where
    no_entries : Entries
    entry : String → Json → Entries → Entries

-- `before a b` is `a.localeCompare(b) <= 0`.
module _ (before : String → String → Bool) where
  -- A stable sort puts an entry before those that it does not come after.
  unfoldable pub insert_entry : String → Json → Entries → Entries
  insert_entry k v no_entries = entry k v no_entries
  insert_entry k v (entry j w es) =
      let rest = insert_entry k v es in
      if before k j then entry k v (entry j w es) else entry j w rest

  -- The values do not matter to the order, so they may be made canonical before they are sorted.
  unfoldable mutual
    unfolding insert_entry

    pub canonicalize : Json → Json
    canonicalize null = null
    canonicalize (boolean b) = boolean b
    canonicalize (number s) = number s
    canonicalize (text s) = text s
    canonicalize (array xs) = array (canonicalize_items xs)
    canonicalize (object es) = object (canonicalize_entries es)

    pub canonicalize_items : Items → Items
    canonicalize_items no_items = no_items
    canonicalize_items (item v xs) = item (canonicalize v) (canonicalize_items xs)

    pub canonicalize_entries : Entries → Entries
    canonicalize_entries no_entries = no_entries
    canonicalize_entries (entry k v es) = insert_entry k (canonicalize v) (canonicalize_entries es)
