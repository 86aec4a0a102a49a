-- ===== src/Consumer/Parsing.antt =====
-- Entries come back from the reply that carries them.
use trust_gate.Prelude.{List, [], ◌∷◌}
use trust_gate.Table.{IsKeyed}
use trust_gate.Consumer.{Replies, bulk, array, end, also, Fields, field_name, StreamEntry}

-- how Redis writes the fields of an entry, and a list of entries
unfoldable pub encode_fields : Fields → Replies
encode_fields [] = end
encode_fields ((name, value) ∷ fields) = also (bulk name) (also (bulk value) (encode_fields fields))

unfoldable pub encode_items : List StreamEntry → Replies
unfolding encode_fields
encode_items [] = end
encode_items (entry ∷ entries) =
    also (array (also (bulk entry.id) (also (array (encode_fields entry.fields)) end)))
      (encode_items entries)

-- each field of an entry is named once
abbrev pub HasKeys : StreamEntry → Type 0
HasKeys entry = IsKeyed field_name entry.fields
