-- ===== src/Consumer.antt =====
-- src/services/eventConsumer.ts: the consumer of the stream, and its reading of the replies of Redis.
pub mod Claiming
pub mod Parsing
mod Tests
use trust_gate.Prelude.{
  ℕ, suc, String, Text, codes, contains, to_lower, map, Bool, true, false, Option, none, some, List,
  [], ◌∷◌, length, if◌then◌else◌,
}
use trust_gate.Table.{upsert}
use trust_gate.Server.{Result, ok, err}

-- A reply of Redis.
mutual
  pub data Reply : Type 0 where
    null : Reply
    bulk : String → Reply
    array : Replies → Reply

  pub data Replies : Type 0 where
    end : Replies
    also : Reply → Replies → Replies

abbrev pub Fields : Type 0
Fields = List (String × String)

abbrev pub field_name : String × String → String
field_name f = f.0

pub record StreamEntry : Type 0 where
  pub id : String
  pub fields : Fields

-- the state of a consumer
pub record EventConsumer : Type 0 where
  pub claim_cursor : String
  pub claiming : Bool

abbrev pub new_consumer : EventConsumer
new_consumer = record { claim_cursor = "0-0"; claiming = false }

-- `ensureGroup`: a group that is there already is no error
unfoldable pub ensure_group : Result (Unit {0}) → Result (Unit {0})
unfolding contains
ensure_group (ok u) = ok tt
ensure_group (err message) =
    if contains (codes "busygroup") (codes message) then ok tt else err message

-- `string_of` is `String` of a reply.
module _ (string_of : Reply → String) where
  -- `fields[name] = value` for one pair after another; a value that is missing is "undefined"
  unfoldable pub read_fields : Replies → Fields → Fields
  unfolding upsert
  read_fields end fields = fields
  read_fields (also name end) fields = upsert field_name (string_of name, "undefined") fields
  read_fields (also name (also value rest)) fields =
      read_fields rest (upsert field_name (string_of name, string_of value) fields)

  unfoldable pub parse_fields : Reply → Fields
  unfolding read_fields
  parse_fields null = []
  parse_fields (bulk s) = []
  parse_fields (array replies) = read_fields replies []

  -- an item that is no pair is left out
  unfoldable pub parse_item : Reply → Option StreamEntry
  unfolding parse_fields
  parse_item null = none
  parse_item (bulk s) = none
  parse_item (array end) = none
  parse_item (array (also id end)) = none
  parse_item (array (also id (also fields rest))) =
      some (record { id = string_of id; fields = parse_fields fields })

  unfoldable pub parse_items : Replies → List StreamEntry
  unfolding parse_item
  parse_items end = []
  parse_items (also item items) =
      let rest = parse_items items in
      elim (parse_item item) [ none ↦ rest | some entry ↦ entry ∷ rest ]

  unfoldable pub parse_entries : Reply → List StreamEntry
  unfolding parse_items
  parse_entries null = []
  parse_entries (bulk s) = []
  parse_entries (array items) = parse_items items

  -- `handler` is what is done with an entry: what it throws, if it throws, and the state behind it.
  module _ {S : Type 0} (handler : StreamEntry → S → Option String × S) where
    -- the loop of both methods, which ends with the first error
    unfoldable pub handle_all : List StreamEntry → S → Option String × S
    handle_all [] s = (none, s)
    handle_all (entry ∷ entries) s =
        let (thrown, s1) = handler entry s in
        let rest = handle_all entries s1 in
        elim thrown [ none ↦ rest | some message ↦ (some message, s1) ]

    -- how many entries were handled, or the error
    unfoldable pub handle_counted : List StreamEntry → S → Result ℕ × S
    unfolding handle_all
    handle_counted entries s =
        let (thrown, s1) = handle_all entries s in
        (elim thrown [ none ↦ ok (length entries) | some message ↦ err message ], s1)

    -- the entries of the one stream that was asked for
    unfoldable pub entries_of_reply : Reply → List StreamEntry
    unfolding parse_entries
    entries_of_reply (array (also (array (also name (also entries rest))) streams)) =
        parse_entries entries
    entries_of_reply _ = []

    -- `pollOnce`, given what XREADGROUP answers
    unfoldable pub poll_once : Result Reply → S → Result ℕ × S
    unfolding handle_counted entries_of_reply
    poll_once (err message) s = (err message, s)
    poll_once (ok reply) s = handle_counted (entries_of_reply reply) s

    -- what `autoClaimOnce` does with the answer of XAUTOCLAIM: inside its `try`
    unfoldable pub claimed : Reply → EventConsumer → S → Result ℕ × EventConsumer × S
    unfolding handle_counted parse_entries
    claimed (array (also null (also entries rest))) c s =
        let (count, s1) = handle_counted (parse_entries entries) s in
        (count, record c { claiming = false }, s1)
    claimed (array (also cursor (also entries rest))) c s =
        let (count, s1) = handle_counted (parse_entries entries) s in
        (count, record { claim_cursor = string_of cursor; claiming = false }, s1)
    claimed _ c s = (ok 0, record c { claiming = false }, s)

    -- `autoClaimOnce`; `xautoclaim` is what Redis answers from a cursor. The command is sent before
    -- the `try`.
    unfoldable pub auto_claim_once :
        (xautoclaim : String → Result Reply) → EventConsumer → S → Result ℕ × EventConsumer × S
    unfolding claimed
    auto_claim_once xautoclaim c s =
        if c.claiming then (ok 0, c, s) else (elim (xautoclaim c.claim_cursor) [
          | err message ↦ (err message, record c { claiming = true }, s)
          | ok reply ↦ claimed reply (record c { claiming = true }) s
        ])
