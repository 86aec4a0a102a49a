-- ===== src/Schema.antt =====
-- src/models/bidSchema.ts and src/models/taskSchema.ts: the checks of request bodies. A body is the
-- list of its fields, as JSON.parse leaves them: each name once.
pub mod Accepted
mod Tests
use trust_gate.Prelude.{
  ℕ, ◌+◌, String, Text, codes, Bool, true, false, not, ◌&&◌, ◌||◌, Option, none, some, List, [],
  ◌∷◌, leb, ltb, ◌=?◌, length, all, ◌==◌, if◌then◌else◌,
}
use trust_gate.Money.{parse_usdc_decimal_to_stroops}

-- A value in a request body: a string, or anything else.
pub data Field : Type 0 where
  str : String → Field
  non_string : Field

abbrev pub RequestBody : Type 0
RequestBody = List (String × Field)

unfoldable pub lookup : String → RequestBody → Option Field
lookup name [] = none
lookup name ((k, v) ∷ fields) = if k == name then some v else lookup name fields

abbrev text_of : Option Field → Option String
text_of none = none
text_of (some (str s)) = some s
text_of (some non_string) = none

-- `z.string()`
unfoldable pub string_field : String → RequestBody → Option String
unfolding lookup
string_field name body = text_of (lookup name body)

infixl 5 ◌>>=◌ ◌>>◌
abbrev pub ◌>>=◌ : {A B : Type 0} → Option A → (A → Option B) → Option B
none >>= f = none
some a >>= f = f a

abbrev pub ◌>>◌ : {B : Type 0} → Option (Unit {0}) → Option B → Option B
m >> k = m >>= λ _. k

-- `.refine(test)`, `.min(1)`, `.regex(…)`
abbrev pub check : Bool → Option (Unit {0})
check true = some tt
check false = none

-- `[A-Z2-7]`
abbrev pub is_base32 : ℕ → Bool
is_base32 c = (leb b'A' c && leb c b'Z') || (leb b'2' c && leb c b'7')

-- `/^G[A-Z2-7]{55}$/` for the prefix 'G', `/^S[A-Z2-7]{55}$/` for 'S'
unfoldable pub matches_key : ℕ → Text → Bool
matches_key prefix [] = false
matches_key prefix (c ∷ s) = (c =? prefix) && (length s =? 55) && all is_base32 s

unfoldable pub is_public_key : String → Bool
unfolding matches_key
is_public_key s = matches_key b'G' (codes s)

unfoldable pub is_secret_key : String → Bool
unfolding matches_key
is_secret_key s = matches_key b'S' (codes s)

-- `parseUsdcDecimalToStroops` of a text field
unfoldable pub stroops_of : String → Option ℕ
stroops_of s = parse_usdc_decimal_to_stroops (codes s)

-- the refinement of an amount: it parses, to more than 0
unfoldable pub is_amount : String → Bool
unfolding stroops_of
is_amount s = elim (stroops_of s) [ none ↦ false | some n ↦ ltb 0 n ]

abbrev pub is_empty : String → Bool
is_empty s = s == ""

pub record BidInput : Type 0 where
  pub task_id : String
  pub executor : String
  pub amount : String
  pub collateral : String

unfoldable pub create_bid_signed_schema : RequestBody → Option BidInput
create_bid_signed_schema body = do
  task_id ← string_field "taskId" body
  executor ← string_field "executor" body
  amount ← string_field "amount" body
  collateral ← string_field "collateral" body
  check (not (is_empty task_id))
  check (is_public_key executor)
  check (not (is_empty amount) && is_amount amount)
  check (not (is_empty collateral) && is_amount collateral)
  some (record { task_id = task_id; executor = executor; amount = amount; collateral = collateral })

-- the `secret` that the schemas of the local network add
unfoldable pub secret_schema : RequestBody → Option String
secret_schema body = do
  secret ← string_field "secret" body
  check (is_secret_key secret)
  some secret

unfoldable pub create_bid_local_schema : RequestBody → Option (BidInput × String)
create_bid_local_schema body = do
  input ← create_bid_signed_schema body
  secret ← secret_schema body
  some (input, secret)

pub record TaskInput : Type 0 where
  pub requester : String
  pub reserve_price : String
  pub description : String
  pub deadline : String

-- `new Date(deadline).getTime() > Date.now()`, which NaN fails
abbrev pub is_future : Option ℕ → ℕ → Bool
is_future none now = false
is_future (some t) now = ltb now t

unfoldable pub create_task_schema : (String → Option ℕ) → ℕ → RequestBody → Option TaskInput
create_task_schema date_parse now body = do
  requester ← string_field "requester" body
  reserve_price ← string_field "reservePrice" body
  description ← string_field "description" body
  deadline ← string_field "deadline" body
  check (is_public_key requester)
  check (not (is_empty reserve_price) && is_amount reserve_price)
  check (not (is_empty description))
  check (is_future (date_parse deadline) now)
  some (record {
    requester = requester;
    reserve_price = reserve_price;
    description = description;
    deadline = deadline;
  })

unfoldable pub create_task_local_request_schema :
    (String → Option ℕ) → ℕ → RequestBody → Option (TaskInput × String)
create_task_local_request_schema date_parse now body = do
  input ← create_task_schema date_parse now body
  secret ← secret_schema body
  some (input, secret)

unfoldable pub complete_task_signed_request_schema : RequestBody → Option String
complete_task_signed_request_schema body = do
  requester ← string_field "requester" body
  check (is_public_key requester)
  some requester

unfoldable pub complete_task_local_request_schema : RequestBody → Option (String × String)
complete_task_local_request_schema body = do
  requester ← complete_task_signed_request_schema body
  secret ← secret_schema body
  some (requester, secret)
