-- ===== src/Schema/Accepted.antt =====
-- What a body that passes a schema has been checked for.
use mathlib.Core.Path.{subst}
use trust_gate.Prelude.{
  ℕ, ◌&&◌, not, ◌<◌, ◌≡◌, ◌≢◌, refl, String, Bool, true, false, Option, none, some, arith, eq_iff,
}
use trust_gate.Schema.{
  RequestBody, BidInput, TaskInput, create_bid_signed_schema, create_bid_local_schema, is_amount,
  stroops_of, is_public_key, create_task_schema, ◌>>=◌, ◌>>◌, check, is_empty, is_future,
  string_field, secret_schema,
}

-- A positive amount of stroops.
abbrev pub IsAmount : String → Type 0
IsAmount s = (n : ℕ) × (stroops_of s ≡ some n) × (0 < n)

is_amount-IsAmount : (s : String) → is_amount s ≡ true → IsAmount s
unfolding is_amount
is_amount-IsAmount s h = go (stroops_of s) refl
  where
    go : (o : Option ℕ) → stroops_of s ≡ o → IsAmount s
    go none e = ground arith
    go (some n) e = (n, e, ground arith)

-- Whatever `o` holds satisfies P.
record Post {B : Type 0} (P : B → Type 0) (o : Option B) : Type 0 where
  at : (b : B) → o ≡ some b → P b

module _ {A B : Type 0} (P : B → Type 0) where
  Post-bind :
      (o : Option A) (f : A → Option B) → ((a : A) → o ≡ some a → Post P (f a)) → Post P (o >>= f)
  Post-bind none f h = record { at = λ b e. cc }
  Post-bind (some a) f h = h a refl

module _ {B : Type 0} (P : B → Type 0) where
  Post-check : (t : Bool) (k : Option B) → (t ≡ true → Post P k) → Post P (check t >> k)
  Post-check true k h = h refl
  Post-check false k h = record { at = λ b e. cc }

  Post-some : (b : B) → P b → Post P (some b)
  Post-some b h = record { at = λ c e. let same : b ≡ c = cc in subst P same h }

and_right : (a b : Bool) → (a && b) ≡ true → b ≡ true
and_right true b h = h
and_right false b h = cc

is_empty-ne : (s : String) → not (is_empty s) ≡ true → s ≢ ""
is_empty-ne s h = ground (arith, eq_iff s "")

pub record IsBidInput (input : BidInput) : Type 0 where
  pub task_id : input.task_id ≢ ""
  pub executor : is_public_key input.executor ≡ true
  pub amount : IsAmount input.amount
  pub collateral : IsAmount input.collateral

create_bid_signed_schema-Post :
    (body : RequestBody) → Post IsBidInput (create_bid_signed_schema body)
unfolding create_bid_signed_schema
create_bid_signed_schema-Post body =
    Post-bind IsBidInput (string_field "taskId" body) _ λ task_id _.
      Post-bind IsBidInput (string_field "executor" body) _ λ executor _.
        Post-bind IsBidInput (string_field "amount" body) _ λ amount _.
          Post-bind IsBidInput (string_field "collateral" body) _ λ collateral _.
            Post-check IsBidInput (not (is_empty task_id)) _ λ c1.
              Post-check IsBidInput (is_public_key executor) _ λ c2.
                Post-check IsBidInput (not (is_empty amount) && is_amount amount) _ λ c3.
                  Post-check IsBidInput (not (is_empty collateral) && is_amount collateral) _ λ c4.
                    Post-some IsBidInput _ (record {
                      task_id = is_empty-ne task_id c1;
                      executor = c2;
                      amount = is_amount-IsAmount amount (and_right _ _ c3);
                      collateral = is_amount-IsAmount collateral (and_right _ _ c4);
                    })

-- A body that the bid schema accepts names a task and a valid executor, and both of its amounts
-- parse to a positive number of stroops.
pub create_bid_signed_schema-IsBidInput :
    (body : RequestBody) {input : BidInput}
    → create_bid_signed_schema body ≡ some input
    → IsBidInput input
create_bid_signed_schema-IsBidInput body h = (create_bid_signed_schema-Post body).at _ h

pub create_bid_local_schema-IsBidInput :
    (body : RequestBody) {r : BidInput × String}
    → create_bid_local_schema body ≡ some r
    → IsBidInput r.0
create_bid_local_schema-IsBidInput body h = (local body).at _ h
  where
    local :
        (b : RequestBody)
        → Post (λ (r : BidInput × String). IsBidInput r.0) (create_bid_local_schema b)
    local b =
        unfold create_bid_local_schema in
        Post-bind (λ r. IsBidInput r.0) (create_bid_signed_schema b) _
          λ input e.
            Post-bind (λ r. IsBidInput r.0) (secret_schema b) _
              λ secret _.
                Post-some (λ r. IsBidInput r.0) _ (create_bid_signed_schema-IsBidInput b e)

-- A task that may be created has a valid requester, a positive price and a deadline to come.
pub record IsTaskInput (date_parse : String → Option ℕ) (now : ℕ) (input : TaskInput) : Type 0 where
  pub requester : is_public_key input.requester ≡ true
  pub reserve_price : IsAmount input.reserve_price
  pub description : input.description ≢ ""
  pub deadline : (t : ℕ) × (date_parse input.deadline ≡ some t) × (now < t)

future_deadline :
    (o : Option ℕ) (now : ℕ) → is_future o now ≡ true → (t : ℕ) × (o ≡ some t) × (now < t)
future_deadline none now h = cc
future_deadline (some t) now h = (t, refl, ground arith)

create_task_schema-Post :
    (date_parse : String → Option ℕ) (now : ℕ) (body : RequestBody)
    → Post (IsTaskInput date_parse now) (create_task_schema date_parse now body)
unfolding create_task_schema
create_task_schema-Post date_parse now body =
    Post-bind (IsTaskInput date_parse now) (string_field "requester" body) _ λ requester _.
      Post-bind (IsTaskInput date_parse now) (string_field "reservePrice" body) _ λ reserve_price _.
        Post-bind (IsTaskInput date_parse now) (string_field "description" body) _ λ description _.
          Post-bind (IsTaskInput date_parse now) (string_field "deadline" body) _ λ deadline _.
            Post-check (IsTaskInput date_parse now) (is_public_key requester) _ λ c1.
              Post-check (IsTaskInput date_parse now)
                (not (is_empty reserve_price) && is_amount reserve_price) _
                λ c2. Post-check (IsTaskInput date_parse now) (not (is_empty description)) _ λ c3.
                  Post-check (IsTaskInput date_parse now) (is_future (date_parse deadline) now) _
                    λ c4. Post-some (IsTaskInput date_parse now) _ (record {
                      requester = c1;
                      reserve_price = is_amount-IsAmount reserve_price (and_right _ _ c2);
                      description = is_empty-ne description c3;
                      deadline = future_deadline (date_parse deadline) now c4;
                    })

-- A body that the task schema accepts has a valid requester, a reserve price that parses to a
-- positive number of stroops, a description, and a deadline that is a date behind `now`.
pub create_task_schema-IsTaskInput :
    (date_parse : String → Option ℕ) (now : ℕ) (body : RequestBody) {input : TaskInput}
    → create_task_schema date_parse now body ≡ some input
    → IsTaskInput date_parse now input
create_task_schema-IsTaskInput date_parse now body h =
    (create_task_schema-Post date_parse now body).at _ h
