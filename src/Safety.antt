-- ===== src/Safety.antt =====
-- src/config/safetyFeatures.ts: the flags of the environment. What is parsed is kept in a cache of the
-- process, which is not modelled.
pub mod Denylist
mod Tests
use trust_gate.Prelude.{
  ℕ, String, Text, codes, text_eq, to_lower, map, Bool, true, false, not, ltb, Option, none, some,
  List, [], ◌∷◌, ◌=?◌, length, any, all, keep, ◌==◌, if◌then◌else◌,
}
use trust_gate.Money.{trim}
use trust_gate.Schema.{matches_key}
use trust_gate.Server.{Result, ok, err}

pub data EscrowImplementation : Type 0 where
  trustlesswork mock ourown : EscrowImplementation

-- `SafetyFeatures`; the Set of keys is a list, of which the code asks only whether it has a key
pub record LoadedFeatures : Type 0 where
  pub pause_new_tasks : Bool
  pub pause_new_bids : Bool
  pub pause_worker_consumption : Bool
  pub executor_denylist : List Text
  pub escrow_implementation : EscrowImplementation
  pub trustless_work_webhook_public_key : Option Text

-- `raw.trim().toLowerCase()`
abbrev pub lowered : String → Text
lowered raw = map to_lower (trim (codes raw))

abbrev pub one_of : List String → Text → Bool
one_of names text = any (λ (name : String). text_eq (codes name) text) names

-- A variable that is not set is `none`.
unfoldable pub parse_bool_env : Option String → Bool → Result Bool
parse_bool_env none default = ok default
parse_bool_env (some raw) default =
    if raw == ""
    then ok default
    else if one_of ("1" ∷ "true" ∷ "yes" ∷ "on" ∷ []) (lowered raw)
    then ok true
    else if one_of ("0" ∷ "false" ∷ "no" ∷ "off" ∷ []) (lowered raw)
    then ok false
    else err "[safetyFeatures] Invalid boolean"

abbrev pub start_with : ℕ → List Text → List Text
start_with c [] = (c ∷ []) ∷ []
start_with c (part ∷ parts) = (c ∷ part) ∷ parts

-- `raw.split(',')`
unfoldable pub split : ℕ → Text → List Text
split separator [] = [] ∷ []
split separator (c ∷ text) =
    let parts = split separator text in if c =? separator then [] ∷ parts else start_with c parts

abbrev pub is_empty : Text → Bool
is_empty [] = true
is_empty (c ∷ text) = false

-- the items of a list that is set
unfoldable pub denylist_items : String → List Text
unfolding split
denylist_items raw = keep (λ (s : Text). not (is_empty s)) (map trim (split b',' (codes raw)))

unfoldable pub parse_executor_denylist : Option String → Result (List Text)
unfolding denylist_items
parse_executor_denylist none = ok []
parse_executor_denylist (some raw) =
    if is_empty (trim (codes raw))
    then ok []
    else if all (matches_key b'G') (denylist_items raw)
    then ok (denylist_items raw)
    else err "[safetyFeatures] EXECUTOR_DENYLIST contains invalid Stellar addresses"

unfoldable pub parse_escrow_implementation : Option String → Result EscrowImplementation
parse_escrow_implementation none = ok trustlesswork
parse_escrow_implementation (some raw) =
    if text_eq (codes "trustlesswork") (lowered raw)
    then ok trustlesswork
    else if text_eq (codes "mock") (lowered raw)
    then ok mock
    else if text_eq (codes "ourown") (lowered raw)
    then ok ourown
    else err "[safetyFeatures] Invalid ESCROW_IMPLEMENTATION"

unfoldable pub parse_optional_string_min_len : Option String → ℕ → Result (Option Text)
parse_optional_string_min_len none min_len = ok none
parse_optional_string_min_len (some raw) min_len =
    if raw == ""
    then ok none
    else if ltb (length (trim (codes raw))) min_len
    then err "[safetyFeatures] too short"
    else ok (some (trim (codes raw)))

infixl 5 ◌>>=◌
abbrev pub ◌>>=◌ : {A B : Type 0} → Result A → (A → Result B) → Result B
ok a >>= f = f a
err message >>= f = err message

-- `process.env`
abbrev pub ProcessEnv : Type 0
ProcessEnv = String → Option String

unfoldable pub load_safety_features : ProcessEnv → Result LoadedFeatures
unfolding parse_bool_env parse_executor_denylist parse_escrow_implementation
    parse_optional_string_min_len
load_safety_features env = do
  pause_new_tasks ← parse_bool_env (env "PAUSE_NEW_TASKS") false
  pause_new_bids ← parse_bool_env (env "PAUSE_NEW_BIDS") false
  pause_worker_consumption ← parse_bool_env (env "PAUSE_WORKER_CONSUMPTION") false
  executor_denylist ← parse_executor_denylist (env "EXECUTOR_DENYLIST")
  escrow_implementation ← parse_escrow_implementation (env "ESCROW_IMPLEMENTATION")
  webhook_key ← parse_optional_string_min_len (env "TRUSTLESS_WORK_WEBHOOK_PUBLIC_KEY") 32
  ok (record {
    pause_new_tasks = pause_new_tasks;
    pause_new_bids = pause_new_bids;
    pause_worker_consumption = pause_worker_consumption;
    executor_denylist = executor_denylist;
    escrow_implementation = escrow_implementation;
    trustless_work_webhook_public_key = webhook_key;
  })
