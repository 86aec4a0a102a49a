-- ===== src/Auth/Memory.antt =====
-- A store in memory that keeps the laws of the interface.
use trust_gate.Prelude.{
  ℕ, suc, String, Bool, true, false, ◌≡◌, ◌≢◌, refl, ap, Option, none, some, List, [], ◌∷◌, arith,
  eq_iff, ◌==◌, if◌then◌else◌,
}
use trust_gate.Redis.{Redis}

abbrev pub Memory : Type 0
Memory = List (String × String) × List String

unfoldable pub lookup : String → List (String × String) → Option String
lookup k [] = none
lookup k ((j, v) ∷ rows) = if j == k then some v else lookup k rows

unfoldable pub remove : String → List (String × String) → List (String × String)
remove k [] = []
remove k ((j, v) ∷ rows) = let rest = remove k rows in if j == k then rest else (j, v) ∷ rest

unfoldable pub count_of : String → List String → ℕ
count_of k [] = 0
count_of k (j ∷ calls) = let rest = count_of k calls in if j == k then suc rest else rest

pub lookup-remove_self :
    (k : String) (rows : List (String × String)) → lookup k (remove k rows) ≡ none
unfolding lookup remove
lookup-remove_self k [] = refl
lookup-remove_self k ((j, v) ∷ rows) = ground (arith, lookup-remove_self k rows)

pub lookup-remove_other :
    (k j : String) (rows : List (String × String))
    → j ≢ k
    → lookup j (remove k rows) ≡ lookup j rows
unfolding lookup remove
lookup-remove_other k j [] h = refl
lookup-remove_other k j ((i, v) ∷ rows) h =
    ground (arith, eq_iff i k, eq_iff i j, lookup-remove_other k j rows)

unfoldable pub put : (key value : String) → Memory → Bool × Memory
unfolding lookup
put key value s = elim (lookup key s.0) [
  | none ↦ (true, ((key, value) ∷ s.0, s.1))
  | some old ↦ (false, s)
]

pub put-free :
    (k v : String) (s : Memory) → lookup k s.0 ≡ none → put k v s ≡ (true, ((k, v) ∷ s.0, s.1))
unfolding put
put-free k v s h = rw (h, put) refl

pub put-taken : (k v w : String) (s : Memory) → lookup k s.0 ≡ some w → put k v s ≡ (false, s)
unfolding put
put-taken k v w s h = rw (h, put) refl

pub put-other : (k j v : String) (s : Memory) → j ≢ k → lookup j (put k v s).1.0 ≡ lookup j s.0
unfolding put lookup
put-other k j v s h = ground (arith, eq_iff k j)

pub lookup_here : (k v : String) (rows : List (String × String)) → lookup k ((k, v) ∷ rows) ≡ some v
unfolding lookup
lookup_here k v rows = ground (arith, eq_iff k k)

unfoldable pub memory : Redis
unfolding put remove count_of
memory = record {
  Store = Memory;
  get = λ k s. lookup k s.0;
  getdel = λ k s. (lookup k s.0, (remove k s.0, s.1));
  set_nx = λ k v ttl s. put k v s;
  incr = λ k s. (suc (count_of k s.1), (s.0, k ∷ s.1));
  expire = λ k ttl s. s;
  getdel_value = λ k s. refl;
  getdel_self = λ k s. lookup-remove_self k s.0;
  getdel_other = λ k j s. lookup-remove_other k j s.0;
  set_nx_free = λ k v ttl s h. ap (λ (r : Bool × Memory). r.0) (put-free k v s h);
  set_nx_set = λ k v ttl s h. rw (put-free k v s h) (lookup_here k v s.0);
  set_nx_taken = λ k v w ttl s. put-taken k v w s;
  set_nx_other = λ k j v ttl s. put-other k j v s;
  incr_other = λ k j s h. refl;
  expire_get = λ k j ttl s. refl;
}

unfoldable pub empty_memory : memory.Store
unfolding memory
empty_memory = ([], [])
