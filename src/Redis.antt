-- ===== src/Redis.antt =====
-- The commands of Redis that src/middlewares/signatureAuth.ts and src/controllers/authController.ts
-- send, as an interface: a store, and what is relied on of each command. Time to live is not part of
-- the store: keys that expire are the business of `get` on a later store.
use trust_gate.Prelude.{ℕ, String, Bool, true, false, ◌≡◌, ◌≢◌, Option, none, some}

pub record Redis : Type 1 where
  pub Store : Type 0
  pub get : String → Store → Option String
  -- GETDEL
  pub getdel : String → Store → Option String × Store
  -- SET key value NX EX ttl; whether it answers OK
  pub set_nx : (key value : String) → (ttl : ℕ) → Store → Bool × Store
  pub incr : String → Store → ℕ × Store
  pub expire : String → ℕ → Store → Store
  pub getdel_value : (k : String) (s : Store) → (getdel k s).0 ≡ get k s
  pub getdel_self : (k : String) (s : Store) → get k (getdel k s).1 ≡ none
  pub getdel_other : (k j : String) (s : Store) → j ≢ k → get j (getdel k s).1 ≡ get j s
  pub set_nx_free :
      (k v : String) (ttl : ℕ) (s : Store) → get k s ≡ none → (set_nx k v ttl s).0 ≡ true
  pub set_nx_set :
      (k v : String) (ttl : ℕ) (s : Store) → get k s ≡ none → get k (set_nx k v ttl s).1 ≡ some v
  pub set_nx_taken :
      (k v w : String) (ttl : ℕ) (s : Store) → get k s ≡ some w → set_nx k v ttl s ≡ (false, s)
  pub set_nx_other :
      (k j v : String) (ttl : ℕ) (s : Store) → j ≢ k → get j (set_nx k v ttl s).1 ≡ get j s
  pub incr_other : (k j : String) (s : Store) → j ≢ k → get j (incr k s).1 ≡ get j s
  pub expire_get : (k j : String) (ttl : ℕ) (s : Store) → get j (expire k ttl s) ≡ get j s
