-- ===== src/Auth/Counters.antt =====
-- The counters of failures do not touch the nonces.
use Prim.Native.Char.{code}
use trust_gate.Prelude.{
  ℕ, zero, suc, String, concat, ◌≡◌, ◌≢◌, refl, ap, ◌∙◌, arith, Bool-cases, ltb, ◌||◌, inl, inr,
  ◌==◌, ◌=?◌,
}
use trust_gate.Redis.{Redis}
use trust_gate.Http.{Request}
use trust_gate.Auth.{
  AuthEnv, incr_with_ttl, count_failure, fail, server_nonce_key, legacy_nonce_key,
}

-- the code of the letter at an index
abbrev letter : ℕ → String → ℕ
letter n String.[] = 0
letter zero (String.◌∷◌ c s) = code c
letter (suc n) (String.◌∷◌ c s) = letter n s

-- The families of keys differ in one of their first letters.
ip-ne-nonce :
    (x public_key nonce : String) → server_nonce_key public_key nonce ≢ concat "tg:authfail:ip:" x
unfolding server_nonce_key concat
ip-ne-nonce x public_key nonce e =
    let same : ◌≡◌ {A = ℕ} b'n' b'a' = ap (letter 3) e in absurd (omega arith)

pk-ne-nonce :
    (x public_key nonce : String) → server_nonce_key public_key nonce ≢ concat "tg:authfail:pk:" x
unfolding server_nonce_key concat
pk-ne-nonce x public_key nonce e =
    let same : ◌≡◌ {A = ℕ} b'n' b'a' = ap (letter 3) e in absurd (omega arith)

pub issue-ne-nonce :
    (x public_key nonce : String) → server_nonce_key public_key nonce ≢ concat "tg:authnonce:ip:" x
unfolding server_nonce_key concat
issue-ne-nonce x public_key nonce e =
    let same : ◌≡◌ {A = ℕ} b'n' b'a' = ap (letter 3) e in absurd (omega arith)

pub legacy-ne-nonce :
    (public_key nonce other_key other : String)
    → server_nonce_key public_key nonce ≢ legacy_nonce_key other_key other
unfolding server_nonce_key legacy_nonce_key concat
legacy-ne-nonce public_key nonce other_key other e =
    let same : ◌≡◌ {A = ℕ} b'2' b':' = ap (letter 8) e in absurd (omega arith)

module _ (redis : Redis) where
  open redis use {Store, get, incr, expire, incr_other, expire_get}

  pub get-incr_with_ttl :
      (key j : String) (ttl : ℕ) (s : Store)
      → j ≢ key
      → get j (incr_with_ttl redis key ttl s).1 ≡ get j s
  unfolding incr_with_ttl
  get-incr_with_ttl key j ttl s ne = elim (Bool-cases ((incr key s).0 =? 1)) [
    | inl e ↦ rw e (expire_get key j ttl (incr key s).1 ∙ incr_other key j s ne)
    | inr e ↦ rw e (incr_other key j s ne)
  ]

  get-count_failure :
      (prefix name j : String) (s : Store)
      → j ≢ concat prefix name
      → get j (count_failure redis prefix name s).1 ≡ get j s
  unfolding count_failure
  get-count_failure prefix name j s ne = elim (Bool-cases (name == "")) [
    | inl e ↦ rw e refl
    | inr e ↦ rw e (get-incr_with_ttl (concat prefix name) j 60 s ne)
  ]

  -- A failure leaves the nonces as they are.
  pub get-fail :
      (env : AuthEnv) (req : Request) (message public_key nonce : String) (s : Store)
      → get (server_nonce_key public_key nonce) (fail redis env req message s).1
        ≡ get (server_nonce_key public_key nonce) s
  unfolding fail
  get-fail env req message public_key nonce s =
      let j = server_nonce_key public_key nonce in
      let first = count_failure redis "tg:authfail:ip:" req.ip s in
      let second = count_failure redis "tg:authfail:pk:" req.public_key first.1 in
      let same : get j second.1 ≡ get j s =
        get-count_failure "tg:authfail:pk:" req.public_key j first.1
          (pk-ne-nonce req.public_key public_key nonce)
        ∙ get-count_failure "tg:authfail:ip:" req.ip j s (ip-ne-nonce req.ip public_key nonce) in
      elim (Bool-cases env.redis_is_up) [
        | inl up ↦ elim (Bool-cases (ltb 30 first.0 || ltb 10 second.0)) [
          | inl over ↦ rw (up, over) same
          | inr under ↦ rw (up, under) same
        ]
        | inr down ↦ rw down refl
      ]
