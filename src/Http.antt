-- ===== src/Http.antt =====
-- The parts of an Express request that the middlewares read.
use trust_gate.Prelude.{
  String, Text, codes, to_upper, List, [], ◌∷◌, ◌++◌, map, ◌=?◌, if◌then◌else◌,
}
use trust_gate.Schema.{RequestBody}

-- A header is "" where it is missing. `raw_body` is the body as it was sent or, where there is none,
-- its JSON text.
pub record Request : Type 0 where
  pub method : String
  pub url : String
  pub ip : String
  pub public_key : String
  pub timestamp : String
  pub nonce : String
  pub signature : String
  pub idempotency_key : String
  pub admin_secret : String
  pub body : RequestBody
  pub raw_body : Text

-- `original.split('?')[0]`
unfoldable pub before_query : Text → Text
before_query [] = []
before_query (c ∷ s) = let rest = before_query s in if c =? b'?' then [] else c ∷ rest

-- the lines of a payload that is hashed or signed
unfoldable pub join_lines : List Text → Text
join_lines [] = []
join_lines (line ∷ []) = line
join_lines (line ∷ next ∷ lines) = line ++ 10 ∷ join_lines (next ∷ lines)

-- `req.method.toUpperCase()` and `getRequestPath(req)`
unfoldable pub upper_method : Request → Text
upper_method req = map to_upper (codes req.method)

unfoldable pub request_path : Request → Text
unfolding before_query
request_path req = before_query (codes req.url)
