-- ===== src/Access/Tests.antt =====
-- A request of a tenant with the second of two keys.
use tuppira.Base.{
  ℕ, Text, codes, text_eq, List, [], ◌∷◌, some, ok, ◌≡◌, ◌↔◌, refl, has_char, is_blank, byte_len,
  is_whitespace, char_len,
}
use tuppira.Base.Utf8.{as_bytes, encode_char}
use tuppira.Access.{
  HeaderMap, authenticate, configured_token, valid_id, keep_if, strip_prefix, bearer, split,
  add_char, split_once, before, find_token, token_of,
}
use tuppira.Access.Sound.{IsAuthenticated, authenticate-IsAuthenticated}

abbrev keys : List (Text × Text)
keys = (codes "a", codes "k1") ∷ (codes "b", codes "k2") ∷ []

abbrev headers : HeaderMap
headers = record { tenant_header = some (codes "b"); authorization = some (codes "Bearer k2") }

abbrev bytes_of : List ℕ → List ℕ
bytes_of bytes = bytes

authenticate-IsAuthenticated_example :
    (authenticate bytes_of text_eq headers (some (codes "a=k1,b=k2"))
      ≡ ok (record { tenant_id = codes "b" }))
    ↔ IsAuthenticated bytes_of text_eq headers
        (some (codes "a=k1,b=k2"))
        (record { tenant_id = codes "b" })
authenticate-IsAuthenticated_example =
    authenticate-IsAuthenticated bytes_of text_eq headers (some (codes "a=k1,b=k2"))
      (record { tenant_id = codes "b" })

-- The request is indeed accepted.
accepted :
    authenticate bytes_of text_eq headers (some (codes "a=k1,b=k2"))
    ≡ ok (record { tenant_id = codes "b" })
unfolding authenticate valid_id is_blank byte_len has_char keep_if strip_prefix bearer split
    add_char split_once before find_token token_of configured_token text_eq as_bytes encode_char
    char_len is_whitespace
accepted = refl
