-- ===== src/Access.antt =====
-- api/src/access.rs: who may read the observations of a tenant. The headers are those that are
-- readable as text, the configured keys are the environment variable, and SHA-256 is an argument.
pub mod Keys
pub mod Sound
pub mod Pieces
pub mod Tokens
mod Tests
use tuppira.Base.{
  ℕ, ◌==◌, leb, not, ◌&&◌, ◌||◌, Text, codes, is_blank, has_char, byte_len, is_empty, text_eq, List,
  [], ◌∷◌, Option, none, some, Bool, true, false, Result, ok, err, ok_or, refuse_if, ◌>>=◌, ◌>>◌,
  if◌then◌else◌,
}
use tuppira.Base.Utf8.{as_bytes}

pub data StatusCode : Type 0 where
  unauthorized forbidden service_unavailable : StatusCode

pub record ObservationAccess : Type 0 where
  pub tenant_id : Text

pub record HeaderMap : Type 0 where
  pub tenant_header : Option Text
  pub authorization : Option Text

unfoldable pub valid_id : Text → Bool
valid_id value =
    not (is_blank value)
    && leb (byte_len value) 512
    && not (has_char 0 value || has_char b',' value || has_char b'=' value)

-- Option::filter
unfoldable pub keep_if : (Text → Bool) → Option Text → Option Text
keep_if p none = none
keep_if p (some t) = if p t then some t else none

unfoldable pub strip_prefix : Text → Text → Option Text
strip_prefix [] t = some t
strip_prefix (p ∷ ps) [] = none
strip_prefix (p ∷ ps) (c ∷ t) = let rest = strip_prefix ps t in if p == c then rest else none

unfoldable pub bearer : Option Text → Option Text
bearer none = none
bearer (some t) = strip_prefix (codes "Bearer ") t

unfoldable pub add_char : ℕ → List Text → List Text
add_char c [] = (c ∷ []) ∷ []
add_char c (piece ∷ pieces) = (c ∷ piece) ∷ pieces

-- str::split at a character
unfoldable pub split : ℕ → Text → List Text
split at [] = [] ∷ []
split at (c ∷ t) = let rest = split at t in if c == at then [] ∷ rest else add_char c rest

unfoldable pub before : ℕ → Option (Text × Text) → Option (Text × Text)
before c none = none
before c (some (a, b)) = some (c ∷ a, b)

-- str::split_once at a character
unfoldable pub split_once : ℕ → Text → Option (Text × Text)
split_once at [] = none
split_once at (c ∷ t) =
    let rest = split_once at t in if c == at then some ([], t) else before c rest

unfoldable pub token_of : Text → Option (Text × Text) → Option Text → Option Text
token_of tenant none later = later
token_of tenant (some (name, token)) later =
    if text_eq name tenant && not (is_empty token) then some token else later

-- filter_map(split_once).find_map(…)
unfoldable pub find_token : Text → List Text → Option Text
find_token tenant [] = none
find_token tenant (entry ∷ entries) =
    token_of tenant (split_once b'=' entry) (find_token tenant entries)

unfoldable pub configured_token : Text → Text → Option Text
configured_token configured tenant = find_token tenant (split b',' configured)

module _ {Digest : Type 0} (digest : List ℕ → Digest) (digest_eq : Digest → Digest → Bool) where
  unfoldable pub authenticate : HeaderMap → Option Text → Result StatusCode ObservationAccess
  authenticate headers configured = do
    tenant_id ← ok_or (keep_if valid_id headers.tenant_header) StatusCode.unauthorized
    supplied ←
        ok_or (keep_if (λ t. not (is_empty t)) (bearer headers.authorization))
          StatusCode.unauthorized
    keys ← ok_or configured StatusCode.service_unavailable
    expected ← ok_or (configured_token keys tenant_id) StatusCode.forbidden
    refuse_if (not (digest_eq (digest (as_bytes supplied)) (digest (as_bytes expected))))
        StatusCode.forbidden
    ok (record { tenant_id = tenant_id })
