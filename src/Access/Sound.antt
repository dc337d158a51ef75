-- ===== src/Access/Sound.antt =====
-- api/src/access.rs: which requests `authenticate` accepts.
use tuppira.Base.{
  ℕ, leb, leb→le, not, ◌&&◌, ◌||◌, ◌≤◌, Text, codes, is_blank, has_char, has_char_iff, byte_len,
  is_empty, List, [], ◌∷◌, ◌++◌, Option, none, some, Bool, true, false, Result, ok, ok_or,
  ok_or_iff, refuse_if, refuse_if_iff, >>=-eq-ok, >>_iff, if◌then◌else◌, All, ◌≡◌, ◌≢◌, ◌↔◌, refl,
  ◌∙◌, sym, ap, arith, ==_refl,
}
use tuppira.Base.Utf8.{as_bytes}
use tuppira.Access.{
  StatusCode, ObservationAccess, HeaderMap, valid_id, keep_if, strip_prefix, bearer,
  configured_token, authenticate,
}
use tuppira.Access.Tokens.{IsTokenOf, configured_token-IsTokenOf}

-- A tenant's name that can stand in the variable with the keys.
pub record ValidId (value : Text) : Type 0 where
  pub not_blank : is_blank value ≡ false
  pub short : byte_len value ≤ 512
  pub clean : All (λ c. c ≢ 0) value
  pub no_comma : All (λ c. c ≢ b',') value
  pub no_equals : All (λ c. c ≢ b'=') value

refuted : (b : Bool) → not b ≡ true → b ≡ false
refuted b h = ground arith

three_true : (a b c : Bool) → a && b && c ≡ true → (a ≡ true) × (b ≡ true) × (c ≡ true)
three_true a b c h = ground arith

three_false : (a b c : Bool) → not (a || b || c) ≡ true → (a ≡ false) × (b ≡ false) × (c ≡ false)
three_false a b c h = ground arith

abbrev proper_chars : Text → Bool
proper_chars value = not (has_char 0 value || has_char b',' value || has_char b'=' value)

valid_id_iff : (value : Text) → (valid_id value ≡ true) ↔ ValidId value
unfolding valid_id
valid_id_iff value = (
  λ h.
      let (printed, small, proper) =
        three_true (not (is_blank value)) (leb (byte_len value) 512) (proper_chars value) h in
      let (zero_free, comma_free, equals_free) =
        three_false (has_char 0 value) (has_char b',' value) (has_char b'=' value) proper in
      record {
        not_blank = refuted _ printed;
        short = leb→le _ _ small;
        clean = (has_char_iff 0 value).0 zero_free;
        no_comma = (has_char_iff b',' value).0 comma_free;
        no_equals = (has_char_iff b'=' value).0 equals_free;
      },
  λ h. ground (
    arith,
    h.not_blank,
    h.short,
    (has_char_iff 0 value).1 h.clean,
    (has_char_iff b',' value).1 h.no_comma,
    (has_char_iff b'=' value).1 h.no_equals,
  ),
)

strip_prefix_iff : (p t r : Text) → (strip_prefix p t ≡ some r) ↔ (t ≡ p ++ r)
unfolding strip_prefix
strip_prefix_iff [] t r = (λ h. cc (h), λ h. cc (h))
strip_prefix_iff (p ∷ ps) [] r = (λ h. cc (h), λ h. cc (h))
strip_prefix_iff (p ∷ ps) (c ∷ t) r = (
  λ h. ground (arith, (strip_prefix_iff ps t r).0),
  λ h. ground (arith, (strip_prefix_iff ps t r).1, ==_refl p),
)

some_of : {s t : Text} → some s ≡ some t → s ≡ t
some_of h = cc (h)

kept :
    (b : Bool) (s t : Text) → (if b then some s else none) ≡ some t → (b ≡ true) × (some s ≡ some t)
kept true s t h = (refl, h)
kept false s t h = cc (h)

keep_if_iff :
    (p : Text → Bool) (o : Option Text) (t : Text)
    → (keep_if p o ≡ some t) ↔ ((o ≡ some t) × (p t ≡ true))
unfolding keep_if
keep_if_iff p none t = (λ h. cc (h), λ h. cc (h.0))
keep_if_iff p (some s) t = (
  λ h. let (this, same) = kept (p s) s t h in (same, ap p (sym (some_of same)) ∙ this),
  λ h. let same = some_of h.0 in rw (ap p same ∙ h.1) (h.0),
)

bearer_iff : (o : Option Text) (t : Text) → (bearer o ≡ some t) ↔ (o ≡ some (codes "Bearer " ++ t))
unfolding bearer
bearer_iff none t = (λ h. cc (h), λ h. cc (h))
bearer_iff (some s) t = (
  λ h. ap some ((strip_prefix_iff (codes "Bearer ") s t).0 h),
  λ h. (strip_prefix_iff (codes "Bearer ") s t).1 (some_of h),
)

token_of_valid :
    (tenant : Text)
    → ValidId tenant
    → (keys token : Text)
    → (configured_token keys tenant ≡ some token) ↔ IsTokenOf keys tenant token
token_of_valid tenant valid =
    configured_token-IsTokenOf tenant ((has_char_iff b'=' tenant).1 valid.no_equals)

module _ {Digest : Type 0} (digest : List ℕ → Digest) (digest_eq : Digest → Digest → Bool) where
  -- The request names the tenant, and its token has the digest of the first one that the keys give
  -- the tenant.
  pub record IsAuthenticated (headers : HeaderMap) (configured : Option Text)
      (access : ObservationAccess) : Type 0 where
    pub named : headers.tenant_header ≡ some access.tenant_id
    pub valid : ValidId access.tenant_id
    pub supplied : Text
    pub bearing : headers.authorization ≡ some (codes "Bearer " ++ supplied)
    pub not_empty : is_empty supplied ≡ false
    pub keys : Text
    pub configured_keys : configured ≡ some keys
    pub expected : Text
    pub of_tenant : IsTokenOf keys access.tenant_id expected
    pub matching : digest_eq (digest (as_bytes supplied)) (digest (as_bytes expected)) ≡ true

  access_of :
      {tenant : Text} {access : ObservationAccess}
      → ◌≡◌ {A = Result StatusCode ObservationAccess}
          (ok (record { tenant_id = tenant }))
          (ok access)
      → tenant ≡ access.tenant_id
  access_of h = cc (h)

  affirmed : (b : Bool) → not b ≡ false → b ≡ true
  affirmed b h = ground arith

  -- A request is authenticated exactly when it names a valid tenant, bears a token that is not empty,
  -- and that token's digest is the one of the token configured for the tenant: that of the first of
  -- the entries between commas of the variable which is the tenant's name, an equals sign and a token
  -- that is not empty; the access that it gets is for the tenant that it named.
  pub authenticate-IsAuthenticated :
      (headers : HeaderMap) (configured : Option Text) (access : ObservationAccess)
      → (authenticate digest digest_eq headers configured ≡ ok access)
        ↔ IsAuthenticated headers configured access
  unfolding authenticate
  authenticate-IsAuthenticated headers configured access = (
    λ h.
        let (tenant, named, h₁) =
          >>=-eq-ok (ok_or (keep_if valid_id headers.tenant_header) StatusCode.unauthorized) _ h in
        let (supplied, bearing, h₂) =
          >>=-eq-ok
            (ok_or (keep_if (λ t. not (is_empty t)) (bearer headers.authorization))
              StatusCode.unauthorized)
            _ h₁ in
        let (keys, configured_keys, h₃) =
          >>=-eq-ok (ok_or configured StatusCode.service_unavailable) _ h₂ in
        let (expected, of_tenant, h₄) =
          >>=-eq-ok (ok_or (configured_token keys tenant) StatusCode.forbidden) _ h₃ in
        let (equal, same) =
          (>>_iff
              (refuse_if (not (digest_eq (digest (as_bytes supplied)) (digest (as_bytes expected))))
                StatusCode.forbidden)
              _).0
            h₄ in
        let at = access_of same in
        let token = ap (configured_token keys) (sym at) ∙ (ok_or_iff _ _).0 of_tenant in
        let (header, is_valid) = (keep_if_iff _ _ tenant).0 ((ok_or_iff _ _).0 named) in
        let is_proper = (valid_id_iff access.tenant_id).0 (ap valid_id (sym at) ∙ is_valid) in
        let (carries, nonempty) = (keep_if_iff _ _ supplied).0 ((ok_or_iff _ _).0 bearing) in
        record {
          named = header ∙ ap some at;
          valid = is_proper;
          supplied = supplied;
          bearing = (bearer_iff headers.authorization supplied).0 carries;
          not_empty = refuted _ nonempty;
          keys = keys;
          configured_keys = (ok_or_iff _ _).0 configured_keys;
          expected = expected;
          of_tenant = (token_of_valid access.tenant_id is_proper keys expected).0 token;
          matching = affirmed _ ((refuse_if_iff _ _).0 equal);
        },
    λ h.
        rw
          (
            (keep_if_iff valid_id headers.tenant_header access.tenant_id).1
                (h.named, (valid_id_iff access.tenant_id).1 h.valid),
            (keep_if_iff (λ t. not (is_empty t)) (bearer headers.authorization) h.supplied).1
                ((bearer_iff headers.authorization h.supplied).1 h.bearing, ap not h.not_empty),
            h.configured_keys,
            (token_of_valid access.tenant_id h.valid h.keys h.expected).1 h.of_tenant,
            h.matching,
          )
          refl,
  )
