-- ===== src/Access/Tokens.antt =====
-- api/src/access.rs: the token of a tenant, by what is written in the variable with the keys.
use tuppira.Base.{
  ◌&&◌, Text, text_eq, text_eq_iff, text_eq_refl, has_char, has_char_iff, List, [], ◌∷◌, ◌++◌,
  Option, none, some, true, false, Bool-cases, if◌then◌else◌, All, ◌≡◌, ◌≢◌, ◌↔◌, ◌⊎◌, inl, inr,
  refl, sym, ap, subst, ◌∙◌, arith,
}
use tuppira.Access.{split, split_once, token_of, find_token, configured_token}
use tuppira.Access.Keys.{split_once-append}
use tuppira.Access.Pieces.{join, join-split, split-All, split-join, split_once-joined, some_pair}

-- An entry with a token that is not empty is not one of the tenant's.
abbrev pub IsSkipped : Text → Text → Type 0
IsSkipped tenant piece = (token : Text) → piece ≡ tenant ++ b'=' ∷ token → token ≡ []

-- Commas separate the keys' entries, and the first entry `tenant=token` of the tenant with a token
-- that is not empty has this one.
pub record IsTokenOf (keys tenant token : Text) : Type 0 where
  pub earlier : List Text
  pub later : List Text
  pub written : keys ≡ join b',' (earlier ++ (tenant ++ b'=' ∷ token) ∷ later)
  pub separate : All (All (λ c. c ≢ b',')) (earlier ++ (tenant ++ b'=' ∷ token) ∷ later)
  pub not_empty : token ≢ []
  pub first : All (IsSkipped tenant) earlier

some_both :
    {a b c d : Text}
    → ◌≡◌ {A = Option (Text × Text)} (some (a, b)) (some (c, d))
    → (a ≡ c) × (b ≡ d)
some_both h = let same = some_pair h in (ap (λ p. p.0) same, ap (λ p. p.1) same)

module _ (tenant : Text) where
  -- An entry is the tenant's with the token that it looks for, or the search goes on behind it.
  token_of-cases :
      (o : Option (Text × Text)) (later : Option Text) (token : Text)
      → token_of tenant o later ≡ some token
      → ((o ≡ some (tenant, token)) × (token ≢ []))
        ⊎ ((later ≡ some token) × ((t : Text) → o ≡ some (tenant, t) → t ≡ []))
  unfolding token_of
  token_of-cases none later token h = inr (h, λ t absent. cc (absent))
  token_of-cases (some (name, [])) later token h =
      inr (ground (arith, h), λ t same. sym (some_both same).1)
  token_of-cases (some (name, c ∷ value)) later token h = elim (Bool-cases (text_eq name tenant)) [
    | inl same ↦
        let at = (text_eq_iff name tenant).0 same in
        let it : some (c ∷ value) ≡ some token =
          subst (λ b. (if b && true then some (c ∷ value) else later) ≡ some token) same h in
        inl (cc (at, it), λ empty. cc (it, empty))
    | inr apart ↦ inr (
      subst (λ b. (if b && true then some (c ∷ value) else later) ≡ some token) apart h,
      λ t it. absurd (ground (arith, apart, (text_eq_iff name tenant).1 (some_both it).0)),
    )
  ]

  token_of-taken :
      (token : Text) (later : Option Text)
      → token ≢ []
      → token_of tenant (some (tenant, token)) later ≡ some token
  unfolding token_of
  token_of-taken [] later h = absurd (h refl)
  token_of-taken (c ∷ token) later h = rw (text_eq_refl tenant) refl

  token_of-skipped :
      (o : Option (Text × Text)) (later : Option Text)
      → ((t : Text) → o ≡ some (tenant, t) → t ≡ [])
      → token_of tenant o later ≡ later
  unfolding token_of
  token_of-skipped none later h = refl
  token_of-skipped (some (name, [])) later h = ground arith
  token_of-skipped (some (name, c ∷ value)) later h = elim (Bool-cases (text_eq name tenant)) [
    | inl same ↦
        let at = (text_eq_iff name tenant).0 same in
        let empty = h (c ∷ value) (ap (λ n. some (n, c ∷ value)) at) in absurd (cc (empty))
    | inr apart ↦ rw apart refl
  ]

  -- The search ends at an entry of the tenant that none before it replaces.
  record Found (pieces : List Text) (token : Text) : Type 0 where
    earlier : List Text
    later : List Text
    at : pieces ≡ earlier ++ (tenant ++ b'=' ∷ token) ∷ later
    not_empty : token ≢ []
    first : All (IsSkipped tenant) earlier

  module _ (plain : has_char b'=' tenant ≡ false) where
    skipped :
        (piece : Text)
        → ((t : Text) → split_once b'=' piece ≡ some (tenant, t) → t ≡ [])
        → IsSkipped tenant piece
    skipped piece h t written =
        h t (ap (split_once b'=') written ∙ split_once-append b'=' tenant t plain)

    find_token-Found :
        (pieces : List Text) (token : Text)
        → find_token tenant pieces ≡ some token
        → Found pieces token
    unfolding find_token
    find_token-Found [] token h = cc (h)
    find_token-Found (piece ∷ pieces) token h =
        elim (token_of-cases (split_once b'=' piece) (find_token tenant pieces) token h) [
          | inl (here, full) ↦ record {
            earlier = [];
            later = pieces;
            at = ap (λ p. p ∷ pieces) (split_once-joined b'=' piece tenant token here);
            not_empty = full;
            first = tt;
          }
          | inr (behind, none_here) ↦
              let f = find_token-Found pieces token behind in
              record {
                earlier = piece ∷ f.earlier;
                later = f.later;
                at = ap (λ ps. piece ∷ ps) f.at;
                not_empty = f.not_empty;
                first = (skipped piece none_here, f.first);
              }
        ]

    find_token-first :
        (earlier later : List Text) (token : Text)
        → token ≢ []
        → All (IsSkipped tenant) earlier
        → find_token tenant (earlier ++ (tenant ++ b'=' ∷ token) ∷ later) ≡ some token
    unfolding find_token
    find_token-first [] later token full first =
        rw (split_once-append b'=' tenant token plain)
          (token_of-taken token (find_token tenant later) full)
    find_token-first (piece ∷ earlier) later token full first =
        token_of-skipped (split_once b'=' piece) _
          (λ t it. first.0 t (split_once-joined b'=' piece tenant t it))
        ∙ find_token-first earlier later token full first.1

    All-free :
        (pieces : List Text)
        → All (λ p. has_char b',' p ≡ false) pieces
        → All (All (λ c. c ≢ b',')) pieces
    All-free [] h = tt
    All-free (p ∷ ps) h = ((has_char_iff b',' p).0 h.0, All-free ps h.1)

    All-without :
        (pieces : List Text)
        → All (All (λ c. c ≢ b',')) pieces
        → All (λ p. has_char b',' p ≡ false) pieces
    All-without [] h = tt
    All-without (p ∷ ps) h = ((has_char_iff b',' p).1 h.0, All-without ps h.1)

    split_joined :
        (earlier later : List Text) (piece : Text)
        → All (λ p. has_char b',' p ≡ false) (earlier ++ piece ∷ later)
        → split b',' (join b',' (earlier ++ piece ∷ later)) ≡ earlier ++ piece ∷ later
    split_joined [] later piece h = split-join b',' piece later h
    split_joined (p ∷ earlier) later piece h = split-join b',' p (earlier ++ piece ∷ later) h

    -- The token that is looked up for a tenant is the one of its first entry that has a token.
    pub configured_token-IsTokenOf :
        (keys token : Text)
        → (configured_token keys tenant ≡ some token) ↔ IsTokenOf keys tenant token
    unfolding configured_token
    configured_token-IsTokenOf keys token = (
      λ h.
          let f = find_token-Found (split b',' keys) token h in
          record {
            earlier = f.earlier;
            later = f.later;
            written = sym (join-split b',' keys) ∙ ap (join b',') f.at;
            separate =
                All-free _ (subst (All (λ p. has_char b',' p ≡ false)) f.at (split-All b',' keys));
            not_empty = f.not_empty;
            first = f.first;
          },
      λ h.
          ap (λ k. find_token tenant (split b',' k)) h.written
          ∙ ap (find_token tenant) (split_joined h.earlier h.later _ (All-without _ h.separate))
          ∙ find_token-first h.earlier h.later token h.not_empty h.first,
    )
