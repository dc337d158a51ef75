-- ===== src/Access/Keys.antt =====
-- api/src/access.rs: the variable TUPPIRA_OBSERVATION_API_KEYS, written from a list of keys.
use tuppira.Base.{
  ℕ, not, ◌&&◌, Text, text_eq, has_char, is_empty, List, [], ◌∷◌, ◌++◌, Option, none, some, false,
  if◌then◌else◌, All, ◌≡◌, refl, ◌∙◌, ap, arith, ==_refl,
}
use tuppira.Access.{add_char, split, before, split_once, token_of, find_token, configured_token}

-- `tenant=token`
abbrev pub entry_text : Text × Text → Text
entry_text entry = entry.0 ++ b'=' ∷ entry.1

-- The entries with a comma between any two.
unfoldable pub print : List (Text × Text) → Text
print [] = []
print (entry ∷ []) = entry_text entry
print (entry ∷ next ∷ entries) = entry_text entry ++ b',' ∷ print (next ∷ entries)

-- The first token of a tenant that is not empty.
unfoldable pub first_token : List (Text × Text) → Text → Option Text
first_token [] tenant = none
first_token ((name, token) ∷ entries) tenant =
    let rest = first_token entries tenant in
    if text_eq name tenant && not (is_empty token) then some token else rest

-- A comma separates entries, and the first equals sign ends the tenant.
abbrev pub IsEntry : Text × Text → Type 0
IsEntry entry =
    (has_char b',' entry.0 ≡ false)
    × (has_char b'=' entry.0 ≡ false)
    × (has_char b',' entry.1 ≡ false)

has_char-append :
    (k : ℕ) (s t : Text) → has_char k s ≡ false → has_char k t ≡ false → has_char k (s ++ t) ≡ false
unfolding has_char
has_char-append k [] t h j = j
has_char-append k (c ∷ s) t h j = ground (arith, has_char-append k s t)

pub split_one : (k : ℕ) (s : Text) → has_char k s ≡ false → split k s ≡ s ∷ []
unfolding has_char split add_char
split_one k [] h = refl
split_one k (c ∷ s) h = ground (arith, split_one k s)

pub split-append :
    (k : ℕ) (s t : Text) → has_char k s ≡ false → split k (s ++ k ∷ t) ≡ s ∷ split k t
unfolding has_char split add_char
split-append k [] t h = rw (==_refl k) refl
split-append k (c ∷ s) t h = ground (arith, split-append k s t)

pub split_once-append :
    (k : ℕ) (s t : Text) → has_char k s ≡ false → split_once k (s ++ k ∷ t) ≡ some (s, t)
unfolding has_char split_once before
split_once-append k [] t h = rw (==_refl k) refl
split_once-append k (c ∷ s) t h = ground (arith, split_once-append k s t)

entry-has_char : (entry : Text × Text) → IsEntry entry → has_char b',' (entry_text entry) ≡ false
unfolding has_char
entry-has_char entry h = has_char-append b',' entry.0 (b'=' ∷ entry.1) h.0 h.2

find_token-entry :
    (tenant : Text) (entry : Text × Text) (rest : List Text)
    → IsEntry entry
    → find_token tenant (entry_text entry ∷ rest)
      ≡ token_of tenant (some entry) (find_token tenant rest)
unfolding find_token
find_token-entry tenant entry rest h =
    ap (λ k. token_of tenant k (find_token tenant rest))
      (split_once-append b'=' entry.0 entry.1 h.1)

-- Keys that are written out are read back: the token that is looked up for a tenant in the variable
-- is the first one of the list that is the tenant's and not empty.
pub configured_token-print :
    (entries : List (Text × Text)) (tenant : Text)
    → All IsEntry entries
    → configured_token (print entries) tenant ≡ first_token entries tenant
unfolding configured_token print first_token find_token split split_once token_of
configured_token-print [] tenant h = refl
configured_token-print (entry ∷ []) tenant h =
    ap (find_token tenant) (split_one b',' (entry_text entry) (entry-has_char entry h.0))
    ∙ find_token-entry tenant entry [] h.0
configured_token-print (entry ∷ next ∷ entries) tenant h =
    ap (find_token tenant)
      (split-append b',' (entry_text entry) (print (next ∷ entries)) (entry-has_char entry h.0))
    ∙ find_token-entry tenant entry (split b',' (print (next ∷ entries))) h.0
    ∙ ap (token_of tenant (some entry)) (configured_token-print (next ∷ entries) tenant h.1)
