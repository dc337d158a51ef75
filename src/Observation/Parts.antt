-- ===== src/Observation/Parts.antt =====
-- shared/src/observation.rs: what the checks shared by its validations accept, described without
-- their code.
use tuppira.Base.{
  ℕ, ◌≤◌, ◌<◌, Text, String, List, [], ◌∷◌, ◌++◌, Option, none, some, true, ok, >>_iff,
  refuse_if_iff, ltb→le, le→ltb, length, is_blank, is_whitespace, byte_len, text_eq, text_eq_iff,
  is_blank_iff, has_char_iff, contains_iff, All, ◌≡◌, ◌≢◌, ◌↔◌, refl, arith, Bool-cases, inl, inr,
}
use tuppira.Observation.Records.{Digest, zero_digest}
use tuppira.Observation.Validate.{
  validate_version, validate_id, validate_digest, validate_each_ref, validate_refs,
  validate_reasons,
}

-- An identifier has a visible character, no NUL, and at most 512 bytes of UTF-8.
pub record IsId (t : Text) : Type 0 where
  pub visible : ¬ All (λ c. is_whitespace c ≡ true) t
  pub short : byte_len t ≤ 512
  pub no_nul : All (λ c. c ≢ 0) t

abbrev pub Distinct : List Text → Type 0
Distinct [] = Unit
Distinct (x ∷ xs) = All (λ y. x ≢ y) xs × Distinct xs

-- References: at most 128 identifiers, no two alike.
pub record IsRefs (ts : List Text) : Type 0 where
  pub few : length ts ≤ 128
  pub ids : All IsId ts
  pub distinct : Distinct ts

abbrev pub IsDigest : Digest → Type 0
IsDigest d = d ≢ zero_digest

abbrev pub OnSome {ℓ} : {A : Type ℓ} → (A → Type 0) → Option A → Type 0
OnSome P none = Unit
OnSome P (some a) = P a

pub validate_version_iff : (v : ℕ) → (validate_version v ≡ ok tt) ↔ (v ≡ 1)
unfolding validate_version
validate_version_iff v = (λ h. ground arith, λ h. ground arith)

pub validate_id_iff : (t : Text) (field : String) → (validate_id t field ≡ ok tt) ↔ IsId t
unfolding validate_id
validate_id_iff t field = (
  λ h. record {
    visible = λ w. ground (arith, (is_blank_iff t).1 w);
    short = ground arith;
    no_nul = (has_char_iff 0 t).0 (ground arith);
  },
  λ v. elim (Bool-cases (is_blank t)) [
    | inl blank ↦ absurd (v.visible ((is_blank_iff t).0 blank))
    | inr full ↦ ground (arith, full, (has_char_iff 0 t).1 v.no_nul, v.short)
  ],
)

pub validate_digest_iff :
    (d : Digest) (field : String) → (validate_digest d field ≡ ok tt) ↔ IsDigest d
unfolding validate_digest
validate_digest_iff d field = (
  λ h e. ground (arith, (text_eq_iff d zero_digest).1 e),
  λ h. elim (Bool-cases (text_eq d zero_digest)) [
    | inl same ↦ absurd (h ((text_eq_iff d zero_digest).0 same))
    | inr other ↦ rw other
  ],
)

All-snoc {ℓ} :
    {A : Type ℓ} (P : A → Type 0) (xs : List A) (x : A) → All P xs → P x → All P (xs ++ x ∷ [])
All-snoc P [] x hs h = (h, tt)
All-snoc P (y ∷ xs) x hs h = (hs.0, All-snoc P xs x hs.1 h)

All-snoc_last {ℓ} : {A : Type ℓ} (P : A → Type 0) (xs : List A) (x : A) → All P (xs ++ x ∷ []) → P x
All-snoc_last P [] x hs = hs.0
All-snoc_last P (y ∷ xs) x hs = All-snoc_last P xs x hs.1

All-snoc_init {ℓ} :
    {A : Type ℓ} (P : A → Type 0) (xs : List A) (x : A) → All P (xs ++ x ∷ []) → All P xs
All-snoc_init P [] x hs = tt
All-snoc_init P (y ∷ xs) x hs = (hs.0, All-snoc_init P xs x hs.1)

-- No text of `ts` is among those before it.
abbrev Fresh : List Text → List Text → Type 0
Fresh before ts = All (λ t. All (λ s. s ≢ t) before) ts

Fresh-snoc :
    (before : List Text) (t : Text) (ts : List Text)
    → Fresh before ts
    → All (λ y. t ≢ y) ts
    → Fresh (before ++ t ∷ []) ts
Fresh-snoc before t [] f d = tt
Fresh-snoc before t (y ∷ ts) f d = (All-snoc _ before t f.0 d.0, Fresh-snoc before t ts f.1 d.1)

Fresh-init :
    (before : List Text) (t : Text) (ts : List Text)
    → Fresh (before ++ t ∷ []) ts
    → Fresh before ts × All (λ y. t ≢ y) ts
Fresh-init before t [] f = (tt, tt)
Fresh-init before t (y ∷ ts) f =
    let (front, apart) = Fresh-init before t ts f.1 in
    ((All-snoc_init _ before t f.0, front), (All-snoc_last _ before t f.0, apart))

Fresh-nil : (ts : List Text) → Fresh [] ts
Fresh-nil [] = tt
Fresh-nil (t ∷ ts) = (tt, Fresh-nil ts)

pub validate_each_ref_iff :
    (before ts : List Text) (field : String)
    → (validate_each_ref before ts field ≡ ok tt) ↔ (All IsId ts × Distinct ts × Fresh before ts)
unfolding validate_each_ref
validate_each_ref_iff before [] field = (λ h. (tt, tt, tt), λ h. refl)
validate_each_ref_iff before (t ∷ ts) field = (
  λ h.
      let (id, more) = (>>_iff (validate_id t field) _).0 h in
      let (new, rest) = (>>_iff _ (validate_each_ref (before ++ t ∷ []) ts field)).0 more in
      let (ids, distinct, fresh) = (validate_each_ref_iff (before ++ t ∷ []) ts field).0 rest in
      let (front, apart) = Fresh-init before t ts fresh in
      (
        ((validate_id_iff t field).0 id, ids),
        (apart, distinct),
        ((contains_iff before t).0 ((refuse_if_iff _ _).0 new), front),
      ),
  λ v. (>>_iff (validate_id t field) _).1 (
    (validate_id_iff t field).1 (v.0).0,
    (>>_iff _ (validate_each_ref (before ++ t ∷ []) ts field)).1 (
      (refuse_if_iff _ _).1 ((contains_iff before t).1 (v.2).0),
      (validate_each_ref_iff (before ++ t ∷ []) ts field).1
          ((v.0).1, (v.1).1, Fresh-snoc before t ts (v.2).1 (v.1).0),
    ),
  ),
)

pub validate_refs_iff :
    (ts : List Text) (field : String) → (validate_refs ts field ≡ ok tt) ↔ IsRefs ts
unfolding validate_refs
validate_refs_iff ts field = (
  λ h.
      let (few, each) = (>>_iff _ (validate_each_ref [] ts field)).0 h in
      let (ids, distinct, _) = (validate_each_ref_iff [] ts field).0 each in
      record {
        few = ltb→le 128 (length ts) ((refuse_if_iff _ _).0 few);
        ids = ids;
        distinct = distinct;
      },
  λ v. (>>_iff _ (validate_each_ref [] ts field)).1 (
    (refuse_if_iff _ _).1 (le→ltb 128 (length ts) v.few),
    (validate_each_ref_iff [] ts field).1 (v.ids, v.distinct, Fresh-nil ts),
  ),
)

-- An absence is explained by at least one reason.
pub record IsReasons (ts : List Text) : Type 0 where
  pub some_reason : 0 < length ts
  pub refs : IsRefs ts

pub validate_reasons_iff : (ts : List Text) → (validate_reasons ts ≡ ok tt) ↔ IsReasons ts
unfolding validate_reasons
validate_reasons_iff [] = (λ h. cc, λ v. absurd (omega (arith, v.some_reason)))
validate_reasons_iff (t ∷ ts) = (
  λ h. record {
    some_reason = omega arith;
    refs = (validate_refs_iff (t ∷ ts) "missing.reasons").0 h;
  },
  λ v. (validate_refs_iff (t ∷ ts) "missing.reasons").1 v.refs,
)
