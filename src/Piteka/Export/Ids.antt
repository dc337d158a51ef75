-- ===== src/Piteka/Export/Ids.antt =====
-- indexer/src/piteka_feed.rs: the identifiers of an export and the cursor of the feed, read back.
use tuppira.Base.{
  ℕ, ◌<◌, ◌^◌, Text, codes, [], ◌∷◌, ◌++◌, append_assoc, some, ok, length, length-append,
  append-cancel, append-left_injective, All, ◌≡◌, refl, sym, ap, ap₂, ◌↔◌, ◌∙◌, subst, arith,
  text_eq_refl,
}
use tuppira.Base.Words.{length-to_be_bytes, from_be_bytes-to_be_bytes}
use tuppira.Base.Decimal.{decimal, decimal_injective, decimal-IsDigit, IsDigit}
use tuppira.Connector.Sound.{IsName, IsCursor, validate_cursor_iff}
use tuppira.Piteka.Export.{
  SignedPitekaExport, event_id, observation_id, prior_observation_id, encode_cursor, decode_cursor,
}

IsDigit-at : (xs ys : Text) (c : ℕ) → All IsDigit (xs ++ c ∷ ys) → IsDigit c
IsDigit-at [] ys c d = d.0
IsDigit-at (x ∷ xs) ys c d = IsDigit-at xs ys c d.1

tails : {x y : ℕ} {xs ys : Text} → ◌≡◌ {A = Text} (x ∷ xs) (y ∷ ys) → xs ≡ ys
tails h = cc (h)

-- The last colon of a text that ends in digits is found again.
colon-cancel :
    (xs ys d e : Text)
    → All IsDigit d
    → All IsDigit e
    → xs ++ b':' ∷ d ≡ ys ++ b':' ∷ e
    → (xs ≡ ys) × (d ≡ e)
colon-cancel [] [] d e hd he h = (refl, cc (h))
colon-cancel [] (y ∷ ys) d e hd he h =
    let digit = IsDigit-at ys e b':' (subst (λ t. All IsDigit t) (tails h) hd) in
    absurd (omega (arith, digit))
colon-cancel (x ∷ xs) [] d e hd he h =
    let digit = IsDigit-at xs d b':' (subst (λ t. All IsDigit t) (tails (sym h)) he) in
    absurd (omega (arith, digit))
colon-cancel (x ∷ xs) (y ∷ ys) d e hd he h =
    let (same, rest) = colon-cancel xs ys d e hd he (tails h) in (cc (same, h), rest)

append-right_injective : (xs ys zs : Text) → xs ++ zs ≡ ys ++ zs → xs ≡ ys
append-right_injective xs ys zs h =
    (append-cancel xs ys {us = zs} {vs = zs}
      (omega (arith, ap (λ (t : Text). length t) h, length-append xs zs, length-append ys zs)) h).0

-- A text, `:revision:` and a number: both parts can be read back.
revision-cancel :
    (s t : Text) (m n : ℕ)
    → s ++ (codes ":revision:" ++ decimal m) ≡ t ++ (codes ":revision:" ++ decimal n)
    → (s ≡ t) × (m ≡ n)
revision-cancel s t m n h =
    let (front, digits) =
      colon-cancel (s ++ codes ":revision") (t ++ codes ":revision") (decimal m) (decimal n)
        (decimal-IsDigit m) (decimal-IsDigit n)
        (append_assoc s (codes ":revision") (b':' ∷ decimal m)
          ∙ (h ∙ sym (append_assoc t (codes ":revision") (b':' ∷ decimal n)))) in
    (append-right_injective s t (codes ":revision") front, decimal_injective m n digits)

-- The event id of an export determines its export id and its revision.
pub event_id_injective :
    (a b : SignedPitekaExport)
    → event_id a ≡ event_id b
    → (a.export_id ≡ b.export_id) × (a.revision ≡ b.revision)
unfolding event_id
event_id_injective a b h = revision-cancel a.export_id b.export_id a.revision b.revision h

-- The observation to which a correction points is that of the first revision of the export that
-- it supersedes, and no other.
pub prior_observation_id_iff :
    (prior : Text) (e : SignedPitekaExport)
    → (prior_observation_id prior ≡ observation_id e) ↔ ((prior ≡ e.export_id) × (1 ≡ e.revision))
unfolding prior_observation_id observation_id decimal
prior_observation_id_iff prior e = (
  λ h.
      revision-cancel prior e.export_id 1 e.revision
        (append-left_injective (codes "observation:piteka:") h),
  λ v.
      ap₂
        (λ (t : Text) (n : ℕ).
          codes "observation:piteka:" ++ (t ++ (codes ":revision:" ++ decimal n)))
        v.0 v.1,
)

encode_cursor-IsCursor : (source : Text) (n : ℕ) → IsName source → IsCursor (encode_cursor source n)
unfolding encode_cursor
encode_cursor-IsCursor source n name = record {
  source = name;
  version = omega arith;
  bytes = record {
    some_byte = omega (arith, length-to_be_bytes 8 n);
    bounded = omega (arith, length-to_be_bytes 8 n);
  };
}

-- A cursor that the feed wrote for a source with a proper name is read back as the sequence that
-- it was written from, when that fits 64 bits.
pub decode_cursor-encode_cursor :
    (source : Text) (n : ℕ)
    → IsName source
    → n < 2 ^ 64
    → decode_cursor (some (encode_cursor source n)) source ≡ ok n
unfolding decode_cursor encode_cursor
decode_cursor-encode_cursor source n name small = rw (
  (validate_cursor_iff (encode_cursor source n)).1 (encode_cursor-IsCursor source n name),
  text_eq_refl source,
  length-to_be_bytes 8 n,
  from_be_bytes-to_be_bytes 8 n small,
)
