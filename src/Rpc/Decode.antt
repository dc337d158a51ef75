-- ===== src/Rpc/Decode.antt =====
-- indexer/src/rpc_manager.rs: a reader of base64 that does not look at the encoder, for `base64_encode`.
use tuppira.Base.{
  ℕ, zero, suc, ◌+◌, ◌*◌, ◌/◌, ◌%◌, ◌<◌, Text, List, [], ◌∷◌, Bool, true, false, ◌&&◌, ◌==◌, ltb,
  leb, not, if◌then◌else◌, All, length, byte_len, ◌++◌, ◌≡◌, refl, ap, ap₂, arith, and-eq-true_iff,
  Bool-cases, if_cases, inl, inr, subst, ltb→lt, ◌-◌,
}
use tuppira.Base.Utf8.{as_bytes, length-as_bytes, encode_char}
use tuppira.Rpc.Base64.{char_at, char_of, group, encode_bytes, base64_encode}

-- A to Z, a to z, 0 to 9, plus and slash stand for 0 to 63.
unfoldable pub value_of : ℕ → ℕ
value_of c =
    if leb b'a' c
    then c - 71
    else if leb b'A' c
    then c - 65
    else if leb b'0' c
    then c + 4
    else if c == b'+'
    then 62
    else 63

-- Each group of four has three bytes, less one for each sign of padding.
unfoldable pub read_group : ℕ → ℕ → ℕ → ℕ → List ℕ → List ℕ
read_group c0 c1 c2 c3 rest =
    if c2 == b'='
    then (value_of c0 * 4 + value_of c1 / 16) ∷ []
    else if c3 == b'='
    then (value_of c0 * 4 + value_of c1 / 16) ∷ (value_of c1 % 16 * 16 + value_of c2 / 4) ∷ []
    else (value_of c0 * 4 + value_of c1 / 16)
      ∷ (value_of c1 % 16 * 16 + value_of c2 / 4)
      ∷ (value_of c2 % 4 * 64 + value_of c3)
      ∷ rest

unfoldable pub base64_decode : Text → List ℕ
base64_decode [] = []
base64_decode (c0 ∷ []) = []
base64_decode (c0 ∷ c1 ∷ []) = []
base64_decode (c0 ∷ c1 ∷ c2 ∷ []) = []
base64_decode (c0 ∷ c1 ∷ c2 ∷ c3 ∷ rest) = read_group c0 c1 c2 c3 (base64_decode rest)

abbrev is_right : ℕ → Bool
is_right i = (value_of (char_of i) == i) && not (char_of i == b'=')

all_below : ℕ → (ℕ → Bool) → Bool
all_below zero p = true
all_below (suc n) p = p n && all_below n p

all_below_lem : (n : ℕ) (p : ℕ → Bool) → all_below n p ≡ true → (i : ℕ) → i < n → p i ≡ true
unfolding all_below
all_below_lem zero p h i below = absurd (omega arith)
all_below_lem (suc n) p h i below =
    let (top, rest) = (and-eq-true_iff (p n) (all_below n p)).0 h in
    elim (Bool-cases (ltb i n)) [
      | inl lower ↦ all_below_lem n p rest i (ltb→lt i n lower)
      | inr same ↦ subst (λ k. p k ≡ true) (ground arith) top
    ]

table : all_below 64 is_right ≡ true
unfolding all_below value_of char_at
table = refl

pub value_of-char_of : (i : ℕ) → i < 64 → value_of (char_of i) ≡ i
value_of-char_of i h = ground (arith, all_below_lem 64 is_right table i h)

pub char_of_padding : (i : ℕ) → i < 64 → (char_of i == b'=') ≡ false
char_of_padding i h = ground (arith, all_below_lem 64 is_right table i h)

abbrev IsByte : ℕ → Type 0
IsByte b = b < 256

digit : (i : ℕ) → value_of (char_of (i % 64)) ≡ i % 64
digit i = value_of-char_of (i % 64) (omega arith)

padding : (i : ℕ) → (char_of (i % 64) == b'=') ≡ false
padding i = char_of_padding (i % 64) (omega arith)

-- The bits of the three bytes, cut into four digits and put together again.
first_byte :
    (a b c : ℕ)
    → IsByte a
    → IsByte b
    → IsByte c
    → group a b c / 262144 % 64 * 4 + group a b c / 4096 % 64 / 16 ≡ a
first_byte a b c ha hb hc = omega arith

second_byte :
    (a b c : ℕ)
    → IsByte a
    → IsByte b
    → IsByte c
    → group a b c / 4096 % 64 % 16 * 16 + group a b c / 64 % 64 / 4 ≡ b
second_byte a b c ha hb hc = omega arith

third_byte :
    (a b c : ℕ)
    → IsByte a
    → IsByte b
    → IsByte c
    → group a b c / 64 % 64 % 4 * 64 + group a b c % 64 ≡ c
third_byte a b c ha hb hc = omega arith

-- What was encoded is read back byte by byte.
pub base64_decode-encode_bytes :
    (bytes : List ℕ) → All IsByte bytes → base64_decode (encode_bytes bytes) ≡ bytes
unfolding base64_decode encode_bytes read_group
base64_decode-encode_bytes [] h = refl
base64_decode-encode_bytes (a ∷ []) h =
    rw (digit (group a 0 0 / 262144), digit (group a 0 0 / 4096))
      (ap (λ x. x ∷ []) (first_byte a 0 0 h.0 (omega arith) (omega arith)))
base64_decode-encode_bytes (a ∷ b ∷ []) h =
    rw
      (
        padding (group a b 0 / 64),
        digit (group a b 0 / 262144),
        digit (group a b 0 / 4096),
        digit (group a b 0 / 64),
      )
      (ap₂ (λ x y. x ∷ y ∷ []) (first_byte a b 0 h.0 h.1.0 (omega arith))
        (second_byte a b 0 h.0 h.1.0 (omega arith)))
base64_decode-encode_bytes (a ∷ b ∷ c ∷ rest) h =
    rw
      (
        padding (group a b c / 64),
        padding (group a b c),
        digit (group a b c / 262144),
        digit (group a b c / 4096),
        digit (group a b c / 64),
        digit (group a b c),
        base64_decode-encode_bytes rest h.1.1.1,
        first_byte a b c h.0 h.1.0 h.1.1.0,
        second_byte a b c h.0 h.1.0 h.1.1.0,
        third_byte a b c h.0 h.1.0 h.1.1.0,
      )
      refl

ltb→lt_bound : (c : ℕ) → ltb c 128 ≡ true → IsByte c
ltb→lt_bound c small = ground arith

encode_char-IsByte : (c : ℕ) → c < 1114112 → All IsByte (encode_char c)
unfolding encode_char
encode_char-IsByte c h =
    if_cases (All IsByte) (ltb c 128) (λ small. (ltb→lt_bound c small, tt))
      (λ _.
        if_cases (All IsByte) (ltb c 2048) (λ small. (ground arith, (omega arith, tt)))
          (λ _.
            if_cases (All IsByte) (ltb c 65536)
              (λ small. (ground arith, (omega arith, (omega arith, tt))))
              (λ _. (omega arith, (omega arith, (omega arith, (omega arith, tt)))))))

All-append : (xs ys : List ℕ) → All IsByte xs → All IsByte ys → All IsByte (xs ++ ys)
All-append [] ys h k = k
All-append (x ∷ xs) ys h k = (h.0, All-append xs ys h.1 k)

as_bytes-IsByte : (t : Text) → All (λ c. c < 1114112) t → All IsByte (as_bytes t)
unfolding as_bytes
as_bytes-IsByte [] h = tt
as_bytes-IsByte (c ∷ t) h =
    All-append (encode_char c) (as_bytes t) (encode_char-IsByte c h.0) (as_bytes-IsByte t h.1)

length-encode_bytes : (bytes : List ℕ) → length (encode_bytes bytes) ≡ (length bytes + 2) / 3 * 4
unfolding encode_bytes
length-encode_bytes [] = omega arith
length-encode_bytes (a ∷ []) = omega arith
length-encode_bytes (a ∷ b ∷ []) = omega arith
length-encode_bytes (a ∷ b ∷ c ∷ rest) = omega (arith, length-encode_bytes rest)

-- Every text of characters is read back from its encoding as its UTF-8 bytes, and the encoding has
-- four characters for each three bytes, rounded up.
pub base64_decode-base64_encode :
    (t : Text)
    → All (λ c. c < 1114112) t
    → (base64_decode (base64_encode t) ≡ as_bytes t)
      × (length (base64_encode t) ≡ (byte_len t + 2) / 3 * 4)
unfolding base64_encode
base64_decode-base64_encode t h = (
  base64_decode-encode_bytes (as_bytes t) (as_bytes-IsByte t h),
  omega (arith, length-encode_bytes (as_bytes t), length-as_bytes t),
)
