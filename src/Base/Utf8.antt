-- ===== src/Base/Utf8.antt =====
-- `str::as_bytes`: the UTF-8 bytes of a text, and that they determine the text.
use tuppira.Base.Tests.{ltb, if◌then◌else◌}
use tuppira.Base.Lists.{length, length-append}
use tuppira.Base.Texts.{Text, char_len, byte_len}
use Prim.Native.Nat.{ℕ, ◌+◌, ◌/◌, ◌%◌}
use mathlib.Core.Path.{◌≡◌, refl, sym}
use mathlib.Core.Logic.{◌≢◌}
use mathlib.Core.List.{List, [], ◌∷◌, ◌++◌}
use native.Mathlib.Omega.{arith}

unfoldable pub encode_char : ℕ → List ℕ
encode_char c =
    if ltb c 128
    then c ∷ []
    else if ltb c 2048
    then (192 + c / 64) ∷ (128 + c % 64) ∷ []
    else if ltb c 65536
    then (224 + c / 4096) ∷ (128 + c / 64 % 64) ∷ (128 + c % 64) ∷ []
    else (240 + c / 262144) ∷ (128 + c / 4096 % 64) ∷ (128 + c / 64 % 64) ∷ (128 + c % 64) ∷ []

unfoldable pub as_bytes : Text → List ℕ
as_bytes [] = []
as_bytes (c ∷ t) = encode_char c ++ as_bytes t

length-encode_char : (c : ℕ) → length (encode_char c) ≡ char_len c
unfolding encode_char char_len
length-encode_char c = ground arith

pub length-as_bytes : (t : Text) → length (as_bytes t) ≡ byte_len t
unfolding as_bytes byte_len
length-as_bytes [] = refl
length-as_bytes (c ∷ t) =
    omega
      (arith, length-append (encode_char c) (as_bytes t), length-encode_char c, length-as_bytes t)

-- UTF-8 is a prefix code: the first character can be read off what follows it.
encode_char-cancel :
    (c d : ℕ) {us vs : List ℕ} → encode_char c ++ us ≡ encode_char d ++ vs → (c ≡ d) × (us ≡ vs)
unfolding encode_char
encode_char-cancel c d e = ground arith

encode_char-ne-nil : (c : ℕ) (us : List ℕ) → encode_char c ++ us ≢ []
unfolding encode_char
encode_char-ne-nil c us = ground arith

pub as_bytes_injective : (s t : Text) → as_bytes s ≡ as_bytes t → s ≡ t
unfolding as_bytes
as_bytes_injective [] [] e = refl
as_bytes_injective [] (d ∷ t) e = absurd (encode_char-ne-nil d _ (sym e))
as_bytes_injective (c ∷ s) [] e = absurd (encode_char-ne-nil c _ e)
as_bytes_injective (c ∷ s) (d ∷ t) e =
    let (same, rest) = encode_char-cancel c d e in ground (arith, as_bytes_injective s t rest)
