-- ===== src/Rpc/Base64.antt =====
-- indexer/src/rpc_manager.rs: `base64_encode`, which takes three bytes at a time.
use tuppira.Base.{ℕ, zero, suc, ◌+◌, ◌*◌, ◌/◌, ◌%◌, Text, codes, List, [], ◌∷◌}
use tuppira.Base.Utf8.{as_bytes}

abbrev pub chars : Text
chars = codes "ABCDEFGHIJKLMNOPQRSTUVWXYZabcdefghijklmnopqrstuvwxyz0123456789+/"

-- CHARS[i], whose index is below 64 wherever it is used
unfoldable pub char_at : Text → ℕ → ℕ
char_at [] i = 0
char_at (c ∷ cs) zero = c
char_at (c ∷ cs) (suc i) = char_at cs i

abbrev pub char_of : ℕ → ℕ
char_of i = char_at chars i

-- (b0 << 16) | (b1 << 8) | b2: the three bytes do not overlap
abbrev pub group : ℕ → ℕ → ℕ → ℕ
group b0 b1 b2 = b0 * 65536 + b1 * 256 + b2

unfoldable pub encode_bytes : List ℕ → Text
encode_bytes [] = []
encode_bytes (b0 ∷ []) =
    let n = group b0 0 0 in char_of (n / 262144 % 64) ∷ char_of (n / 4096 % 64) ∷ b'=' ∷ b'=' ∷ []
encode_bytes (b0 ∷ b1 ∷ []) =
    let n = group b0 b1 0 in
    char_of (n / 262144 % 64) ∷ char_of (n / 4096 % 64) ∷ char_of (n / 64 % 64) ∷ b'=' ∷ []
encode_bytes (b0 ∷ b1 ∷ b2 ∷ rest) =
    let n = group b0 b1 b2 in
    char_of (n / 262144 % 64)
    ∷ char_of (n / 4096 % 64)
    ∷ char_of (n / 64 % 64)
    ∷ char_of (n % 64)
    ∷ encode_bytes rest

unfoldable pub base64_encode : Text → Text
base64_encode input = encode_bytes (as_bytes input)
