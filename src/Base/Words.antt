-- ===== src/Base/Words.antt =====
-- `to_be_bytes` and `from_be_bytes` at a width of `w` bytes.
use tuppira.Base.Lists.{length, length-append}
use Prim.Native.Nat.{ℕ, zero, suc, ◌+◌, ◌*◌, ◌/◌, ◌%◌, ◌^◌, ◌<◌, ◌-◌, min}
use mathlib.Core.Path.{◌≡◌, refl}
use mathlib.Core.List.{List, [], ◌∷◌, ◌++◌}
use native.Mathlib.Omega.{arith}
use native.Mathlib.Nat.{pow-suc}

-- u64::MAX
abbrev pub u64_max : ℕ
u64_max = 2 ^ 64 - 1

-- u64::saturating_add
unfoldable pub saturating_add : ℕ → ℕ → ℕ
saturating_add a b = min (a + b) u64_max

pub saturating_add_one : (n : ℕ) → n < u64_max → saturating_add n 1 ≡ suc n
unfolding saturating_add
saturating_add_one n h = omega arith

-- The most significant byte comes first.
unfoldable pub to_be_bytes : ℕ → ℕ → List ℕ
to_be_bytes zero n = []
to_be_bytes (suc w) n = to_be_bytes w (n / 256) ++ (n % 256) ∷ []

read_be : ℕ → List ℕ → ℕ
read_be acc [] = acc
read_be acc (b ∷ bs) = read_be (acc * 256 + b) bs

unfoldable pub from_be_bytes : List ℕ → ℕ
unfolding read_be
from_be_bytes bs = read_be 0 bs

pub length-to_be_bytes : (w n : ℕ) → length (to_be_bytes w n) ≡ w
unfolding to_be_bytes
length-to_be_bytes zero n = refl
length-to_be_bytes (suc w) n = omega (
  arith,
  length-append (to_be_bytes w (n / 256)) ((n % 256) ∷ []),
  length-to_be_bytes w (n / 256),
)

read_be-append :
    (acc : ℕ) (bs : List ℕ) (b : ℕ) → read_be acc (bs ++ b ∷ []) ≡ read_be acc bs * 256 + b
unfolding read_be
read_be-append acc [] b = refl
read_be-append acc (c ∷ bs) b = read_be-append (acc * 256 + c) bs b

-- A number that fits the width is read back from its bytes.
pub from_be_bytes-to_be_bytes : (w n : ℕ) → n < 256 ^ w → from_be_bytes (to_be_bytes w n) ≡ n
unfolding to_be_bytes from_be_bytes
from_be_bytes-to_be_bytes zero n h = omega arith
from_be_bytes-to_be_bytes (suc w) n h = omega (
  arith,
  read_be-append 0 (to_be_bytes w (n / 256)) (n % 256),
  from_be_bytes-to_be_bytes w (n / 256) (omega (arith, pow-suc 256 w)),
)

pub to_be_bytes_injective :
    (w m n : ℕ) → m < 256 ^ w → n < 256 ^ w → to_be_bytes w m ≡ to_be_bytes w n → m ≡ n
to_be_bytes_injective w m n hm hn e =
    cc (from_be_bytes-to_be_bytes w m hm, from_be_bytes-to_be_bytes w n hn, e)
