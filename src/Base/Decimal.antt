-- ===== src/Base/Decimal.antt =====
-- `{n}` in a format string: the decimal digits of an unsigned integer.
use tuppira.Base.Tests.{ltb, if◌then◌else◌, Bool-cases, ltb→lt}
use mathlib.Core.Logic.{inl, inr}
use tuppira.Base.Lists.{All}
use tuppira.Base.Texts.{Text, codes}
use Prim.Native.Nat.{ℕ, zero, suc, ◌+◌, ◌-◌, ◌*◌, ◌/◌, ◌%◌, ◌≤◌, ◌<◌}
use mathlib.Core.Path.{◌≡◌, refl}
use mathlib.Core.List.{[], ◌∷◌, ◌++◌}
use native.Mathlib.Omega.{arith}

-- At most `fuel` digits, the most significant first.
digits : ℕ → ℕ → Text
digits zero n = []
digits (suc fuel) n =
    let front = digits fuel (n / 10) in
    if ltb n 10 then (b'0' + n) ∷ [] else front ++ (b'0' + n % 10) ∷ []

-- A number has no more digits than its value plus one, so the fuel is enough.
unfoldable pub decimal : ℕ → Text
unfolding digits
decimal n = digits (n + 1) n

read_from : ℕ → Text → ℕ
read_from acc [] = acc
read_from acc (c ∷ t) = read_from (acc * 10 + (c - b'0')) t

read_from-append :
    (acc : ℕ) (t : Text) (c : ℕ) → read_from acc (t ++ c ∷ []) ≡ read_from acc t * 10 + (c - b'0')
unfolding read_from
read_from-append acc [] c = refl
read_from-append acc (d ∷ t) c = read_from-append (acc * 10 + (d - b'0')) t c

read-digits : (fuel n : ℕ) → n < fuel → read_from 0 (digits fuel n) ≡ n
unfolding digits read_from
read-digits zero n h = absurd (omega arith)
read-digits (suc fuel) n h =
    ground
      (arith, read_from-append 0 (digits fuel (n / 10)) (b'0' + n % 10), read-digits fuel (n / 10))

-- Two numbers that print alike are one.
pub decimal_injective : (m n : ℕ) → decimal m ≡ decimal n → m ≡ n
unfolding decimal
decimal_injective m n e =
    ground (arith, read-digits (m + 1) m (omega arith), read-digits (n + 1) n (omega arith))

abbrev pub IsDigit : ℕ → Type 0
IsDigit c = (b'0' ≤ c) × (c ≤ b'9')

All-append : (s t : Text) → All IsDigit s → All IsDigit t → All IsDigit (s ++ t)
All-append [] t a b = b
All-append (c ∷ s) t a b = (a.0, All-append s t a.1 b)

digits-IsDigit : (fuel n : ℕ) → All IsDigit (digits fuel n)
unfolding digits
digits-IsDigit zero n = tt
digits-IsDigit (suc fuel) n = elim (Bool-cases (ltb n 10)) [
  | inl low ↦ rw low ((omega arith, omega (arith, ltb→lt n 10 low)), tt)
  | inr high ↦ rw high (
      All-append (digits fuel (n / 10)) ((b'0' + n % 10) ∷ []) (digits-IsDigit fuel (n / 10))
        ((omega arith, omega arith), tt))
]

pub decimal-IsDigit : (n : ℕ) → All IsDigit (decimal n)
unfolding decimal
decimal-IsDigit n = digits-IsDigit (n + 1) n

decimal_max : decimal 4294967295 ≡ codes "4294967295"
unfolding decimal
decimal_max = refl
