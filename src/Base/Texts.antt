-- ===== src/Base/Texts.antt =====
-- Rust's `String` as the list of its code points, with the `str` methods that the program calls.
use Prim.Native.Nat.{ℕ, ◌+◌}
use Prim.Native.Char.{code}
use Prim.Native.String.{String}
use mathlib.Core.Path.{◌≡◌, refl}
use mathlib.Core.Logic.{◌↔◌, ◌≢◌, ◌⊎◌, inl, inr}
use mathlib.Core.Bool.{Bool, true, false, ◌&&◌, ◌||◌, not}
use mathlib.Core.List.{List, [], ◌∷◌}
use native.Mathlib.Omega.{arith}
use tuppira.Base.Tests.{ltb, leb, ◌==◌, if◌then◌else◌, ==_iff, Bool-cases}
use tuppira.Base.Lists.{all, All}

abbrev pub Text : Type 0
Text = List ℕ

-- The code points of a literal.
abbrev pub codes : String → Text
codes String.[] = []
codes (String.◌∷◌ c s) = code c ∷ codes s

-- `char::is_whitespace`: the code points with the property White_Space.
unfoldable pub is_whitespace : ℕ → Bool
is_whitespace c =
    leb 9 c && leb c 13
    || c == 32
    || c == 0x85
    || c == 0xa0
    || c == 0x1680
    || leb 0x2000 c && leb c 0x200a
    || c == 0x2028
    || c == 0x2029
    || c == 0x202f
    || c == 0x205f
    || c == 0x3000

-- `char::is_control`: the general category Cc.
unfoldable pub is_control : ℕ → Bool
is_control c = ltb c 32 || leb 127 c && leb c 159

-- s.trim().is_empty()
unfoldable pub is_blank : Text → Bool
is_blank t = all is_whitespace t

-- s.contains(c)
unfoldable pub has_char : ℕ → Text → Bool
has_char c [] = false
has_char c (x ∷ xs) = x == c || has_char c xs

-- s.chars().any(char::is_control)
unfoldable pub has_control : Text → Bool
has_control [] = false
has_control (x ∷ xs) = is_control x || has_control xs

-- The bytes that one code point takes in UTF-8.
unfoldable pub char_len : ℕ → ℕ
char_len c = if ltb c 128 then 1 else if ltb c 2048 then 2 else if ltb c 65536 then 3 else 4

-- s.len(), which counts bytes.
unfoldable pub byte_len : Text → ℕ
byte_len [] = 0
byte_len (c ∷ t) = char_len c + byte_len t

unfoldable pub text_eq : Text → Text → Bool
text_eq [] [] = true
text_eq [] (y ∷ ys) = false
text_eq (x ∷ xs) [] = false
text_eq (x ∷ xs) (y ∷ ys) = x == y && text_eq xs ys

pub text_eq_iff : (s t : Text) → (text_eq s t ≡ true) ↔ (s ≡ t)
unfolding text_eq
text_eq_iff [] [] = (λ h. refl, λ h. refl)
text_eq_iff [] (y ∷ ys) = (λ h. cc, λ h. cc)
text_eq_iff (x ∷ xs) [] = (λ h. cc, λ h. cc)
text_eq_iff (x ∷ xs) (y ∷ ys) = (
  λ h. ground (arith, (text_eq_iff xs ys).0),
  λ h. ground (arith, (text_eq_iff xs ys).1, ==_iff x y),
)

pub text_eq_refl : (s : Text) → text_eq s s ≡ true
text_eq_refl s = (text_eq_iff s s).1 refl

-- vec.contains(&value) on texts
unfoldable pub contains : List Text → Text → Bool
contains [] t = false
contains (x ∷ xs) t = text_eq x t || contains xs t

pub is_blank_iff : (t : Text) → (is_blank t ≡ true) ↔ All (λ c. is_whitespace c ≡ true) t
unfolding is_blank
is_blank_iff [] = (λ h. tt, λ h. refl)
is_blank_iff (c ∷ t) = (
  λ h. (ground arith, (is_blank_iff t).0 (ground arith)),
  λ h. ground (arith, h.0, (is_blank_iff t).1 h.1),
)

pub has_char_iff : (k : ℕ) (t : Text) → (has_char k t ≡ false) ↔ All (λ c. c ≢ k) t
unfolding has_char
has_char_iff k [] = (λ h. tt, λ h. refl)
has_char_iff k (c ∷ t) = (
  λ h. (ground arith, (has_char_iff k t).0 (ground arith)),
  λ h. ground (arith, h.0, (has_char_iff k t).1 h.1),
)

pub contains_iff : (ts : List Text) (t : Text) → (contains ts t ≡ false) ↔ All (λ s. s ≢ t) ts
unfolding contains
contains_iff [] t = (λ h. tt, λ h. refl)
contains_iff (s ∷ ts) t = (
  λ h. (λ e. ground (arith, (text_eq_iff s t).1 e), (contains_iff ts t).0 (ground arith)),
  λ h. ground (arith, text_eq_iff s t, h.0, (contains_iff ts t).1 h.1),
)

pub has_control_iff : (t : Text) → (has_control t ≡ false) ↔ All (λ c. is_control c ≡ false) t
unfolding has_control
has_control_iff [] = (λ h. tt, λ h. refl)
has_control_iff (c ∷ t) = (
  λ h. (ground arith, (has_control_iff t).0 (ground arith)),
  λ h. ground (arith, h.0, (has_control_iff t).1 h.1),
)

abbrev pub Occurs : Text → List Text → Type 0
Occurs t [] = ⊥
Occurs t (x ∷ xs) = (x ≡ t) ⊎ Occurs t xs

pub contains-Occurs : (xs : List Text) (t : Text) → (contains xs t ≡ true) ↔ Occurs t xs
unfolding contains
contains-Occurs [] t = (λ h. cc, λ h. absurd h)
contains-Occurs (x ∷ xs) t = (
  λ h. elim (Bool-cases (text_eq x t)) [
    | inl here ↦ inl ((text_eq_iff x t).0 here)
    | inr other ↦ inr ((contains-Occurs xs t).0 (ground arith))
  ],
  λ h. elim h [
    | inl here ↦ ground (arith, (text_eq_iff x t).1 here)
    | inr there ↦ ground (arith, (contains-Occurs xs t).1 there)
  ],
)

-- The test that a loop makes to refuse what is not as expected.
pub not-text_eq_iff : (s t : Text) → (not (text_eq s t) ≡ false) ↔ (s ≡ t)
not-text_eq_iff s t =
    (λ h. (text_eq_iff s t).0 (ground arith), λ h. ground (arith, (text_eq_iff s t).1 h))
