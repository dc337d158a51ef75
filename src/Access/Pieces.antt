-- ===== src/Access/Pieces.antt =====
-- api/src/access.rs: the pieces between the separators, and the text that they make.
use tuppira.Base.{
  ℕ, ◌==◌, Text, has_char, List, [], ◌∷◌, ◌++◌, Option, none, some, true, false, Bool-cases,
  if◌then◌else◌, All, ◌≡◌, inl, inr, refl, ap, subst, ◌∙◌, arith,
}
use tuppira.Access.{add_char, split, before, split_once}
use tuppira.Access.Keys.{split_one, split-append}

-- The pieces with the character between any two.
unfoldable pub join : ℕ → List Text → Text
join k [] = []
join k (piece ∷ []) = piece
join k (piece ∷ next ∷ pieces) = piece ++ k ∷ join k (next ∷ pieces)

join-add_char : (k c : ℕ) (pieces : List Text) → join k (add_char c pieces) ≡ c ∷ join k pieces
unfolding join add_char
join-add_char k c [] = refl
join-add_char k c (piece ∷ []) = refl
join-add_char k c (piece ∷ next ∷ pieces) = refl

add_char-starts :
    (c : ℕ) (pieces : List Text) → (p : Text) × (ps : List Text) × (add_char c pieces ≡ p ∷ ps)
unfolding add_char
add_char-starts c [] = (c ∷ [], [], refl)
add_char-starts c (piece ∷ pieces) = (c ∷ piece, pieces, refl)

split-starts : (k : ℕ) (t : Text) → (p : Text) × (ps : List Text) × (split k t ≡ p ∷ ps)
unfolding split
split-starts k [] = ([], [], refl)
split-starts k (c ∷ t) = elim (Bool-cases (c == k)) [
  | inl at ↦ ([], split k t, rw at refl)
  | inr away ↦ let (p, ps, h) = add_char-starts c (split k t) in (p, ps, rw away h)
]

join-nil :
    (k : ℕ) (pieces : List Text)
    → (p : Text) × (ps : List Text) × (pieces ≡ p ∷ ps)
    → join k ([] ∷ pieces) ≡ k ∷ join k pieces
unfolding join
join-nil k pieces (p, ps, h) = rw h refl

pub join-split : (k : ℕ) (t : Text) → join k (split k t) ≡ t
unfolding split
join-split k [] = unfold join in refl
join-split k (c ∷ t) = elim (Bool-cases (c == k)) [
  | inl at ↦ rw (at, join-nil k (split k t) (split-starts k t), join-split k t) (ground (arith, at))
  | inr away ↦ rw (away, join-add_char k c (split k t), join-split k t) refl
]

add_char-All :
    (k c : ℕ) (pieces : List Text)
    → (c == k) ≡ false
    → All (λ p. has_char k p ≡ false) pieces
    → All (λ p. has_char k p ≡ false) (add_char c pieces)
unfolding add_char has_char
add_char-All k c [] away h = (ground (arith, away), tt)
add_char-All k c (piece ∷ pieces) away h = (ground (arith, away, h.0), h.1)

pub split-All : (k : ℕ) (t : Text) → All (λ p. has_char k p ≡ false) (split k t)
unfolding split
split-All k [] = (unfold has_char in refl, tt)
split-All k (c ∷ t) = elim (Bool-cases (c == k)) [
  | inl at ↦ rw at (unfold has_char in refl, split-All k t)
  | inr away ↦ rw away (add_char-All k c (split k t) away (split-All k t))
]

pub split-join :
    (k : ℕ) (piece : Text) (pieces : List Text)
    → All (λ p. has_char k p ≡ false) (piece ∷ pieces)
    → split k (join k (piece ∷ pieces)) ≡ piece ∷ pieces
unfolding join
split-join k piece [] h = split_one k piece h.0
split-join k piece (next ∷ pieces) h =
    split-append k piece (join k (next ∷ pieces)) h.0
    ∙ ap (λ ps. piece ∷ ps) (split-join k next pieces h.1)

before_iff :
    (c : ℕ) (o : Option (Text × Text)) (a b : Text)
    → before c o ≡ some (a, b)
    → (a' : Text) × (a ≡ c ∷ a') × (o ≡ some (a', b))
unfolding before
before_iff c none a b h = cc (h)
before_iff c (some (x, y)) a b h = (x, cc (h), cc (h))

pub some_pair : {p q : Text × Text} → some p ≡ some q → p ≡ q
some_pair h = cc (h)

at_char : (c k : ℕ) → (c == k) ≡ true → c ≡ k
at_char c k h = ground (arith, h)

-- What is divided at the character has the parts on either side of it.
pub split_once-joined : (k : ℕ) (t a b : Text) → split_once k t ≡ some (a, b) → t ≡ a ++ k ∷ b
unfolding split_once
split_once-joined k [] a b h = cc (h)
split_once-joined k (c ∷ t) a b h = elim (Bool-cases (c == k)) [
  | inl at ↦
      let found : some ([], t) ≡ some (a, b) =
        subst (λ e. (if e then some ([], t) else before c (split_once k t)) ≡ some (a, b)) at h in
      let same : ◌≡◌ {A = Text × Text} ([], t) (a, b) = some_pair found in
      cc (ap (λ p. p.0) same, ap (λ p. p.1) same, at_char c k at)
  | inr away ↦
      let found : before c (split_once k t) ≡ some (a, b) =
        subst (λ e. (if e then some ([], t) else before c (split_once k t)) ≡ some (a, b)) away h in
      let (a', begins, rest) = before_iff c (split_once k t) a b found in
      rw begins (ap (λ x. c ∷ x) (split_once-joined k t a' b rest))
]
