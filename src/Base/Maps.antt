-- ===== src/Base/Maps.antt =====
-- `HashMap<String, V>` as an association list in which an insertion shadows what was there, and
-- `BTreeMap<u64, V>` as a list in the order of its keys.
use tuppira.Base.Tests.{ltb, leb, ◌==◌, if◌then◌else◌}
use tuppira.Base.Texts.{Text, text_eq}
use Prim.Native.Nat.{ℕ, ◌≤◌, ◌<◌}
use mathlib.Core.Path.{◌≡◌, refl}
use mathlib.Core.Option.{Option, none, some}
use mathlib.Core.List.{List, [], ◌∷◌, ◌++◌}
use native.Mathlib.Omega.{arith}

module _ {ℓ} {V : Type ℓ} where
  unfoldable pub get : List (Text × V) → Text → Option V
  get [] k = none
  get ((j, v) ∷ m) k = if text_eq j k then some v else get m k

  unfoldable pub insert : List (Text × V) → Text → V → List (Text × V)
  insert m k v = (k, v) ∷ m

  pub get-insert :
      (m : List (Text × V)) (k j : Text) (v : V)
      → get (insert m k v) j ≡ (if text_eq k j then some v else get m j)
  unfolding get insert
  get-insert m k j v = refl

  -- map.get(&n)
  unfoldable pub get_at : List (ℕ × V) → ℕ → Option V
  get_at [] n = none
  get_at ((i, v) ∷ m) n = if i == n then some v else get_at m n

  -- map.insert(n, v): in key order, replacing the value of an old key
  unfoldable pub insert_at : List (ℕ × V) → ℕ → V → List (ℕ × V)
  insert_at [] n v = (n, v) ∷ []
  insert_at ((i, w) ∷ m) n v =
      let rest = insert_at m n v in
      if ltb n i then (n, v) ∷ (i, w) ∷ m else if n == i then (n, v) ∷ m else (i, w) ∷ rest

  -- map.range(n..).map(|(_, v)| v)
  unfoldable pub values_from : List (ℕ × V) → ℕ → List V
  values_from [] n = []
  values_from ((i, v) ∷ m) n = let rest = values_from m n in if leb n i then v ∷ rest else rest

  pub get_at-insert_at :
      (m : List (ℕ × V)) (n i : ℕ) (v : V)
      → get_at (insert_at m n v) i ≡ (if n == i then some v else get_at m i)
  unfolding get_at insert_at
  get_at-insert_at [] n i v = refl
  get_at-insert_at ((j, w) ∷ m) n i v = ground (arith, get_at-insert_at m n i v)

  -- Every key lies below `n`.
  abbrev pub KeysBelow : ℕ → List (ℕ × V) → Type 0
  KeysBelow n [] = Unit
  KeysBelow n ((i, v) ∷ m) = (i < n) × KeysBelow n m

  pub KeysBelow-mono : (m : List (ℕ × V)) (n k : ℕ) → n ≤ k → KeysBelow n m → KeysBelow k m
  KeysBelow-mono [] n k h b = tt
  KeysBelow-mono ((i, v) ∷ m) n k h b = (omega arith, KeysBelow-mono m n k h b.1)

  -- A key above all others goes to the end.
  pub insert_at-KeysBelow :
      (m : List (ℕ × V)) (n : ℕ) (v : V) → KeysBelow n m → insert_at m n v ≡ m ++ (n, v) ∷ []
  unfolding insert_at
  insert_at-KeysBelow [] n v b = refl
  insert_at-KeysBelow ((i, w) ∷ m) n v b = ground (arith, insert_at-KeysBelow m n v b.1)

  pub KeysBelow-append :
      (m : List (ℕ × V)) (n i : ℕ) (v : V) → KeysBelow n m → i < n → KeysBelow n (m ++ (i, v) ∷ [])
  KeysBelow-append [] n i v b h = (h, tt)
  KeysBelow-append ((j, w) ∷ m) n i v b h = (b.0, KeysBelow-append m n i v b.1 h)
