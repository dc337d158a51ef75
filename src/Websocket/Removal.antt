-- ===== src/Websocket/Removal.antt =====
-- api/src/websocket.rs: the map of subscriptions by its keys, and the removal of failed indexes.
use tuppira.Base.{
  suc, ℕ, Text, text_eq, text_eq_iff, length, List, [], ◌∷◌, ◌++◌, append_assoc, none, some, Bool,
  Bool-cases, if◌then◌else◌, filter, filter-kept, filter-dropped, ◌≡◌, inl, inr, refl, ap, arith,
}
use tuppira.Base.Maps.{get}
use tuppira.Websocket.Manager.{put, remove, remove_at, remove_each}

module _ {ℓ} {V : Type ℓ} where
  pub get-put :
      (m : List (Text × V)) (k j : Text) (v : V)
      → get (put m k v) j ≡ (if text_eq k j then some v else get m j)
  unfolding get put
  get-put [] k j v = refl
  get-put ((i, w) ∷ m) k j v =
      ground (arith, text_eq_iff k j, text_eq_iff i k, text_eq_iff i j, get-put m k j v)

  pub get-remove :
      (m : List (Text × V)) (k j : Text)
      → get (remove m k) j ≡ (if text_eq k j then none else get m j)
  unfolding get remove
  get-remove [] k j = ground arith
  get-remove ((i, w) ∷ m) k j =
      ground (arith, text_eq_iff k j, text_eq_iff i k, text_eq_iff i j, get-remove m k j)

  -- The indexes of the items that fail a test, the first of which has the index `i`.
  unfoldable pub failed_from : ℕ → (V → Bool) → List V → List ℕ
  failed_from i p [] = []
  failed_from i p (x ∷ xs) = let rest = failed_from (suc i) p xs in if p x then rest else i ∷ rest

  remove_at-append :
      (before : List V) (x : V) (after : List V)
      → remove_at (before ++ x ∷ after) (length before) ≡ some (before ++ after)
  unfolding remove_at
  remove_at-append [] x after = refl
  remove_at-append (y ∷ before) x after = rw (remove_at-append before x after)

  length-end : (before : List V) (x : V) → length (before ++ x ∷ []) ≡ suc (length before)
  length-end [] x = refl
  length-end (y ∷ before) x = ap suc (length-end before x)

  -- Removed from the last to the first, the failed indexes leave what passes the test.
  remove_each-failed_from :
      (p : V → Bool) (before xs : List V)
      → remove_each (failed_from (length before) p xs) (before ++ xs) ≡ some (before ++ filter p xs)
  unfolding remove_each failed_from
  remove_each-failed_from p before [] = refl
  remove_each-failed_from p before (x ∷ xs) =
      let later : remove_each (failed_from (suc (length before)) p xs) (before ++ x ∷ xs)
          ≡ some (before ++ x ∷ filter p xs) =
        rw
          (
            ← length-end before x,
            ← append_assoc before (x ∷ []) xs,
            ← append_assoc before (x ∷ []) (filter p xs),
          )
          (remove_each-failed_from p (before ++ x ∷ []) xs) in
      elim (Bool-cases (p x)) [
        | inl kept ↦ rw (kept, filter-kept p x xs kept) later
        | inr gone ↦
            rw (gone, later, filter-dropped p x xs gone) (remove_at-append before x (filter p xs))
      ]

  pub remove_each-failed :
      (p : V → Bool) (xs : List V) → remove_each (failed_from 0 p xs) xs ≡ some (filter p xs)
  remove_each-failed p xs = remove_each-failed_from p [] xs
