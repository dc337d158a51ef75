-- ===== src/Websocket/Entries.antt =====
-- api/src/websocket.rs: an entry of the map of subscriptions has at least one subscriber, and each of
-- them once.
use tuppira.Base.{
  ℕ, ◌+◌, ◌<◌, Text, text_eq, text_eq_iff, List, [], ◌∷◌, ◌++◌, Option, none, some, Bool,
  Bool-cases, false, if◌then◌else◌, filter, filter_cases, All, ◌≡◌, ◌≢◌, inl, inr, refl, subst,
  arith,
}
use tuppira.Base.Maps.{get}
use tuppira.Websocket.Manager.{Subscriptions, keep, drop_from, drop_failed, remove_each, entry}
use tuppira.Websocket.Removal.{get-put, get-remove, failed_from, remove_each-failed}
use tuppira.Websocket.Sending.{mem, IsDistinct}

-- What the map has for a key once its subscribers are these.
abbrev pub entry_of : List ℕ → Option (List ℕ)
entry_of [] = none
entry_of (tx ∷ txs) = some (tx ∷ txs)

abbrev pub IsEntry : ℕ → Option (List ℕ) → Type 0
IsEntry n none = Unit {0}
IsEntry n (some txs) = (txs ≢ []) × IsDistinct txs × All (λ tx. tx < n) txs

pub keep_lem :
    (subs : Subscriptions) (address : Text) (txs : List ℕ) (a : Text)
    → get (keep subs address txs) a ≡ (if text_eq address a then entry_of txs else get subs a)
unfolding keep
keep_lem subs address [] a = get-remove subs address a
keep_lem subs address (tx ∷ txs) a = get-put subs address a (tx ∷ txs)

module _ (p : ℕ → Bool) where
  mem-filter : (n : ℕ) (xs : List ℕ) → mem n xs ≡ false → mem n (filter p xs) ≡ false
  mem-filter n [] h = refl
  mem-filter n (x ∷ xs) h =
      let rest = mem-filter n xs (ground arith) in
      filter_cases (λ z. mem n z ≡ false) p x xs (λ k. ground arith) rest

  IsDistinct-filter : (xs : List ℕ) → IsDistinct xs → IsDistinct (filter p xs)
  IsDistinct-filter [] d = tt
  IsDistinct-filter (x ∷ xs) d =
      let rest = IsDistinct-filter xs d.1 in
      filter_cases IsDistinct p x xs (λ k. (mem-filter x xs d.0, rest)) rest

  below-filter : (n : ℕ) (xs : List ℕ) → All (λ tx. tx < n) xs → All (λ tx. tx < n) (filter p xs)
  below-filter n [] b = tt
  below-filter n (x ∷ xs) b =
      let rest = below-filter n xs b.1 in
      filter_cases (All (λ tx. tx < n)) p x xs (λ k. (b.0, rest)) rest

  entry_of-IsEntry :
      (n : ℕ) (xs : List ℕ) → IsDistinct xs → All (λ tx. tx < n) xs → IsEntry n (entry_of xs)
  entry_of-IsEntry n [] d b = tt
  entry_of-IsEntry n (x ∷ xs) d b = (λ e. cc (e), d, b)

  -- An entry that loses subscribers is one, or goes.
  pub filter-IsEntry :
      (n : ℕ) (xs : List ℕ) → IsEntry n (some xs) → IsEntry n (entry_of (filter p xs))
  filter-IsEntry n xs (filled, d, b) =
      entry_of-IsEntry n (filter p xs) (IsDistinct-filter xs d) (below-filter n xs b)

  entry_of-filled : (xs : List ℕ) → xs ≢ [] → entry_of xs ≡ some xs
  entry_of-filled [] h = absurd (h refl)
  entry_of-filled (x ∷ xs) h = refl

  -- The failed subscribers of an address are dropped, and nothing else.
  pub drop_failed_lem :
      (subs : Subscriptions) (address : Text) (xs : List ℕ)
      → get subs address ≡ some xs
      → xs ≢ []
      → (after : Subscriptions) × (drop_failed subs address (failed_from 0 p xs) ≡ some after)
        × ((a : Text)
            → get after a ≡ (if text_eq address a then entry_of (filter p xs) else get subs a))
  unfolding drop_failed drop_from remove_each
  drop_failed_lem subs address xs there filled = go (failed_from 0 p xs) (remove_each-failed p xs)
    where
      go :
          (failed : List ℕ)
          → remove_each failed xs ≡ some (filter p xs)
          → (after : Subscriptions) × (drop_failed subs address failed ≡ some after)
            × ((a : Text)
                → get after a ≡ (if text_eq address a then entry_of (filter p xs) else get subs a))
      go [] removed =
          let same : xs ≡ filter p xs = cc (removed) in
          let left : entry_of (filter p xs) ≡ some xs =
            subst (λ z. entry_of z ≡ some xs) same (entry_of-filled xs filled) in
          (
            subs,
            refl,
            λ a. elim (Bool-cases (text_eq address a)) [
              | inl here ↦
                  rw (here, left)
                    (subst (λ b. get subs b ≡ some xs) ((text_eq_iff address a).0 here) there)
              | inr other ↦ rw other
            ],
          )
      go (i ∷ failed) removed = (
        keep subs address (filter p xs),
        rw (there, removed),
        λ a. keep_lem subs address (filter p xs) a,
      )

pub IsEntry-mono : (n : ℕ) (o : Option (List ℕ)) → IsEntry n o → IsEntry (n + 1) o
IsEntry-mono n none h = tt
IsEntry-mono n (some xs) (filled, d, b) = (filled, d, more xs b)
  where
    more : (xs : List ℕ) → All (λ tx. tx < n) xs → All (λ tx. tx < n + 1) xs
    more [] b = tt
    more (x ∷ xs) b = (omega arith, more xs b.1)

-- A sender with a new number joins an entry.
pub join-IsEntry :
    (n : ℕ) (o : Option (List ℕ)) → IsEntry n o → IsEntry (n + 1) (some (entry o ++ n ∷ []))
unfolding entry
join-IsEntry n none h = (λ e. cc (e), (refl, tt), (omega arith, tt))
join-IsEntry n (some xs) (filled, d, b) = (nonempty xs, distinct xs d b, below xs b)
  where
    nonempty : (xs : List ℕ) → xs ++ n ∷ [] ≢ []
    nonempty [] e = cc (e)
    nonempty (x ∷ xs) e = cc (e)

    apart : (x : ℕ) (xs : List ℕ) → mem x xs ≡ false → x < n → mem x (xs ++ n ∷ []) ≡ false
    apart x [] m l = ground arith
    apart x (y ∷ ys) m l = let rest = apart x ys (ground arith) l in ground arith

    distinct : (xs : List ℕ) → IsDistinct xs → All (λ tx. tx < n) xs → IsDistinct (xs ++ n ∷ [])
    distinct [] d b = (refl, tt)
    distinct (x ∷ xs) d b = (apart x xs d.0 b.0, distinct xs d.1 b.1)

    below : (xs : List ℕ) → All (λ tx. tx < n) xs → All (λ tx. tx < n + 1) (xs ++ n ∷ [])
    below [] b = (omega arith, tt)
    below (x ∷ xs) b = (omega arith, below xs b.1)
