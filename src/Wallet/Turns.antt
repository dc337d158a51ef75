-- ===== src/Wallet/Turns.antt =====
-- indexer/src/wallet_bridge.rs: what is asked about one chain at one level, by the rows of the table.
use tuppira.Base.{
  ℕ, ◌≤◌, ◌<◌, ltb, ◌==◌, not, Text, text_eq, text_eq_iff, List, [], ◌∷◌, ◌++◌, Option, Bool, true,
  false, Bool-cases, filter, map, All, ◌≡◌, ◌≢◌, ◌⊎◌, inl, inr, refl, sym, ap, subst, ◌∙◌, arith,
}
use tuppira.Base.Ordered.{
  IsOrdered, All-sort_by, All-passing, All-kept, IsOrdered-filter, IsOrdered-weaken, sort_by-perm,
  sort_by-IsOrdered, filter-perm,
}
use tuppira.Base.Sorts.{sort_by}
use mathlib.Core.List.{Perm}
use mathlib.Core.List.Perm
use tuppira.Wallet.Addresses.{
  PriorityLevel, AddressRow, priority_of_str, of_row, priority_rank, ordered, select_addresses,
  get_all_active_addresses,
}
use tuppira.Wallet.Bridge.{AddressIndexer, Call, level_eq, of_level}
use tuppira.Wallet.Groups.{of_chain}
use tuppira.Wallet.Calls.{expected_call}
use tuppira.Wallet.Batches.{IsAsked, expected_call-IsAsked}

-- Of two rows of one priority the first was not registered later.
abbrev pub IsEarlier : AddressRow → AddressRow → Type 0
IsEarlier a b = a.priority ≡ b.priority → a.registered_at ≤ b.registered_at

-- What is asked about a chain at a level: the table is the active rows of the level and the chain,
-- in the order of their registration within one priority, those of other chains, those of other levels, and the
-- inactive ones; and the first are asked for.
pub record IsTurn (max : ℕ) (o : Option AddressIndexer) (table : List AddressRow)
    (q : PriorityLevel) (chain : Text) (calls : List Call) : Type 0 where
  pub rows : List AddressRow
  pub other_chains : List AddressRow
  pub other_levels : List AddressRow
  pub inactive : List AddressRow
  pub all : Perm (rows ++ other_chains ++ other_levels ++ inactive) table
  pub are_active : All (λ r. r.is_active ≡ true) rows
  pub at_level : All (λ r. priority_of_str r.priority ≡ q) rows
  pub on_chain : All (λ r. r.chain ≡ chain) rows
  pub off_chain : All (λ r. r.chain ≢ chain) other_chains
  pub off_level : All (λ r. priority_of_str r.priority ≢ q) other_levels
  pub not_active : All (λ r. r.is_active ≡ false) inactive
  pub in_order : IsOrdered IsEarlier rows
  pub asks : IsAsked max o q chain rows calls

filter-map_step :
    {A B : Type 0} (f : A → B) (x : A) (ys : List B) (xs : List A)
    → ys ≡ map f xs
    → (b : Bool)
    → (elim b [ true ↦ f x ∷ ys | false ↦ ys ]) ≡ map f (elim b [ true ↦ x ∷ xs | false ↦ xs ])
filter-map_step f x ys xs h true = ap (λ l. f x ∷ l) h
filter-map_step f x ys xs h false = h

filter-map :
    {A B : Type 0} (p : B → Bool) (f : A → B) (xs : List A)
    → filter p (map f xs) ≡ map f (filter (λ a. p (f a)) xs)
filter-map p f [] = refl
filter-map p f (x ∷ xs) = filter-map_step f x _ _ (filter-map p f xs) (p (f x))

level_eq-true : (p q : PriorityLevel) → level_eq p q ≡ true → p ≡ q
unfolding level_eq
level_eq-true PriorityLevel.high PriorityLevel.high h = refl
level_eq-true PriorityLevel.normal PriorityLevel.normal h = refl
level_eq-true PriorityLevel.low PriorityLevel.low h = refl
level_eq-true PriorityLevel.high PriorityLevel.normal h = cc (h)
level_eq-true PriorityLevel.high PriorityLevel.low h = cc (h)
level_eq-true PriorityLevel.normal PriorityLevel.high h = cc (h)
level_eq-true PriorityLevel.normal PriorityLevel.low h = cc (h)
level_eq-true PriorityLevel.low PriorityLevel.high h = cc (h)
level_eq-true PriorityLevel.low PriorityLevel.normal h = cc (h)

level_eq_same : (p : PriorityLevel) → level_eq p p ≡ true
unfolding level_eq
level_eq_same PriorityLevel.high = refl
level_eq_same PriorityLevel.normal = refl
level_eq_same PriorityLevel.low = refl

not_level : (p q : PriorityLevel) → p ≡ q → not (level_eq p q) ≢ true
not_level p q same h = cc (ap (λ k. not (level_eq p k)) same, level_eq_same p, h)

-- The order of the query, as a relation.
abbrev Goes : AddressRow → AddressRow → Type 0
Goes a b =
    (priority_rank a.priority < priority_rank b.priority)
    ⊎ ((priority_rank a.priority ≡ priority_rank b.priority) × (a.registered_at ≤ b.registered_at))

Goes-trans : (a b c : AddressRow) → Goes a b → Goes b c → Goes a c
Goes-trans a b c (inl h) (inl j) = inl (omega arith)
Goes-trans a b c (inl h) (inr (e, j)) = inl (omega (arith, h, e))
Goes-trans a b c (inr (d, h)) (inl j) = inl (omega (arith, d, j))
Goes-trans a b c (inr (d, h)) (inr (e, j)) = inr (omega (arith, d, e), omega (arith, h, j))

ordered-Goes : (a b : AddressRow) → ordered a b ≡ true → Goes a b
unfolding ordered
ordered-Goes a b h = elim (Bool-cases (ltb (priority_rank a.priority) (priority_rank b.priority))) [
  | inl less ↦ inl (ground (arith, less))
  | inr more ↦ inr (ground (arith, h, more), ground (arith, h, more))
]

not_ordered-Goes : (a b : AddressRow) → ordered a b ≡ false → Goes b a
unfolding ordered
not_ordered-Goes a b h = elim (Bool-cases (priority_rank a.priority == priority_rank b.priority)) [
  | inr apart ↦ inl (ground (arith, h, apart))
  | inl same ↦ inr (ground (arith, same), ground (arith, h, same))
]

Goes-IsEarlier : (a b : AddressRow) → Goes a b → IsEarlier a b
Goes-IsEarlier a b (inl h) same = omega (arith, h, ap priority_rank same)
Goes-IsEarlier a b (inr (e, h)) same = h

-- The rows of a chain at a level, of those that are active, in the order of the query.
turn_rows : List AddressRow → PriorityLevel → Text → List AddressRow
turn_rows table q chain =
    filter (λ r. text_eq r.chain chain)
      (filter (λ r. level_eq (priority_of_str r.priority) q)
        (sort_by ordered (filter (λ r. r.is_active) table)))

turn_rows_lem :
    (table : List AddressRow) (q : PriorityLevel) (chain : Text)
    → of_chain chain (of_level q (get_all_active_addresses table))
      ≡ map of_row (turn_rows table q chain)
unfolding turn_rows of_level get_all_active_addresses select_addresses of_row
turn_rows_lem table q chain =
    let rows = sort_by ordered (filter (λ r. r.is_active) table) in
    ap (filter (λ a. text_eq a.chain chain)) (filter-map (λ a. level_eq a.priority q) of_row rows)
    ∙ filter-map (λ a. text_eq a.chain chain) of_row _

-- What the addresses of the query lead to, in terms of the table.
pub expected_call-IsTurn :
    (max : ℕ) (o : Option AddressIndexer) (table : List AddressRow) (q : PriorityLevel)
    (chain : Text)
    → IsTurn max o table q chain
        (expected_call max o q chain (of_chain chain (of_level q (get_all_active_addresses table))))
unfolding turn_rows
expected_call-IsTurn max o table q chain =
    let on = λ (r : AddressRow). text_eq r.chain chain in
    let at = λ (r : AddressRow). level_eq (priority_of_str r.priority) q in
    let active = filter (λ (r : AddressRow). r.is_active) table in
    let off = filter (λ (r : AddressRow). not r.is_active) table in
    let sorted = sort_by ordered active in
    let level = filter at sorted in
    let others = filter (λ r. not (at r)) sorted in
    record {
      rows = turn_rows table q chain;
      other_chains = filter (λ r. not (on r)) level;
      other_levels = others;
      inactive = off;
      all =
          Perm.trans
            (Perm.append_right off (
              Perm.trans (Perm.append_right others (filter-perm on level))
                (Perm.trans (filter-perm at sorted) (sort_by-perm ordered active))))
            (filter-perm (λ r. r.is_active) table);
      are_active = All-kept _ on level (
          All-kept _ at sorted (
            All-sort_by (λ r. r.is_active ≡ true) ordered active
              (All-passing _ (λ r. r.is_active) table (λ r h. h))));
      at_level = All-kept _ on level (All-passing _ at sorted (λ r h. level_eq-true _ q h));
      on_chain = All-passing _ on level (λ r h. (text_eq_iff r.chain chain).0 h);
      off_chain =
          All-passing _ (λ r. not (on r)) level
            (λ r h same. ground (arith, h, (text_eq_iff r.chain chain).1 same));
      off_level =
          All-passing _ (λ r. not (at r)) sorted
            (λ r h same. not_level (priority_of_str r.priority) q same h);
      not_active =
          All-passing (λ (r : AddressRow). r.is_active ≡ false) (λ r. not r.is_active) table
            (λ r h. ground (arith, h));
      in_order = IsOrdered-filter IsEarlier on level (
          IsOrdered-filter IsEarlier at sorted (
            IsOrdered-weaken Goes IsEarlier Goes-IsEarlier sorted
              (sort_by-IsOrdered ordered Goes ordered-Goes not_ordered-Goes Goes-trans active)));
      asks =
          subst
            (λ k. IsAsked max o q chain (turn_rows table q chain) (expected_call max o q chain k))
            (sym (turn_rows_lem table q chain))
            (expected_call-IsAsked max o q chain (turn_rows table q chain));
    }
