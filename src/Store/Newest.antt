-- ===== src/Store/Newest.antt =====
-- storage/src/repositories/observations.rs: the query of the newest observations that a tenant can
-- see, by what it selects of the table.
use tuppira.Base.{
  zero, suc, ℕ, ◌≤◌, Text, List, [], ◌∷◌, ◌++◌, length, true, not, map, filter, All, ◌≡◌, ◌⊎◌, inl,
  inr, refl, sym, ap, subst, ◌∙◌, arith,
}
use tuppira.Base.Sorts.{sort_by}
use tuppira.Base.Ordered.{IsOrdered, All-sort_by, All-passing, sort_by-perm, filter-perm}
use mathlib.Core.List.{Perm}
use mathlib.Core.List.Perm
use tuppira.Observation.Records.{ObservationRecord, public, tenant}
use tuppira.Store.Schema.{Store}
use tuppira.Store.Repository.{owned_by_other}
use tuppira.Store.Listing.{pos, take, limit_to, newer, newest_ids}
use tuppira.Store.Reads.{visible_to, other_owner}
use tuppira.Store.Order.{IsNewer, newest-IsOrdered}

-- The record is public or the tenant's own.
abbrev pub IsShown : Text → ObservationRecord → Type 0
IsShown tenant_id r = (r.tenant_visibility ≡ public) ⊎ (r.tenant_visibility ≡ tenant tenant_id)

-- The ids are those of the newest observations that the tenant may see, the newest first: the table
-- is what was selected, the rest and what is hidden from the tenant; the selected rows and the rest
-- are in the order of their age; and there is a rest only behind the full number.
pub record IsNewestOf (s : Store) (tenant_id : Text) (n : ℕ) (ids : List Text) : Type 0 where
  pub selected : List ObservationRecord
  pub rest : List ObservationRecord
  pub hidden : List ObservationRecord
  pub ids_of : ids ≡ map (λ (r : ObservationRecord). r.observation_id) selected
  pub table : Perm (selected ++ rest ++ hidden) s.observations
  pub shown : All (IsShown tenant_id) (selected ++ rest)
  pub unseen : All (λ r. ¬ IsShown tenant_id r) hidden
  pub in_order : IsOrdered IsNewer (selected ++ rest)
  pub few : length selected ≤ n
  pub full : (length selected ≡ n) ⊎ (rest ≡ [])

drop : {A : Type 0} → ℕ → List A → List A
drop zero xs = xs
drop (suc n) [] = []
drop (suc n) (x ∷ xs) = drop n xs

take-drop : {A : Type 0} (n : ℕ) (xs : List A) → take n xs ++ drop n xs ≡ xs
unfolding take drop
take-drop zero xs = refl
take-drop (suc n) [] = refl
take-drop (suc n) (x ∷ xs) = ap (λ l. x ∷ l) (take-drop n xs)

length-take : {A : Type 0} (n : ℕ) (xs : List A) → length (take n xs) ≤ n
unfolding take
length-take zero xs = omega arith
length-take (suc n) [] = omega arith
length-take (suc n) (x ∷ xs) = omega (arith, length-take n xs)

take-full : {A : Type 0} (n : ℕ) (xs : List A) → (length (take n xs) ≡ n) ⊎ (drop n xs ≡ [])
unfolding take drop
take-full zero xs = inl refl
take-full (suc n) [] = inr refl
take-full (suc n) (x ∷ xs) = elim (take-full n xs) [
  | inl full ↦ inl (ap suc full)
  | inr none_left ↦ inr none_left
]

may_see :
    (r : ObservationRecord) (tenant_id : Text)
    → not (owned_by_other r.tenant_visibility tenant_id) ≡ true
    → IsShown tenant_id r
may_see r tenant_id h = visible_to r.tenant_visibility tenant_id (ground arith)

owner_of : {s t : Text} → tenant s ≡ tenant t → s ≡ t
owner_of h = cc (h)

may_not_see :
    (r : ObservationRecord) (tenant_id : Text)
    → not (not (owned_by_other r.tenant_visibility tenant_id)) ≡ true
    → ¬ IsShown tenant_id r
may_not_see r tenant_id h =
    let (owner, owned, apart) = other_owner r.tenant_visibility tenant_id (ground arith) in
    λ shown. elim shown [ inl all ↦ cc (all, owned) | inr own ↦ apart (owner_of (sym owned ∙ own)) ]

-- What the query selects.
pub newest_ids-IsNewestOf :
    (s : Store) (tenant_id : Text) (n : ℕ)
    → IsNewestOf s tenant_id n (newest_ids s tenant_id (pos n))
unfolding newest_ids limit_to
newest_ids-IsNewestOf s tenant_id n =
    let sees = λ (r : ObservationRecord). not (owned_by_other r.tenant_visibility tenant_id) in
    let visible = filter sees s.observations in
    let hidden = filter (λ r. not (sees r)) s.observations in
    let rows = sort_by newer visible in
    let whole = sym (take-drop n rows) in
    record {
      selected = take n rows;
      rest = drop n rows;
      hidden = hidden;
      ids_of = refl;
      table =
          subst (λ l. Perm (l ++ hidden) s.observations) whole
            (Perm.trans (Perm.append_right hidden (sort_by-perm newer visible))
              (filter-perm sees s.observations));
      shown = subst (All (IsShown tenant_id)) whole (
          All-sort_by (IsShown tenant_id) newer visible
            (All-passing (IsShown tenant_id) sees s.observations (λ r. may_see r tenant_id)));
      unseen =
          All-passing (λ r. ¬ IsShown tenant_id r) (λ r. not (sees r)) s.observations
            (λ r. may_not_see r tenant_id);
      in_order = subst (IsOrdered IsNewer) whole (newest-IsOrdered visible);
      few = length-take n rows;
      full = take-full n rows;
    }
