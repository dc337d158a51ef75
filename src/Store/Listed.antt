-- ===== src/Store/Listed.antt =====
-- storage/src/repositories/observations.rs: what a tenant is shown by a query of many observations.
use tuppira.Base.{
  Result, suc, ℕ, ◌≤◌, Text, text_eq, text_eq_iff, List, [], ◌∷◌, length, some, none, Option,
  Bool-cases, ok, >>=-eq-ok, >>_iff, refuse_if, refuse_if_iff, ok_or, map, All, ◌≡◌, inl, inr, refl,
  sym, ap, ◌∙◌, subst, arith, if◌then◌else◌,
}
use tuppira.Observation.Records.{ObservationRecord}
use tuppira.Store.Schema.{Store, StoreError, lookup, not_found}
use tuppira.Store.Repository.{ensure_text, get_observation, owned_by_other, get_visible_observation}
use tuppira.Store.Lineage.{read_each}
use tuppira.Store.Listing.{pos, newest_ids, list_visible_observations}
use tuppira.Store.Reads.{visible_to}
use tuppira.Store.Reachable.{Reachable, Reachable-IsSound}
use tuppira.Store.Newest.{IsShown, IsNewestOf, newest_ids-IsNewestOf}
use tuppira.Store.Listable.{newest_ids-IsReadable, read_each-ok}

abbrev key : ObservationRecord → Text
key r = r.observation_id

ok_of : {E A : Type 0} {a b : A} → ◌≡◌ {A = Result E A} (ok a) (ok b) → a ≡ b
ok_of h = cc (h)

ok_or-some : {A : Type 0} (o : Option A) (e : StoreError) {a : A} → ok_or o e ≡ ok a → o ≡ some a
ok_or-some none e h = cc (h)
ok_or-some (some x) e h = ap some (ok_of h)

lookup-key :
    (rows : List ObservationRecord) (id : Text) (r : ObservationRecord)
    → lookup key rows id ≡ some r
    → r.observation_id ≡ id
unfolding lookup
lookup-key [] id r h = cc (h)
lookup-key (x ∷ xs) id r h = elim (Bool-cases (text_eq x.observation_id id)) [
  | inl same ↦
      let found : some x ≡ some r =
        subst (λ b. (if b then some x else lookup key xs id) ≡ some r) same h in
      let it : x ≡ r = cc (found) in ap key (sym it) ∙ (text_eq_iff x.observation_id id).0 same
  | inr apart ↦
      lookup-key xs id r (subst (λ b. (if b then some x else lookup key xs id) ≡ some r) apart h)
]

get_visible_observation-IsShown :
    (s : Store) (id tenant_id : Text) (r : ObservationRecord)
    → get_visible_observation s id tenant_id ≡ ok r
    → (r.observation_id ≡ id) × IsShown tenant_id r × (get_observation s r.observation_id ≡ ok r)
unfolding get_visible_observation get_observation
get_visible_observation-IsShown s id tenant_id r h =
    let (_, h₁) = (>>_iff (ensure_text tenant_id "tenant_id") _).0 h in
    let (found, got, h₂) = >>=-eq-ok (get_observation s id) _ h₁ in
    let (shown, h₃) =
      (>>_iff (refuse_if (owned_by_other found.tenant_visibility tenant_id) _) _).0 h₂ in
    let (row, at, h₄) =
      >>=-eq-ok (ok_or (lookup key s.observations id) (not_found "observation" id)) _ got in
    let e₁ =
      refuse_if_iff (owned_by_other found.tenant_visibility tenant_id)
        (not_found "observation" id) in
    let it : found ≡ r = cc (h₃) in
    let back : row.observation_id ≡ found.observation_id = cc (ap key (ok_of h₄)) in
    let same = lookup-key s.observations id row (ok_or-some _ _ at) in
    (
      ap key (sym it) ∙ (sym back ∙ same),
      subst (IsShown tenant_id) it (visible_to found.tenant_visibility tenant_id (e₁.0 shown)),
      ap (get_observation s) (ap key (sym it) ∙ (sym back ∙ same)) ∙ (got ∙ ap ok it),
    )

pub read_each-IsShown :
    (s : Store) (tenant_id : Text) (ids : List Text) (rs : List ObservationRecord)
    → read_each s tenant_id ids ≡ ok rs
    → (map key rs ≡ ids)
      × All (IsShown tenant_id) rs
      × All (λ r. get_observation s r.observation_id ≡ ok r) rs
unfolding read_each
read_each-IsShown s tenant_id [] rs h =
    let it = ok_of h in
    (
      ap (map key) (sym it),
      subst (All (IsShown tenant_id)) it tt,
      subst (All (λ r. get_observation s r.observation_id ≡ ok r)) it tt,
    )
read_each-IsShown s tenant_id (id ∷ ids) rs h =
    let (r, read, h₁) = >>=-eq-ok (get_visible_observation s id tenant_id) _ h in
    let (rest, others, h₂) = >>=-eq-ok (read_each s tenant_id ids) _ h₁ in
    let (same, shown, stored) = get_visible_observation-IsShown s id tenant_id r read in
    let (keys, all, all_stored) = read_each-IsShown s tenant_id ids rest others in
    let it = ok_of h₂ in
    (
      ap (map key) (sym it) ∙ rw (same, keys) refl,
      subst (All (IsShown tenant_id)) it (shown, all),
      subst (All (λ r. get_observation s r.observation_id ≡ ok r)) it (stored, all_stored),
    )

length-map : {A B : Type 0} (f : A → B) (xs : List A) → length (map f xs) ≡ length xs
length-map f [] = refl
length-map f (x ∷ xs) = ap suc (length-map f xs)

-- What a tenant is shown: the newest of the observations that it may see, the newest first and at
-- most as many as asked for, each as the store has it.
pub record IsListed (s : Store) (tenant_id : Text) (n : ℕ) : Type 0 where
  pub rows : List ObservationRecord
  pub answer : list_visible_observations s tenant_id (pos n) ≡ ok rows
  pub newest : IsNewestOf s tenant_id n (map key rows)
  pub shown : All (IsShown tenant_id) rows
  pub stored : All (λ r. get_observation s r.observation_id ≡ ok r) rows
  pub short : length rows ≤ n

-- In every store that the repository's writes reach, the query of the newest observations for a
-- tenant with a name succeeds. It lists the newest of those that are public or of the tenant, by
-- their time and at one time by their id, the newest first; it leaves one out only when it has as
-- many as the limit, which it never passes, and one that is left out is not newer than one that is
-- listed. Each record is the one that the store has under its id.
pub list_visible_observations-IsListed :
    (s : Store) (tenant_id : Text) (n : ℕ)
    → Reachable s
    → ensure_text tenant_id "tenant_id" ≡ ok tt
    → IsListed s tenant_id n
unfolding list_visible_observations
list_visible_observations-IsListed s tenant_id n reached named =
    let ids = newest_ids s tenant_id (pos n) in
    let (history, _, _, _) = Reachable-IsSound s reached in
    let (rs, read) =
      read_each-ok s tenant_id ids (newest_ids-IsReadable s tenant_id (pos n) history named) in
    let (keys, shown, stored) = read_each-IsShown s tenant_id ids rs read in
    let newest = newest_ids-IsNewestOf s tenant_id n in
    record {
      rows = rs;
      answer = rw (named, read);
      newest = subst (IsNewestOf s tenant_id n) (sym keys) newest;
      shown = shown;
      stored = stored;
      short = omega (
        arith,
        length-map key rs,
        ap length keys,
        ap length newest.ids_of,
        length-map key newest.selected,
        newest.few,
      );
    }
