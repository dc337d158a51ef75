-- ===== src/Store/Isolation.antt =====
-- storage/src/repositories/entities.rs: what a tenant reads of an entity does not depend on the rows of
-- other tenants.
use tuppira.Base.{
  Text, List, [], ◌∷◌, some, Bool, Bool-cases, true, false, filter, filter-kept, filter-dropped,
  find, ◌≡◌, inl, inr, refl, sym, ap, ◌∙◌,
}
use tuppira.Store.Entities.{EntityTables, Scoped, in_scope, profile, aggregate, of_tenant, rows_of}

module _ {A : Type 0} where
  scope-tenant :
      (tenant entity : Text) (row : Scoped A)
      → of_tenant tenant row ≡ false
      → in_scope tenant entity row ≡ false
  unfolding of_tenant in_scope
  scope-tenant tenant entity (t, e, row) h = rw h

  find-next :
      (p : Scoped A → Bool) (x : Scoped A) (xs : List (Scoped A))
      → p x ≡ false
      → find p (x ∷ xs) ≡ find p xs
  find-next p x xs h = ap (λ b. elim b [ true ↦ some x | false ↦ find p xs ]) h

  filter-tenant :
      (tenant entity : Text) (rows : List (Scoped A))
      → filter (in_scope tenant entity) (filter (of_tenant tenant) rows)
        ≡ filter (in_scope tenant entity) rows
  filter-tenant tenant entity [] = refl
  filter-tenant tenant entity (x ∷ xs) =
      let ih = filter-tenant tenant entity xs in
      elim (Bool-cases (of_tenant tenant x)) [
        | inl own ↦
            rw (filter-kept (of_tenant tenant) x xs own)
              (ap (λ z. elim (in_scope tenant entity x) [ true ↦ x ∷ z | false ↦ z ]) ih)
        | inr other ↦
            rw
              (
                filter-dropped (of_tenant tenant) x xs other,
                filter-dropped (in_scope tenant entity) x xs (scope-tenant tenant entity x other),
              )
              ih
      ]

  find-tenant :
      (tenant entity : Text) (rows : List (Scoped A))
      → find (in_scope tenant entity) (filter (of_tenant tenant) rows)
        ≡ find (in_scope tenant entity) rows
  find-tenant tenant entity [] = refl
  find-tenant tenant entity (x ∷ xs) =
      let ih = find-tenant tenant entity xs in
      elim (Bool-cases (of_tenant tenant x)) [
        | inl own ↦
            rw (filter-kept (of_tenant tenant) x xs own)
              (ap (λ z. elim (in_scope tenant entity x) [ true ↦ some x | false ↦ z ]) ih)
        | inr other ↦
            rw
              (
                filter-dropped (of_tenant tenant) x xs other,
                find-next (in_scope tenant entity) x xs (scope-tenant tenant entity x other),
              )
              ih
      ]

-- When two sets of tables hold the same rows of a tenant, in their order, the tenant reads the same of
-- each entity, errors included: nothing of another tenant shows, not even that it is there.
pub aggregate-isolated :
    (t u : EntityTables) (tenant entity : Text)
    → rows_of t tenant ≡ rows_of u tenant
    → aggregate t tenant entity ≡ aggregate u tenant entity
unfolding aggregate profile rows_of
aggregate-isolated t u tenant entity same =
    let profiles =
      sym (find-tenant tenant entity t.profiles)
      ∙ (ap (λ k. find (in_scope tenant entity) k.profiles) same
          ∙ find-tenant tenant entity u.profiles) in
    let references =
      sym (filter-tenant tenant entity t.references)
      ∙ (ap (λ k. filter (in_scope tenant entity) k.references) same
          ∙ filter-tenant tenant entity u.references) in
    let relationships =
      sym (filter-tenant tenant entity t.relationships)
      ∙ (ap (λ k. filter (in_scope tenant entity) k.relationships) same
          ∙ filter-tenant tenant entity u.relationships) in
    rw (profiles, references, relationships)
