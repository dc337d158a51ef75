-- ===== src/Store/Ancestry.antt =====
-- storage/src/repositories/observations.rs: the chain of corrections behind a stored observation.
use tuppira.Base.{
  ℕ, ◌≤◌, Text, List, [], ◌∷◌, ◌++◌, append-nil, Option, none, some, ok, length, length-append, All,
  ◌≡◌, ◌≢◌, ◌⊎◌, inl, inr, refl, sym, ap, ap₂, ◌∙◌, subst, arith,
}
use tuppira.Observation.Records.{ObservationRecord, SupersessionRecord}
use tuppira.Store.Schema.{Store, row_of}
use tuppira.Store.Rows.{
  Somewhere, Somewhere-append, Somewhere-end, Somewhere-map, Somewhere-All, Somewhere-absurd,
  All-map,
}
use tuppira.Store.Repository.{ensure_text}
use tuppira.Store.Append.{SameEvent, IsLinked}
use tuppira.Store.Reachable.{Reachable}
use tuppira.Store.Lineage.{superseded_by, lineage, checked, all_rows}
use tuppira.Store.Told.{
  Chain, walk-Chain, Chain-extend, link_of, Told, superseded_by-append, superseded_by-other,
  superseded_by-own, superseded_by-fresh, Reachable-Told, untold, told,
}

-- An entry is a stored observation of the same source event as `q`.
abbrev pub IsOf : List ObservationRecord → ObservationRecord → Text → Type 0
IsOf rows q id = Somewhere (λ p. (p.observation_id ≡ id) × SameEvent p q) rows

-- The chain of `id` in what is told: stored observations of one source event, at most all.
pub record Ancestry (rows : List ObservationRecord) (links : List SupersessionRecord)
    (q : ObservationRecord) (id : Text) : Type 0 where
  pub chain : List Text
  pub linked : Chain (superseded_by links) id chain
  pub stored : All (IsOf rows q) chain
  pub short : length chain ≤ length rows

not_new :
    (rows : List ObservationRecord) (r q : ObservationRecord) (id : Text)
    → All (λ p. p.observation_id ≢ r.observation_id) rows
    → IsOf rows q id
    → r.observation_id ≢ id
not_new rows r q id unequal here same = Somewhere-absurd rows (
    Somewhere-All (λ p. (p.observation_id ≡ id) × SameEvent p q)
      (λ p. p.observation_id ≢ r.observation_id) (λ p. ⊥) rows
      (λ p one other. other (one.0 ∙ sym same)) unequal here)

Chain-later :
    (rows : List ObservationRecord) (links : List SupersessionRecord) (r q : ObservationRecord)
    (prior : Option Text) (id : Text) (chain : List Text)
    → All (λ p. p.observation_id ≢ r.observation_id) rows
    → Chain (superseded_by links) id chain
    → All (IsOf rows q) chain
    → Chain (superseded_by (links ++ link_of r prior)) id chain
Chain-later rows links r q prior id chain unequal c stored =
    Chain-extend (superseded_by links) (superseded_by (links ++ link_of r prior)) id chain c (
      All-map chain
        (λ x k.
          superseded_by-append links (link_of r prior) x
          ∙ ap (λ y. superseded_by links x ++ y)
              (superseded_by-other r prior x (not_new rows r q x unequal k))
          ∙ append-nil (superseded_by links x))
        stored)

stored_later :
    (rows : List ObservationRecord) (r q : ObservationRecord) (chain : List Text)
    → All (IsOf rows q) chain
    → All (IsOf (rows ++ row_of r ∷ []) q) chain
stored_later rows r q chain stored =
    All-map chain
      (λ x k. Somewhere-append (λ p. (p.observation_id ≡ x) × SameEvent p q) rows (row_of r ∷ []) k)
      stored

Ancestry-later :
    (rows : List ObservationRecord) (links : List SupersessionRecord) (r q : ObservationRecord)
    (prior : Option Text) (id : Text)
    → All (λ p. p.observation_id ≢ r.observation_id) rows
    → Ancestry rows links q id
    → Ancestry (rows ++ row_of r ∷ []) (links ++ link_of r prior) q id
Ancestry-later rows links r q prior id unequal d = record {
  chain = d.chain;
  linked = Chain-later rows links r q prior id d.chain unequal d.linked d.stored;
  stored = stored_later rows r q d.chain d.stored;
  short = omega (arith, d.short, length-append rows (row_of r ∷ []));
}

-- The chain of the newest observation: itself, and the chain of the one that it corrects.
Ancestry-new :
    (rows : List ObservationRecord) (links : List SupersessionRecord) (r q : ObservationRecord)
    (prior : Option Text)
    → Told rows links
    → All (λ p. p.observation_id ≢ r.observation_id) rows
    → IsLinked rows r prior
    → SameEvent r q
    → ((id : Text) → IsOf rows q id → Ancestry rows links q id)
    → Ancestry (rows ++ row_of r ∷ []) (links ++ link_of r prior) q r.observation_id
unfolding superseded_by row_of
Ancestry-new rows links r q none d unequal linked same older = record {
  chain = r.observation_id ∷ [];
  linked = Chain.first r.observation_id (
      superseded_by-append links [] r.observation_id
      ∙ append-nil (superseded_by links r.observation_id)
      ∙ superseded_by-fresh rows links r.observation_id d unequal);
  stored = (
    Somewhere-end (λ p. (p.observation_id ≡ r.observation_id) × SameEvent p q) rows (row_of r)
        (refl, same),
    tt,
  );
  short = omega (arith, length-append rows (row_of r ∷ []));
}
Ancestry-new rows links r q (some prior) d unequal linked same older =
    let before =
      older prior (Somewhere-map rows (λ p k. (k.0, (k.1.0 ∙ same.0, k.1.1 ∙ same.1))) linked) in
    record {
      chain = r.observation_id ∷ before.chain;
      linked =
          Chain.corrects r.observation_id prior before.chain
            (superseded_by-append links (link_of r (some prior)) r.observation_id
              ∙ ap₂ (λ x y. x ++ y) (superseded_by-fresh rows links r.observation_id d unequal)
                  (superseded_by-own r prior))
            (Chain-later rows links r q (some prior) prior before.chain unequal before.linked
              before.stored);
      stored = (
        Somewhere-end (λ p. (p.observation_id ≡ r.observation_id) × SameEvent p q) rows (row_of r)
            (refl, same),
        stored_later rows r q before.chain before.stored,
      );
      short = omega (arith, before.short, length-append rows (row_of r ∷ []));
    }

Somewhere-split :
    (P : ObservationRecord → Type 0) (xs : List ObservationRecord) (y : ObservationRecord)
    → Somewhere P (xs ++ y ∷ [])
    → Somewhere P xs ⊎ P y
Somewhere-split P [] y (inl p) = inr p
Somewhere-split P [] y (inr s) = absurd s
Somewhere-split P (x ∷ xs) y (inl p) = inl (inl p)
Somewhere-split P (x ∷ xs) y (inr s) = elim (Somewhere-split P xs y s) [
  | inl old ↦ inl (inr old)
  | inr new ↦ inr new
]

Told-Ancestry :
    (rows : List ObservationRecord) (links : List SupersessionRecord) (q : ObservationRecord)
    (id : Text)
    → Told rows links
    → IsOf rows q id
    → Ancestry rows links q id
unfolding row_of
Told-Ancestry _ _ q id untold here = absurd here
Told-Ancestry _ _ q id (told rows links r d unequal linked) here =
    elim (Somewhere-split (λ p. (p.observation_id ≡ id) × SameEvent p q) rows (row_of r) here) [
      | inl old ↦
          Ancestry-later rows links r q r.supersedes id unequal
            (Told-Ancestry rows links q id d old)
      | inr new ↦
          subst (λ k. Ancestry (rows ++ row_of r ∷ []) (links ++ link_of r r.supersedes) q k) new.0
            (Ancestry-new rows links r q r.supersedes d unequal linked new.1
              (λ k old. Told-Ancestry rows links q k d old))
    ]

-- In every store that the repository's writes reach, the lineage of a stored observation `q` whose
-- id is a proper text ends: with fuel for each observation it is the chain from `q` to an
-- observation that corrects nothing, all of them stored and of the source event of `q`.
pub lineage-Ancestry :
    (s : Store) (q : ObservationRecord) (fuel : ℕ)
    → Reachable s
    → ensure_text q.observation_id "observation_id" ≡ ok tt
    → Somewhere (λ p. (p.observation_id ≡ q.observation_id) × SameEvent p q) s.observations
    → length s.observations ≤ fuel
    → (a : Ancestry s.observations s.supersessions q q.observation_id) × (lineage fuel s
          q.observation_id
        ≡ some (ok a.chain))
unfolding lineage checked all_rows
lineage-Ancestry s q fuel reached proper here enough =
    let a =
      Told-Ancestry s.observations s.supersessions q q.observation_id (Reachable-Told s reached)
        here in
    (
      a,
      rw
          (
            proper,
            walk-Chain (superseded_by s.supersessions) q.observation_id a.chain fuel a.linked
                (omega (arith, a.short, enough)),
          )
          refl,
    )
