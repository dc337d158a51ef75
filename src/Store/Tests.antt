-- ===== src/Store/Tests.antt =====
-- Runs of the repository of storage/src/repositories/observations.rs.
use tuppira.Base.{
  true, false, inl, arith, codes, Text, List, [], ◌∷◌, some, ok, err, ◌≡◌, ◌≢◌, ◌⊎◌, refl, is_blank,
  is_whitespace, has_char, text_eq,
}
use tuppira.Observation.Records.{ObservationRecord, SyncCursorRecord}
use tuppira.Store.Schema.{
  not_found, Store, database, any_row, check_lineage, insert_observation_row, lookup,
}
use tuppira.Store.Repository.{
  ensure_text, append_observation, text_le, insert_sorted, refs_of, get_observation,
}
use tuppira.Store.Append.{Appended, append_observation-Appended}
use tuppira.Store.Reachable.{IsSound, Reachable-IsSound}
use tuppira.Store.Lineage.{lineage, is_visible, visible_lineage}
use tuppira.Store.VisibleLineage.{IsVisibleLineage, visible_lineage-IsVisibleLineage}
use tuppira.Store.Listed.{IsListed, list_visible_observations-IsListed}
use tuppira.Store.Ancestry.{Ancestry, lineage-Ancestry}
use tuppira.Store.Order.{IsSortOf}
use tuppira.Store.Reads.{get_observation-append_observation}
use tuppira.Store.Fixtures.{observation, sync, with_run, with_observation, appends, reached, stored}

changed_event_needs_lineage :
    insert_observation_row with_observation (record observation { observation_id = codes "obs:2" })
    ≡ err (database "changed source events require supersession lineage")
unfolding insert_observation_row check_lineage any_row text_eq
changed_event_needs_lineage = refl

reads_back :
    get_observation with_observation (codes "obs:1")
    ≡ ok (record observation { subject_refs = codes "git" ∷ codes "repo" ∷ [] })
unfolding get_observation lookup refs_of insert_sorted text_le text_eq
reads_back = refl

named : ensure_text (codes "acme") "tenant_id" ≡ ok tt
unfolding ensure_text is_blank is_whitespace has_char
named = refl

append_observation-Appended_example : Appended with_run observation sync with_observation
append_observation-Appended_example =
    append_observation-Appended with_run observation sync with_observation appends

list_visible_observations-IsListed_example : IsListed with_observation (codes "acme") 1
list_visible_observations-IsListed_example =
    list_visible_observations-IsListed with_observation (codes "acme") 1 stored named

Reachable-IsSound_example : IsSound with_observation
Reachable-IsSound_example = Reachable-IsSound with_observation stored

get_observation-append_observation_example :
    ((subjects : List Text) × (refs : List Text) × IsSortOf subjects
        (codes "repo" ∷ codes "git" ∷ [])
      × IsSortOf refs (codes "sig:1" ∷ [])
      × (get_observation with_observation (codes "obs:1")
          ≡ ok (record observation { subject_refs = subjects; authenticity_material_refs = refs })))
    × ((d : SyncCursorRecord) (u : Store)
        → append_observation with_observation observation d ≢ ok u)
get_observation-append_observation_example =
    get_observation-append_observation with_run observation sync with_observation reached appends

abbrev returned : ObservationRecord
returned = record observation { subject_refs = codes "git" ∷ codes "repo" ∷ [] }

proper_id : ensure_text (codes "obs:1") "observation_id" ≡ ok tt
unfolding ensure_text is_blank is_whitespace has_char
proper_id = refl

lineage-Ancestry_example :
    (a : Ancestry with_observation.observations with_observation.supersessions observation
      (codes "obs:1"))
    × (lineage 1 with_observation (codes "obs:1") ≡ some (ok a.chain))
lineage-Ancestry_example =
    lineage-Ancestry with_observation observation 1 stored proper_id (inl (refl, (refl, refl)))
      (omega arith)

visible_lineage-IsVisibleLineage_example :
    (a : Ancestry with_observation.observations with_observation.supersessions observation
      (codes "obs:1"))
    × (lineage 1 with_observation (codes "obs:1") ≡ some (ok a.chain))
    × (((is_visible with_observation (codes "acme") (codes "obs:1") ≡ true)
          × IsVisibleLineage with_observation 1 (codes "obs:1") (codes "acme") a.chain)
        ⊎ ((is_visible with_observation (codes "acme") (codes "obs:1") ≡ false)
            × (visible_lineage 1 with_observation (codes "obs:1") (codes "acme")
                ≡ some (err (not_found "observation" (codes "obs:1"))))))
visible_lineage-IsVisibleLineage_example =
    visible_lineage-IsVisibleLineage with_observation observation (codes "acme") 1 stored proper_id
      named (inl (refl, (refl, refl))) (omega arith)
