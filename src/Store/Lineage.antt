-- ===== src/Store/Lineage.antt =====
-- storage/src/repositories/observations.rs: the recursive queries `lineage` and `visible_lineage`. A
-- recursive query takes its rows from a queue; it is modelled on fuel.
use tuppira.Base.{
  zero, suc, ℕ, Text, List, [], ◌∷◌, ◌++◌, Option, none, some, Bool, false, ok, err, ◌>>=◌, filter,
  map, not, text_eq,
}
use tuppira.Observation.Records.{ObservationRecord, SupersessionRecord}
use tuppira.Store.Schema.{Store, StoreResult, lookup, not_found}
use tuppira.Store.Repository.{ensure_text, owned_by_other, get_visible_observation}

abbrev pub after : Text → Option (List Text) → Option (List Text)
after id none = none
after id (some rest) = some (id ∷ rest)

-- The rows of a recursive query that goes on with `next` from those in the queue.
unfoldable pub walk : ℕ → (Text → List Text) → List Text → Option (List Text)
walk fuel next [] = some []
walk zero next (id ∷ queue) = none
walk (suc fuel) next (id ∷ queue) = after id (walk fuel next (queue ++ next id))

-- SELECT superseded_observation_id … WHERE superseding_observation_id = id
unfoldable pub superseded_by : List SupersessionRecord → Text → List Text
superseded_by rows id =
    map (λ r. r.superseded_observation_id)
      (filter (λ r. text_eq r.superseding_observation_id id) rows)

-- The check of the argument stands before the query.
unfoldable pub checked :
    {A : Type 0} → StoreResult (Unit {0}) → Option (StoreResult A) → Option (StoreResult A)
checked (err problem) answer = some (err problem)
checked (ok done) answer = answer

unfoldable pub all_rows : Option (List Text) → Option (StoreResult (List Text))
all_rows none = none
all_rows (some ids) = some (ok ids)

unfoldable pub lineage : ℕ → Store → Text → Option (StoreResult (List Text))
lineage fuel s id =
    checked (ensure_text id "observation_id")
      (all_rows (walk fuel (superseded_by s.supersessions) (id ∷ [])))

-- visibility_scope = 'public' OR tenant_id = ?, for a row that is there
unfoldable pub visible_row : Text → Option ObservationRecord → Bool
visible_row tenant_id none = false
visible_row tenant_id (some r) = not (owned_by_other r.tenant_visibility tenant_id)

unfoldable pub is_visible : Store → Text → Text → Bool
is_visible s tenant_id id = visible_row tenant_id (lookup (λ r. r.observation_id) s.observations id)

-- Each step drops what the tenant may not see.
unfoldable pub visible_ids : ℕ → Store → Text → Text → Option (List Text)
visible_ids fuel s id tenant_id =
    walk fuel (λ x. filter (is_visible s tenant_id) (superseded_by s.supersessions x))
      (filter (is_visible s tenant_id) (id ∷ []))

unfoldable pub read_each : Store → Text → List Text → StoreResult (List ObservationRecord)
read_each s tenant_id [] = ok []
read_each s tenant_id (id ∷ ids) = do
  r ← get_visible_observation s id tenant_id
  rest ← read_each s tenant_id ids
  ok (r ∷ rest)

unfoldable pub read_rows :
    Store → Text → Text → Option (List Text) → Option (StoreResult (List ObservationRecord))
read_rows s id tenant_id none = none
read_rows s id tenant_id (some []) = some (err (not_found "observation" id))
read_rows s id tenant_id (some (x ∷ ids)) = some (read_each s tenant_id (x ∷ ids))

unfoldable pub visible_lineage :
    ℕ → Store → Text → Text → Option (StoreResult (List ObservationRecord))
visible_lineage fuel s id tenant_id = checked (ensure_text id "observation_id") (
    checked (ensure_text tenant_id "tenant_id")
      (read_rows s id tenant_id (visible_ids fuel s id tenant_id)))
