-- ===== src/Ingest.antt =====
-- indexer/src/ingest.rs: one pass over the Piteka feed. `drain` is the loop of `ingest_piteka` with
-- a bound on its rounds; it returns none when the bound is used up.
pub mod Safe
pub mod Terminates
mod Tests
use tuppira.Base.{
  ℕ, zero, suc, ◌+◌, ◌||◌, Text, String, codes, List, [], ◌∷◌, ◌++◌, Option, none, some, Bool, true,
  false, Result, ok, err, ◌>>=◌, map_err, is_empty, if◌then◌else◌,
}
use tuppira.Base.Words.{to_be_bytes}
use tuppira.Observation.Records.{
  ObservationRecord, RawPayloadDescriptor, RetentionClassRecord, SourceRecord, CollectionRunRecord,
  SyncCursorRecord,
}
use tuppira.Connector.Contract.{
  ConnectorError, ConnectorResult, ConnectorCursor, RawSourceEvent, RawSourceBatch,
  NormalizedObservationInput, SourceConnector,
}
use tuppira.Connector.Gate.{authenticate_and_normalize}
use tuppira.Piteka.Manifest.{has_infix}
use tuppira.Piteka.Feed.{PitekaFeedConfig}
use tuppira.Store.Schema.{StoreError, parse, not_found, database, StoreResult, Store}
use tuppira.Store.Repository.{
  insert_retention_class, insert_source, insert_collection_run, insert_raw_payload_descriptor,
  append_observation, get_observation,
}

abbrev pub discovery_limit : ℕ
discovery_limit = 64

pub record IngestSummary : Type 0 where
  pub authenticated : ℕ
  pub persisted : ℕ
  pub duplicates : ℕ
  pub skipped : ℕ
  pub observation_ids : List Text

abbrev pub no_summary : IngestSummary
no_summary = record {
  authenticated = 0;
  persisted = 0;
  duplicates = 0;
  skipped = 0;
  observation_ids = [];
}

-- The cause of the text that the pass fails with.
pub data IngestError : Type 0 where
  prerequisite_failed persist_failed : StoreError → IngestError
  discover_failed checkpoint_failed : ConnectorError → IngestError

abbrev pub State : Type 0
State = Store × IngestSummary

abbrev conflict_text : Text → Bool
conflict_text message = has_infix message (codes "UNIQUE") || has_infix message (codes "constraint")

unfoldable pub is_conflict : StoreError → Bool
is_conflict (database message) = conflict_text (codes message)
is_conflict (parse message) = conflict_text message
is_conflict (not_found entity id) = conflict_text id

-- The store after an insert whose conflict is ignored.
unfoldable pub ignore_conflict : Store → StoreResult Store → Result IngestError Store
ignore_conflict s (ok t) = ok t
ignore_conflict s (err error) = if is_conflict error then ok s else err (prerequisite_failed error)

unfoldable pub insert_descriptor : Store → Option RawPayloadDescriptor → Result IngestError Store
insert_descriptor s none = ok s
insert_descriptor s (some d) = ignore_conflict s (insert_raw_payload_descriptor s d)

unfoldable pub sync_cursor : Text → ObservationRecord → SyncCursorRecord
sync_cursor source_id r = record {
  schema_version = 1;
  source_id = source_id;
  cursor_version = 1;
  cursor = to_be_bytes 8 r.observed_at;
  observed_at = r.observed_at;
}

unfoldable pub count_duplicate :
    State → Text → StoreError → StoreResult ObservationRecord → Result IngestError State
count_duplicate (s, n) id error (ok r) =
    ok (
      s,
      record n { duplicates = n.duplicates + 1; observation_ids = n.observation_ids ++ id ∷ [] },
    )
count_duplicate (s, n) id error (err missing) = err (persist_failed error)

-- What follows `append_observation`: an observation that is already stored is a duplicate.
unfoldable pub count_append : State → Text → StoreResult Store → Result IngestError State
count_append (s, n) id (ok t) =
    ok (t, record n { persisted = n.persisted + 1; observation_ids = n.observation_ids ++ id ∷ [] })
count_append (s, n) id (err error) = count_duplicate (s, n) id error (get_observation s id)

-- The body of the loop over a batch, after the gate: a refused export is skipped.
unfoldable pub ingest_candidate :
    Text → State → ConnectorResult NormalizedObservationInput → Result IngestError State
ingest_candidate source_id (s, n) (err error) = ok (s, record n { skipped = n.skipped + 1 })
ingest_candidate source_id (s, n) (ok x) = do
  with_payload ← insert_descriptor s x.raw_payload
  count_append (with_payload, record n { authenticated = n.authenticated + 1 })
      (x.observation).observation_id
      (append_observation with_payload x.observation (sync_cursor source_id x.observation))

unfoldable pub ingest_events :
    SourceConnector → Text → State → List RawSourceEvent → Result IngestError State
ingest_events connector source_id state [] = ok state
ingest_events connector source_id state (raw ∷ rest) = do
  next ← ingest_candidate source_id state (authenticate_and_normalize connector raw 1)
  ingest_events connector source_id next rest

-- One round: none as the next cursor when the feed is exhausted.
unfoldable pub ingest_batch :
    SourceConnector
    → Text
    → State
    → RawSourceBatch
    → Result IngestError (State × Option ConnectorCursor)
ingest_batch connector source_id state batch =
    if is_empty batch.events then ok (state, none) else do
      next ← ingest_events connector source_id state batch.events
      cursor ← map_err checkpoint_failed (connector.checkpoint batch)
      ok (next, some cursor)

unfoldable pub round :
    SourceConnector
    → Text
    → Option ConnectorCursor
    → State
    → Result IngestError (State × Option ConnectorCursor)
round connector source_id cursor state = do
  batch ← map_err discover_failed (connector.discover cursor discovery_limit)
  ingest_batch connector source_id state batch

-- The pass ends with the feed or with an error, or it goes on from the new cursor.
unfoldable pub after_round :
    Result IngestError (State × Option ConnectorCursor)
    → (ConnectorCursor → State → Option (Result IngestError State))
    → Option (Result IngestError State)
after_round (err error) go_on = some (err error)
after_round (ok (next, none)) go_on = some (ok next)
after_round (ok (next, some later)) go_on = go_on later next

unfoldable pub drain :
    ℕ → SourceConnector → Text → Option ConnectorCursor → State → Option (Result IngestError State)
drain zero connector source_id cursor state = none
drain (suc fuel) connector source_id cursor state =
    after_round (round connector source_id cursor state)
      (λ later next. drain fuel connector source_id (some later) next)

-- The retention class, the source and the run that the pass needs.
unfoldable pub register : Store → PitekaFeedConfig → ℕ → Result IngestError Store
register s config started_at = do
  with_class ← ignore_conflict s (
      insert_retention_class s (record {
        schema_version = 1;
        retention_class_id = config.retention_class_id;
        purpose = codes "Tenant-scoped Piteka evidence export";
        retain_for_seconds = none;
        raw_payload_permitted = true;
      }))
  with_source ← ignore_conflict with_class (
      insert_source with_class (record {
        schema_version = 1;
        source_id = config.source_id;
        connector_kind = codes "piteka-evidence-export";
        display_name = codes "Piteka evidence feed";
        retention_class_id = config.retention_class_id;
      }))
  ignore_conflict with_source (
      insert_collection_run with_source (record {
        schema_version = 1;
        collection_run_id = config.collection_run_id;
        source_id = config.source_id;
        started_at = started_at;
        completed_at = none;
      }))

unfoldable pub after_register :
    Result IngestError Store
    → (Store → Option (Result IngestError State))
    → Option (Result IngestError State)
after_register (err error) go_on = some (err error)
after_register (ok ready) go_on = go_on ready

-- The pass with a connector that is already built.
unfoldable pub ingest :
    ℕ → SourceConnector → PitekaFeedConfig → ℕ → Store → Option (Result IngestError State)
ingest fuel connector config now s =
    after_register (register s config now)
      (λ ready. drain fuel connector config.source_id none (ready, no_summary))
