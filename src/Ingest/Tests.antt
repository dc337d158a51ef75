-- ===== src/Ingest/Tests.antt =====
-- Passes of indexer/src/ingest.rs over small feeds.
use tuppira.Base.{
  ℕ, ◌≤◌, codes, [], ◌∷◌, none, some, true, ok, err, All, ◌≡◌, ◌≢◌, refl, subst, arith, byte_len,
  char_len, has_control, is_control, is_blank, is_whitespace, has_char, text_eq,
}
use tuppira.Observation.Records.{tenant}
use tuppira.Connector.Contract.{
  ConnectorResult, RawSourceEvent, RawSourceBatch, rejected, invalid_field, healthy,
  SourceConnector,
}
use tuppira.Connector.Checks.{validate_event, validate_id, validate_owner}
use tuppira.Connector.Gate.{require_authenticated, authenticate_and_normalize}
use tuppira.Piteka.Export.{SignedPitekaExport}
use tuppira.Piteka.Fixtures.{externals, config, feed}
use tuppira.Piteka.Feed.{PitekaFeedPage, connector}
use tuppira.Store.Schema.{Store, empty_store, any_row}
use tuppira.Store.Repository.{
  ensure_version, ensure_text, required_i64, optional_i64, ends_before, insert_retention_class,
  insert_source, insert_collection_run,
}
use tuppira.Store.Reachable.{Reachable, start, IsSound}
use tuppira.Ingest.{
  State, ignore_conflict, ingest_candidate, ingest_events, ingest_batch, round, after_round, drain,
  register, after_register, ingest,
}
use tuppira.Ingest.Safe.{ingest-Reachable}
use tuppira.Ingest.Terminates.{ingest-terminates}

abbrev raw : RawSourceEvent
raw = record {
  source_id = codes "feed";
  source_event_id = codes "event:1";
  media_type = codes "text/plain";
  bytes = 1 ∷ [];
  observed_at = 101;
  tenant_visibility = tenant (codes "acme");
}

abbrev batch : RawSourceBatch
batch = record {
  source_id = codes "feed";
  events = raw ∷ [];
  proposed_cursor = record { source_id = codes "feed"; cursor_version = 1; bytes = 1 ∷ [] };
}

-- A source with one event, which is not authentic.
abbrev source : SourceConnector
source = record {
  source_id = codes "feed";
  discover =
      λ cursor limit. elim cursor [ none ↦ ok batch | some c ↦ ok (record batch { events = [] }) ];
  authenticate = λ raw. ok (rejected (codes "forged"));
  normalize = λ raw version. err (invalid_field "version");
  checkpoint = λ b. ok b.proposed_cursor;
  reconcile = λ subject from to. err (invalid_field "interval");
  health = healthy;
}

abbrev registered : Store
registered = record empty_store {
  retention_classes =
      record {
        schema_version = 1;
        retention_class_id = codes "standard";
        purpose = codes "Tenant-scoped Piteka evidence export";
        retain_for_seconds = none;
        raw_payload_permitted = true;
      }
      ∷ [];
  sources =
      record {
        schema_version = 1;
        source_id = codes "feed";
        connector_kind = codes "piteka-evidence-export";
        display_name = codes "Piteka evidence feed";
        retention_class_id = codes "standard";
      }
      ∷ [];
  runs =
      record {
        schema_version = 1;
        collection_run_id = codes "run:1";
        source_id = codes "feed";
        started_at = 7;
        completed_at = none;
      }
      ∷ [];
}

abbrev skipped : State
skipped = (
  registered,
  record { authenticated = 0; persisted = 0; duplicates = 0; skipped = 1; observation_ids = [] },
)

-- The forged event is skipped and the pass goes on to the end of the feed.
skips : ingest 2 source config 7 empty_store ≡ some (ok skipped)
unfolding ingest register after_register ignore_conflict insert_retention_class insert_source
    insert_collection_run ensure_version ensure_text required_i64 optional_i64 ends_before any_row
    is_blank is_whitespace has_char text_eq drain after_round round ingest_batch ingest_events
    ingest_candidate authenticate_and_normalize validate_event validate_id validate_owner byte_len
    char_len has_control is_control require_authenticated
skips = refl

ingest-Reachable_example : Reachable registered × IsSound registered
ingest-Reachable_example = ingest-Reachable 2 source config 7 empty_store skipped start skips

page_of : {a b : PitekaFeedPage} → ◌≡◌ {A = ConnectorResult PitekaFeedPage} (ok a) (ok b) → a ≡ b
page_of h = cc (h)

feed_ends :
    (after limit : ℕ) (page : PitekaFeedPage)
    → feed.fetch after limit ≡ ok page
    → All (λ (e : SignedPitekaExport). e.sequence ≤ 4) page.exports
feed_ends after limit page h =
    subst (λ (p : PitekaFeedPage). All (λ (e : SignedPitekaExport). e.sequence ≤ 4) p.exports)
      (page_of h) (omega arith, tt)

ingest-terminates_example : ingest 5 (connector externals feed) feed.config 7 empty_store ≢ none
ingest-terminates_example = ingest-terminates externals feed 4 (omega arith) feed_ends 7 empty_store
