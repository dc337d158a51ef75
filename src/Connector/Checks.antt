-- ===== src/Connector/Checks.antt =====
-- indexer/src/connector.rs: the `validate` methods of cursor, event, batch and assessment.
use tuppira.Base.{
  ℕ, Text, String, List, [], ◌∷◌, ◌||◌, ok, ◌>>◌, refuse_if, for_each, ltb, ◌==◌, length, is_empty,
  byte_len, has_control, text_eq, contains, not,
}
use tuppira.Observation.Records.{
  TenantVisibility, public, tenant, ReorgRecord, SupersessionRecord, ContradictionHintRecord,
}
use tuppira.Connector.Contract.{
  max_discovery_limit, max_raw_event_bytes, max_cursor_bytes, invalid_field, bound_exceeded,
  duplicate_source_event, source_mismatch, ConnectorResult, ConnectorCursor, RawSourceEvent,
  RawSourceBatch, SourceReconciliationAssessment,
}

abbrev pub Check : Type 0
Check = ConnectorResult (Unit {0})

unfoldable pub validate_limit : ℕ → Check
validate_limit limit =
    refuse_if (limit == 0 || ltb max_discovery_limit limit) (bound_exceeded "discover.limit")

unfoldable pub validate_id : Text → String → Check
validate_id value field =
    refuse_if (is_empty value || ltb 512 (byte_len value) || has_control value)
      (invalid_field field)

unfoldable pub validate_cursor : ConnectorCursor → Check
validate_cursor c = do
  validate_id c.source_id "cursor.source_id"
  refuse_if (c.cursor_version == 0) (invalid_field "cursor.cursor_version")
  refuse_if (is_empty c.bytes || ltb max_cursor_bytes (length c.bytes))
      (bound_exceeded "cursor.bytes")

unfoldable pub validate_owner : TenantVisibility → Check
validate_owner public = ok tt
validate_owner (tenant tenant_id) = validate_id tenant_id "raw_event.tenant_id"

unfoldable pub validate_event : RawSourceEvent → Check
validate_event e = do
  validate_id e.source_id "raw_event.source_id"
  validate_id e.source_event_id "raw_event.source_event_id"
  validate_id e.media_type "raw_event.media_type"
  refuse_if (e.observed_at == 0) (invalid_field "raw_event.observed_at")
  refuse_if (is_empty e.bytes || ltb max_raw_event_bytes (length e.bytes))
      (bound_exceeded "raw_event.bytes")
  validate_owner e.tenant_visibility

-- The loop of `RawSourceBatch::validate`: `ids` is the set of the event ids seen so far.
unfoldable pub validate_events : Text → List Text → List RawSourceEvent → Check
validate_events source ids [] = ok tt
validate_events source ids (e ∷ rest) = do
  validate_event e
  refuse_if (not (text_eq e.source_id source)) (source_mismatch source e.source_id)
  refuse_if (contains ids e.source_event_id) (duplicate_source_event e.source_event_id)
  validate_events source (e.source_event_id ∷ ids) rest

unfoldable pub validate_batch : RawSourceBatch → ℕ → Check
validate_batch b requested_limit = do
  validate_limit requested_limit
  validate_id b.source_id "batch.source_id"
  validate_cursor b.proposed_cursor
  refuse_if (not (text_eq b.proposed_cursor.source_id b.source_id))
      (source_mismatch b.source_id b.proposed_cursor.source_id)
  refuse_if (ltb requested_limit (length b.events)) (bound_exceeded "batch.events")
  validate_events b.source_id [] b.events

unfoldable pub validate_reorg : Text → ReorgRecord → Check
validate_reorg source r = do
  validate_id r.reorg_id "reconciliation.reorg_id"
  validate_id r.prior_tip "reconciliation.prior_tip"
  validate_id r.replacement_tip "reconciliation.replacement_tip"
  refuse_if
      (not (r.schema_version == 1)
        || not (text_eq r.source_id source)
        || r.detected_at == 0
        || text_eq r.prior_tip r.replacement_tip)
      (invalid_field "reconciliation.reorg")

unfoldable pub validate_supersession : SupersessionRecord → Check
validate_supersession s = do
  validate_id s.superseding_observation_id "reconciliation.superseding"
  validate_id s.superseded_observation_id "reconciliation.superseded"
  refuse_if
      (not (s.schema_version == 1)
        || s.observed_at == 0
        || text_eq s.superseding_observation_id s.superseded_observation_id)
      (invalid_field "reconciliation.supersession")

unfoldable pub validate_contradiction : ContradictionHintRecord → Check
validate_contradiction c = do
  validate_id c.hint_id "reconciliation.hint_id"
  validate_id c.left_observation_id "reconciliation.left"
  validate_id c.right_observation_id "reconciliation.right"
  validate_id c.detector_id "reconciliation.detector_id"
  refuse_if (not (c.schema_version == 1) || text_eq c.left_observation_id c.right_observation_id)
      (invalid_field "reconciliation.contradiction")

unfoldable pub validate_assessment : SourceReconciliationAssessment → Text → Check
validate_assessment a expected_source_id = do
  validate_id a.source_id "reconciliation.source_id"
  validate_id a.subject_ref "reconciliation.subject_ref"
  refuse_if (not (text_eq a.source_id expected_source_id))
      (source_mismatch expected_source_id a.source_id)
  for_each (validate_reorg a.source_id) a.reorgs
  for_each validate_supersession a.supersessions
  for_each validate_contradiction a.contradictions
