-- ===== src/Store/History.antt =====
-- storage/src/repositories/observations.rs over storage/migrations/0004_reconciliation_history.sql: the
-- reorganizations of sources and the disagreements between them, which stand beside the store.
use tuppira.Base.{
  ℕ, ltb, ◌==◌, not, ◌&&◌, ◌||◌, Text, text_eq, is_empty, List, [], ◌∷◌, ◌++◌, Bool, true, false,
  ok, ◌>>=◌, ◌>>◌, refuse_if, filter,
}
use tuppira.Base.Sorts.{sort_by}
use tuppira.Observation.Records.{
  ObservationRecord, TenantVisibility, public, tenant, ReorgRecord, ContradictionHintRecord,
}
use tuppira.Store.Schema.{Store, StoreResult, database, any_row, has_key}
use tuppira.Store.Repository.{
  StoreCheck, invalid, ensure_version, ensure_text, required_i64, text_le,
}

-- A hint with the time of its detection.
abbrev pub HintRow : Type 0
HintRow = ContradictionHintRecord × ℕ

pub record History : Type 0 where
  pub store : Store
  pub reorgs : List ReorgRecord
  pub hints : List HintRow

-- The trigger contradiction_hints_validate asks for one scope and one tenant.
unfoldable pub same_visibility : TenantVisibility → TenantVisibility → Bool
same_visibility public public = true
same_visibility (tenant a) (tenant b) = text_eq a b
same_visibility _ _ = false

unfoldable pub shares_subject : List (Text × Text) → Text → Text → Bool
shares_subject subjects left right =
    any_row (λ l. text_eq l.0 left && any_row (λ r. text_eq r.0 right && text_eq r.1 l.1) subjects)
      subjects

unfoldable pub disagree : ObservationRecord → ObservationRecord → Bool
disagree l r =
    not (text_eq l.source_id r.source_id) && same_visibility l.tenant_visibility r.tenant_visibility

unfoldable pub pair_of : List ObservationRecord → Text → Text → Bool
pair_of rows left right =
    any_row
      (λ l.
        text_eq l.observation_id left
        && any_row (λ r. text_eq r.observation_id right && disagree l r) rows)
      rows

-- INSERT INTO contradiction_hints: the trigger, then the checks and the keys. The references hold
-- when the trigger passes.
unfoldable pub insert_hint_row : History → ContradictionHintRecord → ℕ → StoreResult (List HintRow)
insert_hint_row h hint detected_at = do
  refuse_if
      (not (
        pair_of (h.store).observations hint.left_observation_id hint.right_observation_id
        && shares_subject (h.store).subjects hint.left_observation_id hint.right_observation_id))
      (database "contradiction must be cross-source, same-subject, and same-visibility")
  refuse_if
      (not (hint.schema_version == 1)
        || detected_at == 0
        || text_eq hint.left_observation_id hint.right_observation_id)
      (database "CHECK constraint failed: contradiction_hints")
  refuse_if (any_row (λ (x : HintRow). text_eq (x.0).hint_id hint.hint_id) h.hints)
      (database "UNIQUE constraint failed: contradiction_hints.hint_id")
  refuse_if
      (any_row
        (λ (x : HintRow).
          text_eq (x.0).left_observation_id hint.left_observation_id
          && text_eq (x.0).right_observation_id hint.right_observation_id
          && text_eq (x.0).detector_id hint.detector_id)
        h.hints)
      (database "UNIQUE constraint failed: contradiction_hints.left_observation_id")
  ok (h.hints ++ (hint, detected_at) ∷ [])

unfoldable pub check_hint : ContradictionHintRecord → ℕ → StoreCheck
check_hint hint detected_at = do
  ensure_version hint.schema_version
  ensure_text hint.hint_id "hint_id"
  ensure_text hint.left_observation_id "left_observation_id"
  ensure_text hint.right_observation_id "right_observation_id"
  ensure_text hint.detector_id "detector_id"
  refuse_if (text_eq hint.left_observation_id hint.right_observation_id || detected_at == 0)
      (invalid "invalid contradiction hint")
  required_i64 detected_at "detected_at"

unfoldable pub append_contradiction_hint :
    History → ContradictionHintRecord → ℕ → StoreResult History
append_contradiction_hint h hint detected_at = do
  check_hint hint detected_at
  hints ← insert_hint_row h hint detected_at
  ok (record h { hints = hints })

-- INSERT INTO source_reorgs: the checks, the key and the reference.
unfoldable pub insert_reorg_row : History → ReorgRecord → StoreResult (List ReorgRecord)
insert_reorg_row h r = do
  refuse_if
      (not (r.schema_version == 1)
        || r.detected_at == 0
        || is_empty r.prior_tip
        || is_empty r.replacement_tip
        || text_eq r.prior_tip r.replacement_tip)
      (database "CHECK constraint failed: source_reorgs")
  refuse_if (has_key (λ x. x.reorg_id) h.reorgs r.reorg_id)
      (database "UNIQUE constraint failed: source_reorgs.reorg_id")
  refuse_if (not (has_key (λ x. x.source_id) (h.store).sources r.source_id))
      (database "FOREIGN KEY constraint failed")
  ok (h.reorgs ++ r ∷ [])

unfoldable pub append_reorg : History → ReorgRecord → StoreResult History
append_reorg h r = do
  ensure_version r.schema_version
  ensure_text r.reorg_id "reorg_id"
  ensure_text r.source_id "source_id"
  ensure_text r.prior_tip "prior_tip"
  ensure_text r.replacement_tip "replacement_tip"
  refuse_if (r.detected_at == 0 || text_eq r.prior_tip r.replacement_tip)
      (invalid "invalid source reorg")
  required_i64 r.detected_at "detected_at"
  reorgs ← insert_reorg_row h r
  ok (record h { reorgs = reorgs })

-- ORDER BY detected_at, reorg_id
unfoldable pub reorg_before : ReorgRecord → ReorgRecord → Bool
reorg_before a b =
    ltb a.detected_at b.detected_at
    || (a.detected_at == b.detected_at && text_le a.reorg_id b.reorg_id)

unfoldable pub reorg_history : History → Text → StoreResult (List ReorgRecord)
reorg_history h source_id = do
  ensure_text source_id "source_id"
  ok (sort_by reorg_before (filter (λ r. text_eq r.source_id source_id) h.reorgs))
