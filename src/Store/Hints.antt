-- ===== src/Store/Hints.antt =====
-- storage/src/repositories/observations.rs: which disagreements are stored.
use tuppira.Base.{
  ℕ, ◌==◌, not, ◌&&◌, ◌||◌, Text, text_eq, text_eq_iff, List, [], ◌∷◌, ◌++◌, Bool, true, false, ok,
  >>=-eq-ok, >>_iff, refuse_if, refuse_if_iff, All, ◌≡◌, ◌≢◌, refl, ap, ◌∙◌, arith, and-eq-true_iff,
}
use tuppira.Observation.Records.{
  ObservationRecord, TenantVisibility, public, tenant, ContradictionHintRecord,
}
use tuppira.Store.Schema.{StoreResult, any_row}
use tuppira.Store.Rows.{Somewhere, Somewhere-map, any_row-Somewhere, any_row-All, All-map}
use tuppira.Store.History.{
  HintRow, History, same_visibility, shares_subject, disagree, pair_of, insert_hint_row, check_hint,
  append_contradiction_hint,
}

-- What stands behind a stored hint.
pub record IsHint (h : History) (hint : ContradictionHintRecord) (detected_at : ℕ) (t : History)
    : Type 0 where
  pub store : t.store ≡ h.store
  pub reorgs : t.reorgs ≡ h.reorgs
  pub hints : t.hints ≡ h.hints ++ (hint, detected_at) ∷ []
  pub pair :
      Somewhere
        (λ (l : ObservationRecord).
          (l.observation_id ≡ hint.left_observation_id)
          × Somewhere
              (λ (r : ObservationRecord).
                (r.observation_id ≡ hint.right_observation_id)
                × (l.source_id ≢ r.source_id)
                × (l.tenant_visibility ≡ r.tenant_visibility))
              (h.store).observations)
        (h.store).observations
  pub subject :
      Somewhere
        (λ (l : Text × Text).
          (l.0 ≡ hint.left_observation_id)
          × Somewhere
              (λ (r : Text × Text). (r.0 ≡ hint.right_observation_id) × (r.1 ≡ l.1))
              (h.store).subjects)
        (h.store).subjects
  pub new_id : All (λ (x : HintRow). (x.0).hint_id ≢ hint.hint_id) h.hints

same_visibility_lem : (a b : TenantVisibility) → same_visibility a b ≡ true → a ≡ b
unfolding same_visibility
same_visibility_lem public public h = refl
same_visibility_lem public (tenant b) h = cc (h)
same_visibility_lem (tenant a) public h = cc (h)
same_visibility_lem (tenant a) (tenant b) h = ap tenant ((text_eq_iff a b).0 h)

disagree_lem :
    (l r : ObservationRecord)
    → disagree l r ≡ true
    → (l.source_id ≢ r.source_id) × (l.tenant_visibility ≡ r.tenant_visibility)
unfolding disagree
disagree_lem l r h =
    let (apart, same) = (and-eq-true_iff (not (text_eq l.source_id r.source_id)) _).0 h in
    (
      λ e. ground (arith, (text_eq_iff l.source_id r.source_id).1 e, apart),
      same_visibility_lem _ _ same,
    )

pair_lem :
    (rows : List ObservationRecord) (left right : Text)
    → pair_of rows left right ≡ true
    → Somewhere
        (λ (l : ObservationRecord).
          (l.observation_id ≡ left)
          × Somewhere
              (λ (r : ObservationRecord).
                (r.observation_id ≡ right)
                × (l.source_id ≢ r.source_id)
                × (l.tenant_visibility ≡ r.tenant_visibility))
              rows)
        rows
unfolding pair_of
pair_lem rows left right h =
    Somewhere-map rows
      (λ l k.
        let (this, others) = (and-eq-true_iff (text_eq l.observation_id left) _).0 k in
        (
          (text_eq_iff _ _).0 this,
          Somewhere-map rows
              (λ r j.
                let (that, both) = (and-eq-true_iff (text_eq r.observation_id right) _).0 j in
                let (apart, same) = disagree_lem l r both in
                ((text_eq_iff _ _).0 that, apart, same))
              (any_row-Somewhere (λ r. text_eq r.observation_id right && disagree l r) rows others),
        ))
      (any_row-Somewhere
        (λ l.
          text_eq l.observation_id left
          && any_row (λ r. text_eq r.observation_id right && disagree l r) rows)
        rows h)

subject_lem :
    (subjects : List (Text × Text)) (left right : Text)
    → shares_subject subjects left right ≡ true
    → Somewhere
        (λ (l : Text × Text).
          (l.0 ≡ left) × Somewhere (λ (r : Text × Text). (r.0 ≡ right) × (r.1 ≡ l.1)) subjects)
        subjects
unfolding shares_subject
subject_lem subjects left right h =
    Somewhere-map subjects
      (λ l k.
        let (this, others) = (and-eq-true_iff (text_eq l.0 left) _).0 k in
        (
          (text_eq_iff _ _).0 this,
          Somewhere-map subjects
              (λ r j.
                let (that, same) = (and-eq-true_iff (text_eq r.0 right) (text_eq r.1 l.1)).0 j in
                ((text_eq_iff _ _).0 that, (text_eq_iff _ _).0 same))
              (any_row-Somewhere (λ r. text_eq r.0 right && text_eq r.1 l.1) subjects others),
        ))
      (any_row-Somewhere
        (λ l. text_eq l.0 left && any_row (λ r. text_eq r.0 right && text_eq r.1 l.1) subjects)
        subjects h)

history_of : {s t : History} → ◌≡◌ {A = StoreResult History} (ok s) (ok t) → t ≡ s
history_of h = cc (h)

hint_rows_of :
    {xs ys : List HintRow} → ◌≡◌ {A = StoreResult (List HintRow)} (ok xs) (ok ys) → ys ≡ xs
hint_rows_of h = cc (h)

kept_true : (a : Bool) → not a ≡ false → a ≡ true
kept_true a h = ground arith

record RowOf (h : History) (hint : ContradictionHintRecord) (detected_at : ℕ) (rows : List HintRow)
    : Type 0 where
  rows_end : rows ≡ h.hints ++ (hint, detected_at) ∷ []
  allowed :
      (pair_of (h.store).observations hint.left_observation_id hint.right_observation_id ≡ true)
      × (shares_subject (h.store).subjects hint.left_observation_id hint.right_observation_id
          ≡ true)
  fresh : any_row (λ (x : HintRow). text_eq (x.0).hint_id hint.hint_id) h.hints ≡ false

insert_hint_row-RowOf :
    (h : History) (hint : ContradictionHintRecord) (detected_at : ℕ) (rows : List HintRow)
    → insert_hint_row h hint detected_at ≡ ok rows
    → RowOf h hint detected_at rows
unfolding insert_hint_row
insert_hint_row-RowOf h hint detected_at rows done =
    let trigger = not (
      pair_of (h.store).observations hint.left_observation_id hint.right_observation_id
      && shares_subject (h.store).subjects hint.left_observation_id hint.right_observation_id) in
    let (allowed, h₁) = (>>_iff (refuse_if trigger _) _).0 done in
    let (_, h₂) =
      (>>_iff
          (refuse_if
            (not (hint.schema_version == 1)
              || detected_at == 0
              || text_eq hint.left_observation_id hint.right_observation_id)
            _)
          _).0
        h₁ in
    let (fresh, h₃) =
      (>>_iff (refuse_if (any_row (λ (x : HintRow). text_eq (x.0).hint_id hint.hint_id) h.hints) _)
          _).0
        h₂ in
    let (_, h₄) =
      (>>_iff
          (refuse_if
            (any_row
              (λ (x : HintRow).
                text_eq (x.0).left_observation_id hint.left_observation_id
                && text_eq (x.0).right_observation_id hint.right_observation_id
                && text_eq (x.0).detector_id hint.detector_id)
              h.hints)
            _)
          _).0
        h₃ in
    record {
      rows_end = hint_rows_of h₄;
      allowed =
          (and-eq-true_iff
              (pair_of (h.store).observations hint.left_observation_id hint.right_observation_id)
              (shares_subject (h.store).subjects hint.left_observation_id
                hint.right_observation_id)).0
            (kept_true _ ((refuse_if_iff _ _).0 allowed));
      fresh = (refuse_if_iff _ _).0 fresh;
    }

-- A hint that is stored names two stored observations of different sources, of one visibility and
-- with a common subject, so it never crosses the boundary of a tenant; it has a new id, and nothing
-- else changes.
pub append_contradiction_hint-IsHint :
    (h : History) (hint : ContradictionHintRecord) (detected_at : ℕ) (t : History)
    → append_contradiction_hint h hint detected_at ≡ ok t
    → IsHint h hint detected_at t
unfolding append_contradiction_hint
append_contradiction_hint-IsHint h hint detected_at t done =
    let (_, h₁) = (>>_iff (check_hint hint detected_at) _).0 done in
    let (rows, inserted, h₂) = >>=-eq-ok (insert_hint_row h hint detected_at) _ h₁ in
    let d = insert_hint_row-RowOf h hint detected_at rows inserted in
    let same = history_of h₂ in
    record {
      store = ap (λ k. k.store) same;
      reorgs = ap (λ k. k.reorgs) same;
      hints = ap (λ k. k.hints) same ∙ d.rows_end;
      pair = pair_lem _ _ _ d.allowed.0;
      subject = subject_lem _ _ _ d.allowed.1;
      new_id =
          All-map h.hints (λ x k e. ground (arith, k, (text_eq_iff (x.0).hint_id hint.hint_id).1 e))
            (any_row-All (λ (x : HintRow). text_eq (x.0).hint_id hint.hint_id) h.hints d.fresh);
    }
