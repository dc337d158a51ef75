-- ===== src/Store/Writes.antt =====
-- storage/src/repositories/observations.rs: what the writes to references, cursors and the tables of
-- sources leave behind.
use tuppira.Base.{
  ℕ, ◌≤◌, Text, List, [], ◌∷◌, ◌++◌, Option, none, some, Bool, true, false, ◌||◌, ◌&&◌, ok, >>_iff,
  refuse_if, ltb, ◌==◌, text_eq, text_eq_iff, not, if◌then◌else◌, map, append_assoc, append-nil,
  ◌≡◌, ◌⊎◌, inl, inr, refl, sym, ◌∙◌, subst, arith,
}
use mathlib.Core.Option
use tuppira.Observation.Records.{
  SyncCursorRecord, SourceRecord, CollectionRunRecord, RetentionClassRecord, RawPayloadDescriptor,
}
use tuppira.Store.Schema.{StoreResult, Store, any_row, has_key, insert_refs, put_cursor}
use tuppira.Store.Repository.{
  ensure_version, ensure_text, ensure_digest, required_i64, optional_i64, ends_before,
  class_missing, insert_retention_class, insert_source, insert_collection_run,
  insert_raw_payload_descriptor,
}
use tuppira.Store.Rows.{Somewhere}

-- The cursor of the source stands at or behind the time.
abbrev pub Covers : Text → ℕ → SyncCursorRecord → Type 0
Covers source time c = (c.source_id ≡ source) × (time ≤ c.observed_at)

pub insert_refs_lem :
    (rows : List (Text × Text)) (id : Text) (refs : List Text) (t : List (Text × Text))
    → insert_refs rows id refs ≡ ok t
    → t ≡ rows ++ map (λ x. (id, x)) refs
unfolding insert_refs
insert_refs_lem rows id [] t h = cc (h) ∙ sym (append-nil rows)
insert_refs_lem rows id (x ∷ xs) t h =
    let (_, h₁) =
      (>>_iff (refuse_if (any_row (λ p. text_eq p.0 id && text_eq p.1 x) rows) _) _).0 h in
    insert_refs_lem (rows ++ (id, x) ∷ []) id xs t h₁
    ∙ append_assoc rows ((id, x) ∷ []) (map (λ y. (id, y)) xs)

cursors_of :
    {a b : List SyncCursorRecord}
    → ◌≡◌ {A = Option (List SyncCursorRecord)} (some a) (some b)
    → a ≡ b
cursors_of h = cc (h)

store_of : {s t : Store} → ◌≡◌ {A = StoreResult Store} (ok s) (ok t) → s ≡ t
store_of h = cc (h)

advance :
    (old c : SyncCursorRecord) (rest : List SyncCursorRecord)
    → old.source_id ≡ c.source_id
    → ltb old.observed_at c.observed_at ≡ true
    → (source : Text) (time : ℕ) → Covers source time old ⊎ Somewhere (Covers source time) rest
    → Covers source time c ⊎ Somewhere (Covers source time) rest
advance old c rest same earlier source time (inl here) =
    inl (sym same ∙ here.0, ground (arith, here.1, earlier))
advance old c rest same earlier source time (inr there) = inr there

put_cases :
    (b d : Bool) (old c : SyncCursorRecord) (rest : List SyncCursorRecord)
    (moved : Option (List SyncCursorRecord)) (new : List SyncCursorRecord)
    → (if b then (if d then some (c ∷ rest) else none) else Option.map (λ cs. old ∷ cs) moved)
      ≡ some new
    → ((b ≡ true) × (d ≡ true) × (c ∷ rest ≡ new))
      ⊎ ((cs : List SyncCursorRecord) × (moved ≡ some cs) × (old ∷ cs ≡ new))
put_cases true true old c rest moved new h = inl (refl, refl, cc (h))
put_cases true false old c rest moved new h = cc (h)
put_cases false d old c rest none new h = cc (h)
put_cases false d old c rest (some cs) new h = inr (cs, refl, cc (h))

-- The cursor that was put stands in the table, and no source falls back.
pub put_cursor-Covers :
    (cs : List SyncCursorRecord) (c : SyncCursorRecord) (new : List SyncCursorRecord)
    → put_cursor cs c ≡ some new
    → Somewhere (λ x. x ≡ c) new
      × ((source : Text) (time : ℕ)
          → Somewhere (Covers source time) cs
          → Somewhere (Covers source time) new)
unfolding put_cursor
put_cursor-Covers [] c new h =
    subst
      (λ k.
        Somewhere (λ x. x ≡ c) k
        × ((source : Text) (time : ℕ) → ⊥ → Somewhere (Covers source time) k))
      (cursors_of h) (inl refl, λ source time s. absurd s)
put_cursor-Covers (old ∷ rest) c new h =
    elim (put_cases (text_eq old.source_id c.source_id) (ltb old.observed_at c.observed_at) old c
      rest (put_cursor rest c) new h) [
        | inl p ↦
            subst
              (λ k.
                Somewhere (λ x. x ≡ c) k
                × ((source : Text) (time : ℕ)
                    → Covers source time old ⊎ Somewhere (Covers source time) rest
                    → Somewhere (Covers source time) k))
              p.2
              (
                inl refl,
                λ source time s. advance old c rest ((text_eq_iff _ _).0 p.0) p.1 source time s,
              )
        | inr q ↦
            let (put, moved) = put_cursor-Covers rest c q.0 q.1 in
            subst
              (λ k.
                Somewhere (λ x. x ≡ c) k
                × ((source : Text) (time : ℕ)
                    → Covers source time old ⊎ Somewhere (Covers source time) rest
                    → Somewhere (Covers source time) k))
              q.2
              (
                inr put,
                λ source time s. elim s [
                  | inl here ↦ inl here
                  | inr there ↦ inr (moved source time there)
                ],
              )
      ]

-- The inserts into the other tables leave the observations, the references and the cursors alone.
pub insert_retention_class_lem :
    (s : Store) (r : RetentionClassRecord) (t : Store)
    → insert_retention_class s r ≡ ok t
    → record s { retention_classes = s.retention_classes ++ r ∷ [] } ≡ t
unfolding insert_retention_class
insert_retention_class_lem s r t h =
    let (_, h₁) = (>>_iff (ensure_version r.schema_version) _).0 h in
    let (_, h₂) = (>>_iff (ensure_text r.retention_class_id _) _).0 h₁ in
    let (_, h₃) = (>>_iff (ensure_text r.purpose _) _).0 h₂ in
    let (_, h₄) = (>>_iff (optional_i64 r.retain_for_seconds _) _).0 h₃ in
    store_of ((>>_iff (refuse_if _ _) _).0 h₄).1

pub insert_source_lem :
    (s : Store) (r : SourceRecord) (t : Store)
    → insert_source s r ≡ ok t
    → record s { sources = s.sources ++ r ∷ [] } ≡ t
unfolding insert_source
insert_source_lem s r t h =
    let (_, h₁) = (>>_iff (ensure_version r.schema_version) _).0 h in
    let (_, h₂) = (>>_iff (ensure_text r.source_id _) _).0 h₁ in
    let (_, h₃) = (>>_iff (ensure_text r.connector_kind _) _).0 h₂ in
    let (_, h₄) = (>>_iff (ensure_text r.display_name _) _).0 h₃ in
    let (_, h₅) =
      (>>_iff (refuse_if (has_key (λ (x : SourceRecord). x.source_id) s.sources r.source_id) _) _).0
        h₄ in
    store_of ((>>_iff (refuse_if (class_missing s r.retention_class_id) _) _).0 h₅).1

pub insert_collection_run_lem :
    (s : Store) (r : CollectionRunRecord) (t : Store)
    → insert_collection_run s r ≡ ok t
    → record s { runs = s.runs ++ r ∷ [] } ≡ t
unfolding insert_collection_run
insert_collection_run_lem s r t h =
    let (_, h₁) = (>>_iff (ensure_version r.schema_version) _).0 h in
    let (_, h₂) = (>>_iff (ensure_text r.collection_run_id _) _).0 h₁ in
    let (_, h₃) = (>>_iff (ensure_text r.source_id _) _).0 h₂ in
    let (_, h₄) = (>>_iff (required_i64 r.started_at _) _).0 h₃ in
    let (_, h₅) = (>>_iff (optional_i64 r.completed_at _) _).0 h₄ in
    let (_, h₆) = (>>_iff (refuse_if (ends_before r.completed_at r.started_at) _) _).0 h₅ in
    let (_, h₇) = (>>_iff (refuse_if (r.started_at == 0) _) _).0 h₆ in
    let (_, h₈) =
      (>>_iff
          (refuse_if
            (has_key (λ (x : CollectionRunRecord). x.collection_run_id) s.runs r.collection_run_id)
            _)
          _).0
        h₇ in
    store_of
      ((>>_iff
          (refuse_if (not (has_key (λ (x : SourceRecord). x.source_id) s.sources r.source_id)) _)
          _).0
        h₈).1

pub insert_raw_payload_descriptor_lem :
    (s : Store) (r : RawPayloadDescriptor) (t : Store)
    → insert_raw_payload_descriptor s r ≡ ok t
    → record s { payloads = s.payloads ++ r ∷ [] } ≡ t
unfolding insert_raw_payload_descriptor
insert_raw_payload_descriptor_lem s r t h =
    let (_, h₁) = (>>_iff (ensure_version r.schema_version) _).0 h in
    let (_, h₂) = (>>_iff (ensure_text r.payload_id _) _).0 h₁ in
    let (_, h₃) = (>>_iff (ensure_text r.digest_algorithm _) _).0 h₂ in
    let (_, h₄) = (>>_iff (ensure_text r.media_type _) _).0 h₃ in
    let (_, h₅) = (>>_iff (ensure_digest r.payload_digest _) _).0 h₄ in
    let (_, h₆) = (>>_iff (required_i64 r.byte_length _) _).0 h₅ in
    let (_, h₇) =
      (>>_iff
          (refuse_if
            (any_row
              (λ (x : RawPayloadDescriptor).
                text_eq x.payload_id r.payload_id
                || text_eq x.digest_algorithm r.digest_algorithm
                  && text_eq x.payload_digest r.payload_digest)
              s.payloads)
            _)
          _).0
        h₆ in
    store_of ((>>_iff (refuse_if (class_missing s r.retention_class_id) _) _).0 h₇).1
