-- ===== src/Connector/Sound.antt =====
-- indexer/src/connector.rs: what the checks on cursors, events and batches accept, described
-- without their code.
use tuppira.Base.{
  ℕ, ◌≤◌, ◌<◌, Text, String, List, [], ◌∷◌, ok, >>_iff, refuse_if, refuse_if_iff, ltb, ◌==◌, ◌||◌,
  length, is_empty, is_control, has_control, has_control_iff, byte_len, text_eq, not-text_eq_iff,
  contains, contains_iff, not, All, ◌≡◌, ◌≢◌, ◌↔◌, refl, arith, false,
}
use tuppira.Observation.Records.{TenantVisibility, public, tenant}
use tuppira.Connector.Contract.{ConnectorCursor, RawSourceEvent, RawSourceBatch}
use tuppira.Connector.Checks.{
  validate_limit, validate_id, validate_cursor, validate_owner, validate_event, validate_events,
  validate_batch,
}

-- A name is not empty, has at most 512 bytes of UTF-8 and no control character.
pub record IsName (t : Text) : Type 0 where
  pub some_char : 0 < length t
  pub short : byte_len t ≤ 512
  pub printable : All (λ c. is_control c ≡ false) t

pub record IsBytes (bound : ℕ) (bytes : List ℕ) : Type 0 where
  pub some_byte : 0 < length bytes
  pub bounded : length bytes ≤ bound

pub record IsCursor (c : ConnectorCursor) : Type 0 where
  pub source : IsName c.source_id
  pub version : 0 < c.cursor_version
  pub bytes : IsBytes 65_536 c.bytes

abbrev pub OwnerIsName : TenantVisibility → Type 0
OwnerIsName public = Unit
OwnerIsName (tenant t) = IsName t

pub record IsEvent (e : RawSourceEvent) : Type 0 where
  pub source : IsName e.source_id
  pub event : IsName e.source_event_id
  pub media : IsName e.media_type
  pub time : 0 < e.observed_at
  pub bytes : IsBytes 8_388_608 e.bytes
  pub owner : OwnerIsName e.tenant_visibility

-- Each event is sound, of the batch's source, and of an id that no other event has.
abbrev pub AreEvents : Text → List RawSourceEvent → Type 0
AreEvents source [] = Unit
AreEvents source (e ∷ rest) =
    (IsEvent e × (e.source_id ≡ source) × All (λ f. e.source_event_id ≢ f.source_event_id) rest)
    × AreEvents source rest

pub record IsBatch (b : RawSourceBatch) (limit : ℕ) : Type 0 where
  pub some_limit : 0 < limit
  pub limited : limit ≤ 10_000
  pub source : IsName b.source_id
  pub cursor : IsCursor b.proposed_cursor
  pub same_source : b.proposed_cursor.source_id ≡ b.source_id
  pub few : length b.events ≤ limit
  pub events : AreEvents b.source_id b.events

name_iff :
    (t : Text)
    → ((is_empty t || ltb 512 (byte_len t) || has_control t) ≡ false)
      ↔ ((0 < length t) × (byte_len t ≤ 512) × (has_control t ≡ false))
name_iff [] = (λ h. cc, λ h. absurd (omega (arith, h.0)))
name_iff (c ∷ t) = (λ h. (omega arith, ground arith, ground arith), λ h. ground arith)

pub validate_id_iff : (t : Text) (field : String) → (validate_id t field ≡ ok tt) ↔ IsName t
unfolding validate_id
validate_id_iff t field = (
  λ h.
      let (more, short, plain) = (name_iff t).0 ((refuse_if_iff _ _).0 h) in
      record { some_char = more; short = short; printable = (has_control_iff t).0 plain },
  λ v.
      (refuse_if_iff _ _).1
        ((name_iff t).1 (v.some_char, v.short, (has_control_iff t).1 v.printable)),
)

bounded_iff :
    (bound : ℕ) (bs : List ℕ) → ((is_empty bs || ltb bound (length bs)) ≡ false) ↔ IsBytes bound bs
bounded_iff bound [] = (λ h. cc, λ v. absurd (omega (arith, v.some_byte)))
bounded_iff bound (b ∷ bs) = (
  λ h. record { some_byte = omega arith; bounded = ground arith },
  λ v. ground (arith, v.bounded),
)

positive_iff : (n : ℕ) → ((n == 0) ≡ false) ↔ (0 < n)
positive_iff n = (λ h. ground arith, λ h. ground arith)

pub validate_cursor_iff : (c : ConnectorCursor) → (validate_cursor c ≡ ok tt) ↔ IsCursor c
unfolding validate_cursor
validate_cursor_iff c = (
  λ h.
      let (source, h₁) = (>>_iff (validate_id c.source_id _) _).0 h in
      let (version, bytes) = (>>_iff (refuse_if (c.cursor_version == 0) _) _).0 h₁ in
      record {
        source = (validate_id_iff _ _).0 source;
        version = (positive_iff _).0 ((refuse_if_iff _ _).0 version);
        bytes = (bounded_iff _ _).0 ((refuse_if_iff _ _).0 bytes);
      },
  λ v. rw (
    (validate_id_iff _ "cursor.source_id").1 v.source,
    (positive_iff _).1 v.version,
    (bounded_iff 65_536 _).1 v.bytes,
  ),
)

validate_owner_iff : (v : TenantVisibility) → (validate_owner v ≡ ok tt) ↔ OwnerIsName v
unfolding validate_owner
validate_owner_iff public = (λ h. tt, λ h. refl)
validate_owner_iff (tenant t) = validate_id_iff t "raw_event.tenant_id"

pub validate_event_iff : (e : RawSourceEvent) → (validate_event e ≡ ok tt) ↔ IsEvent e
unfolding validate_event
validate_event_iff e = (
  λ h.
      let (source, h₁) = (>>_iff (validate_id e.source_id _) _).0 h in
      let (event, h₂) = (>>_iff (validate_id e.source_event_id _) _).0 h₁ in
      let (media, h₃) = (>>_iff (validate_id e.media_type _) _).0 h₂ in
      let (time, h₄) = (>>_iff (refuse_if (e.observed_at == 0) _) _).0 h₃ in
      let (bytes, owner) =
        (>>_iff (refuse_if (is_empty e.bytes || ltb 8_388_608 (length e.bytes)) _) _).0 h₄ in
      record {
        source = (validate_id_iff _ _).0 source;
        event = (validate_id_iff _ _).0 event;
        media = (validate_id_iff _ _).0 media;
        time = (positive_iff _).0 ((refuse_if_iff _ _).0 time);
        bytes = (bounded_iff _ _).0 ((refuse_if_iff _ _).0 bytes);
        owner = (validate_owner_iff _).0 owner;
      },
  λ v. rw (
    (validate_id_iff _ "raw_event.source_id").1 v.source,
    (validate_id_iff _ "raw_event.source_event_id").1 v.event,
    (validate_id_iff _ "raw_event.media_type").1 v.media,
    (positive_iff _).1 v.time,
    (bounded_iff 8_388_608 _).1 v.bytes,
    (validate_owner_iff _).1 v.owner,
  ),
)

-- No event has an id that was seen before.
abbrev Unseen : List Text → List RawSourceEvent → Type 0
Unseen ids es = All (λ e. All (λ s. s ≢ e.source_event_id) ids) es

Unseen-cons :
    (id : Text) (ids : List Text) (es : List RawSourceEvent)
    → Unseen ids es
    → All (λ f. id ≢ f.source_event_id) es
    → Unseen (id ∷ ids) es
Unseen-cons id ids [] u a = tt
Unseen-cons id ids (e ∷ es) u a = ((a.0, u.0), Unseen-cons id ids es u.1 a.1)

Unseen-uncons :
    (id : Text) (ids : List Text) (es : List RawSourceEvent)
    → Unseen (id ∷ ids) es
    → Unseen ids es × All (λ f. id ≢ f.source_event_id) es
Unseen-uncons id ids [] u = (tt, tt)
Unseen-uncons id ids (e ∷ es) u =
    let (rest, apart) = Unseen-uncons id ids es u.1 in (((u.0).1, rest), ((u.0).0, apart))

Unseen-nil : (es : List RawSourceEvent) → Unseen [] es
Unseen-nil [] = tt
Unseen-nil (e ∷ es) = (tt, Unseen-nil es)

validate_events_iff :
    (source : Text) (ids : List Text) (es : List RawSourceEvent)
    → (validate_events source ids es ≡ ok tt) ↔ (AreEvents source es × Unseen ids es)
unfolding validate_events
validate_events_iff source ids [] = (λ h. (tt, tt), λ h. refl)
validate_events_iff source ids (e ∷ es) = (
  λ h.
      let (event, h₁) = (>>_iff (validate_event e) _).0 h in
      let (own, h₂) = (>>_iff (refuse_if (not (text_eq e.source_id source)) _) _).0 h₁ in
      let (new, rest) = (>>_iff (refuse_if (contains ids e.source_event_id) _) _).0 h₂ in
      let (events, unseen) = (validate_events_iff source (e.source_event_id ∷ ids) es).0 rest in
      let (before, apart) = Unseen-uncons e.source_event_id ids es unseen in
      (
        (
          (
            (validate_event_iff e).0 event,
            (not-text_eq_iff _ _).0 ((refuse_if_iff _ _).0 own),
            apart,
          ),
          events,
        ),
        ((contains_iff ids e.source_event_id).0 ((refuse_if_iff _ _).0 new), before),
      ),
  λ v.
      rw
        (
          (validate_event_iff e).1 ((v.0).0).0,
          (not-text_eq_iff _ _).1 ((v.0).0).1,
          (contains_iff ids e.source_event_id).1 (v.1).0,
        )
        ((validate_events_iff source (e.source_event_id ∷ ids) es).1
          ((v.0).1, Unseen-cons e.source_event_id ids es (v.1).1 ((v.0).0).2)),
)

limit_iff : (n : ℕ) → ((n == 0 || ltb 10_000 n) ≡ false) ↔ ((0 < n) × (n ≤ 10_000))
limit_iff n = (λ h. (ground arith, ground arith), λ h. ground arith)

few_iff : (n m : ℕ) → (ltb n m ≡ false) ↔ (m ≤ n)
few_iff n m = (λ h. ground arith, λ h. ground arith)

-- A batch is accepted exactly when it stays within the requested limit, its cursor and all its
-- events are sound and of its own source, and no event id occurs twice.
pub validate_batch_iff :
    (b : RawSourceBatch) (limit : ℕ) → (validate_batch b limit ≡ ok tt) ↔ IsBatch b limit
unfolding validate_batch validate_limit
validate_batch_iff b limit = (
  λ h.
      let (limited, h₁) = (>>_iff (refuse_if (limit == 0 || ltb 10_000 limit) _) _).0 h in
      let (source, h₂) = (>>_iff (validate_id b.source_id _) _).0 h₁ in
      let (cursor, h₃) = (>>_iff (validate_cursor b.proposed_cursor) _).0 h₂ in
      let (own, h₄) =
        (>>_iff (refuse_if (not (text_eq b.proposed_cursor.source_id b.source_id)) _) _).0 h₃ in
      let (few, events) = (>>_iff (refuse_if (ltb limit (length b.events)) _) _).0 h₄ in
      let (some_limit, at_most) = (limit_iff limit).0 ((refuse_if_iff _ _).0 limited) in
      record {
        some_limit = some_limit;
        limited = at_most;
        source = (validate_id_iff _ _).0 source;
        cursor = (validate_cursor_iff _).0 cursor;
        same_source = (not-text_eq_iff _ _).0 ((refuse_if_iff _ _).0 own);
        few = (few_iff _ _).0 ((refuse_if_iff _ _).0 few);
        events = ((validate_events_iff b.source_id [] b.events).0 events).0;
      },
  λ v.
      rw
        (
          (limit_iff limit).1 (v.some_limit, v.limited),
          (validate_id_iff _ "batch.source_id").1 v.source,
          (validate_cursor_iff _).1 v.cursor,
          (not-text_eq_iff _ _).1 v.same_source,
          (few_iff limit (length b.events)).1 v.few,
        )
        ((validate_events_iff b.source_id [] b.events).1 (v.events, Unseen-nil b.events)),
)
