-- ===== src/Ingest/Safe.antt =====
-- indexer/src/ingest.rs: the writes of a pass to the store.
use tuppira.Base.{
  ℕ, zero, suc, Text, List, [], ◌∷◌, Option, none, some, Bool, true, false, Result, ok, err,
  >>=-eq-ok, map_err, is_empty, if◌then◌else◌, ◌≡◌, ◌⊎◌, inl, inr, refl, subst, ap,
}
use tuppira.Observation.Records.{ObservationRecord, RawPayloadDescriptor}
use tuppira.Connector.Contract.{
  ConnectorResult, ConnectorCursor, RawSourceEvent, NormalizedObservationInput, SourceConnector,
}
use tuppira.Connector.Gate.{authenticate_and_normalize}
use tuppira.Piteka.Feed.{PitekaFeedConfig}
use tuppira.Store.Schema.{StoreError, StoreResult, Store}
use tuppira.Store.Repository.{
  insert_retention_class, insert_source, insert_collection_run, insert_raw_payload_descriptor,
  append_observation, get_observation,
}
use tuppira.Store.Reachable.{
  Write, write_class, write_source, write_run, write_payload, write_observation, Reachable, step,
  IsSound, Reachable-IsSound,
}
use tuppira.Ingest.{
  IngestError, checkpoint_failed, discover_failed, State, is_conflict, ignore_conflict,
  insert_descriptor, sync_cursor, count_duplicate, count_append, ingest_candidate, ingest_events,
  ingest_batch, round, after_round, after_register, drain, no_summary, register, ingest,
  discovery_limit,
}

abbrev Stored : State → Type 0
Stored state = Reachable state.0

ok_of : {s t : Store} → ◌≡◌ {A = Result IngestError Store} (ok s) (ok t) → s ≡ t
ok_of h = cc (h)

state_of : {s t : State} → ◌≡◌ {A = Result IngestError State} (ok s) (ok t) → s ≡ t
state_of h = cc (h)

ignored :
    (b : Bool) (e : IngestError) {s t : Store}
    → ◌≡◌ {A = Result IngestError Store} (if b then ok s else err e) (ok t)
    → s ≡ t
ignored true e h = cc (h)
ignored false e h = cc (h)

counted :
    (state next : State) (id : Text) (error : StoreError) (r : StoreResult ObservationRecord)
    → Reachable state.0
    → count_duplicate state id error r ≡ ok next
    → Reachable next.0
unfolding count_duplicate
counted (s, n) next id error (ok r) reached h =
    subst Reachable (ap (λ (k : State). k.0) (state_of h)) reached
counted (s, n) next id error (err missing) reached h = cc (h)

ignore_conflict-Reachable :
    (s t : Store) (r : StoreResult Store)
    → ((u : Store) → r ≡ ok u → Write s u)
    → Reachable s
    → ignore_conflict s r ≡ ok t
    → Reachable t
unfolding ignore_conflict
ignore_conflict-Reachable s t (ok u) write reached h =
    subst Reachable (ok_of h) (step s u reached (write u refl))
ignore_conflict-Reachable s t (err error) write reached h =
    subst Reachable (ignored (is_conflict error) _ h) reached

insert_descriptor-Reachable :
    (s t : Store) (d : Option RawPayloadDescriptor)
    → Reachable s
    → insert_descriptor s d ≡ ok t
    → Reachable t
unfolding insert_descriptor
insert_descriptor-Reachable s t none reached h = subst Reachable (ok_of h) reached
insert_descriptor-Reachable s t (some d) reached h =
    ignore_conflict-Reachable s t (insert_raw_payload_descriptor s d) (λ u e. write_payload s d u e)
      reached h

count_append-Reachable :
    (state next : State) (id : Text) (r : StoreResult Store)
    → ((u : Store) → r ≡ ok u → Write state.0 u)
    → Reachable state.0
    → count_append state id r ≡ ok next
    → Reachable next.0
unfolding count_append
count_append-Reachable (old, n) next id (ok t) write reached h =
    subst Reachable (ap (λ (k : State). k.0) (state_of h)) (step old t reached (write t refl))
count_append-Reachable (old, n) next id (err error) write reached h =
    counted (old, n) next id error (get_observation old id) reached h

ingest_candidate-Reachable :
    (source_id : Text) (state next : State) (r : ConnectorResult NormalizedObservationInput)
    → Reachable state.0
    → ingest_candidate source_id state r ≡ ok next
    → Reachable next.0
unfolding ingest_candidate
ingest_candidate-Reachable source_id (s, n) next (err error) reached h =
    subst Reachable (ap (λ (k : State). k.0) (state_of h)) reached
ingest_candidate-Reachable source_id (s, n) next (ok x) reached h =
    let (t, inserted, h₁) = >>=-eq-ok (insert_descriptor s x.raw_payload) _ h in
    count_append-Reachable _ next (x.observation).observation_id
      (append_observation t x.observation (sync_cursor source_id x.observation))
      (λ u e. write_observation t x.observation (sync_cursor source_id x.observation) u e)
      (insert_descriptor-Reachable s t x.raw_payload reached inserted) h₁

ingest_events-Reachable :
    (c : SourceConnector) (source_id : Text) (state next : State) (raws : List RawSourceEvent)
    → Reachable state.0
    → ingest_events c source_id state raws ≡ ok next
    → Reachable next.0
unfolding ingest_events
ingest_events-Reachable c source_id state next [] reached h =
    subst Reachable (ap (λ (k : State). k.0) (state_of h)) reached
ingest_events-Reachable c source_id state next (raw ∷ raws) reached h =
    let (mid, one, rest) =
      >>=-eq-ok (ingest_candidate source_id state (authenticate_and_normalize c raw 1)) _ h in
    ingest_events-Reachable c source_id mid next raws
      (ingest_candidate-Reachable source_id state mid (authenticate_and_normalize c raw 1) reached
        one)
      rest

abbrev Later : Type 0
Later = State × Option ConnectorCursor

later_of :
    {s t : State} {a b : Option ConnectorCursor}
    → ◌≡◌ {A = Result IngestError Later} (ok (s, a)) (ok (t, b))
    → s ≡ t
later_of h = cc (h)

batch_cases :
    (b : Bool) (state next : State) (later : Option ConnectorCursor)
    (more : Result IngestError Later)
    → (if b then ok (state, none) else more) ≡ ok (next, later)
    → (state ≡ next) ⊎ (more ≡ ok (next, later))
batch_cases true state next later more h = inl (later_of h)
batch_cases false state next later more h = inr h

ended :
    {s t : State}
    → ◌≡◌ {A = Option (Result IngestError State)} (some (ok s)) (some (ok t))
    → ◌≡◌ {A = Result IngestError Later} (ok (s, none)) (ok (t, none))
ended h = cc (h)

after_cases :
    (r : Result IngestError Later)
    (go_on : ConnectorCursor → State → Option (Result IngestError State)) (next : State)
    → after_round r go_on ≡ some (ok next)
    → (r ≡ ok (next, none))
      ⊎ ((later : ConnectorCursor) × (mid : State) × (r ≡ ok (mid, some later))
          × (go_on later mid ≡ some (ok next)))
unfolding after_round
after_cases (err error) go_on next h = cc (h)
after_cases (ok (mid, none)) go_on next h = inl (ended h)
after_cases (ok (mid, some later)) go_on next h = inr (later, mid, refl, h)

round-Reachable :
    (c : SourceConnector) (source_id : Text) (cursor : Option ConnectorCursor) (state next : State)
    (later : Option ConnectorCursor)
    → Reachable state.0
    → round c source_id cursor state ≡ ok (next, later)
    → Reachable next.0
unfolding round ingest_batch
round-Reachable c source_id cursor state next later reached h =
    let (batch, _, h₁) =
      >>=-eq-ok (map_err discover_failed (c.discover cursor discovery_limit)) _ h in
    elim (batch_cases (is_empty batch.events) state next later _ h₁) [
      | inl same ↦ subst Stored same reached
      | inr more ↦
          let (mid, events, h₂) = >>=-eq-ok (ingest_events c source_id state batch.events) _ more in
          let (_, _, h₃) = >>=-eq-ok (map_err checkpoint_failed (c.checkpoint batch)) _ h₂ in
          subst Stored (later_of h₃)
            (ingest_events-Reachable c source_id state mid batch.events reached events)
    ]

drain-Reachable :
    (fuel : ℕ) (c : SourceConnector) (source_id : Text) (cursor : Option ConnectorCursor)
    (state next : State)
    → Reachable state.0
    → drain fuel c source_id cursor state ≡ some (ok next)
    → Reachable next.0
unfolding drain
drain-Reachable zero c source_id cursor state next reached h = cc (h)
drain-Reachable (suc fuel) c source_id cursor state next reached h =
    elim (after_cases (round c source_id cursor state) _ next h) [
      | inl ended ↦ round-Reachable c source_id cursor state next none reached ended
      | inr more ↦
          drain-Reachable fuel c source_id (some more.0) more.1 next
            (round-Reachable c source_id cursor state more.1 (some more.0) reached more.2) more.3
    ]

register_cases :
    (r : Result IngestError Store) (go_on : Store → Option (Result IngestError State))
    (next : State)
    → after_register r go_on ≡ some (ok next)
    → (ready : Store) × (r ≡ ok ready) × (go_on ready ≡ some (ok next))
unfolding after_register
register_cases (err error) go_on next h = cc (h)
register_cases (ok ready) go_on next h = (ready, refl, h)

register-Reachable :
    (s t : Store) (config : PitekaFeedConfig) (now : ℕ)
    → Reachable s
    → register s config now ≡ ok t
    → Reachable t
unfolding register
register-Reachable s t config now reached h =
    let (u, first, h₁) = >>=-eq-ok (ignore_conflict s (insert_retention_class s _)) _ h in
    let (v, second, third) = >>=-eq-ok (ignore_conflict u (insert_source u _)) _ h₁ in
    ignore_conflict-Reachable v t (insert_collection_run v _) (λ k e. write_run v _ k e)
      (ignore_conflict-Reachable u v (insert_source u _) (λ k e. write_source u _ k e)
        (ignore_conflict-Reachable s u (insert_retention_class s _) (λ k e. write_class s _ k e)
          reached first)
        second)
      third

-- A pass over any source writes only what the repository allows: from a store that its writes
-- reach, a pass that ends leads to such a store, whatever the source sends, so that ids stay
-- unique, corrections keep their lineage and cursors never fall behind their observations.
pub ingest-Reachable :
    (fuel : ℕ) (c : SourceConnector) (config : PitekaFeedConfig) (now : ℕ) (s : Store)
    (next : State)
    → Reachable s
    → ingest fuel c config now s ≡ some (ok next)
    → Reachable next.0 × IsSound next.0
unfolding ingest
ingest-Reachable fuel c config now s next reached h =
    let (ready, registered, drained) = register_cases (register s config now) _ next h in
    let end =
      drain-Reachable fuel c config.source_id none (ready, no_summary) next
        (register-Reachable s ready config now reached registered) drained in
    (end, Reachable-IsSound next.0 end)
