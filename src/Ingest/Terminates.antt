-- ===== src/Ingest/Terminates.antt =====
-- indexer/src/ingest.rs: the rounds of a pass over a feed that ends.
use tuppira.Base.{
  ℕ, zero, suc, ◌+◌, ◌^◌, ◌≤◌, ◌<◌, List, [], ◌∷◌, Option, none, some, Bool, true, false, Result,
  ok, err, >>=-eq-ok, >>_iff, map_err, map_err_iff, is_empty, length, if◌then◌else◌, All, ◌≡◌, ◌≢◌,
  refl, ◌∙◌, subst, arith,
}
use tuppira.Connector.Contract.{
  ConnectorResult, ConnectorCursor, RawSourceEvent, max_discovery_limit,
}
use tuppira.Connector.Checks.{validate_batch}
use tuppira.Piteka.Export.{SignedPitekaExport, decode_cursor}
use tuppira.Piteka.Externals.{Externals}
use tuppira.Piteka.Feed.{
  PitekaFeedPage, PitekaEvidenceFeedConnector, connector, discover, checkpoint,
}
use tuppira.Piteka.Feed.Discovery.{Consecutive, discover-IsDiscovered}
use tuppira.Store.Schema.{Store}
use tuppira.Ingest.{
  IngestError, discover_failed, checkpoint_failed, State, no_summary, ingest_events, ingest_batch,
  round, after_round, drain, register, after_register, ingest,
}

abbrev Later : Type 0
Later = State × Option ConnectorCursor

none_cases :
    (r : Result IngestError Later)
    (go_on : ConnectorCursor → State → Option (Result IngestError State))
    → after_round r go_on ≡ none
    → (later : ConnectorCursor) × (mid : State) × (r ≡ ok (mid, some later))
      × (go_on later mid ≡ none)
unfolding after_round
none_cases (err error) go_on h = cc (h)
none_cases (ok (mid, none)) go_on h = cc (h)
none_cases (ok (mid, some later)) go_on h = (later, mid, refl, h)

registered_none :
    (r : Result IngestError Store) (go_on : Store → Option (Result IngestError State))
    → after_register r go_on ≡ none
    → (ready : Store) × (go_on ready ≡ none)
unfolding after_register
registered_none (err error) go_on h = cc (h)
registered_none (ok ready) go_on h = (ready, h)

some_event : (events : List RawSourceEvent) → is_empty events ≡ false → 0 < length events
some_event [] h = cc (h)
some_event (raw ∷ raws) h = omega arith

went_on :
    (b : Bool) (state : State) {mid : State} {later : ConnectorCursor}
    {more : Result IngestError Later}
    → (if b then ok (state, none) else more) ≡ ok (mid, some later)
    → (b ≡ false) × (more ≡ ok (mid, some later))
went_on true state h = cc (h)
went_on false state h = (refl, h)

cursor_of :
    {s t : State} {a b : ConnectorCursor}
    → ◌≡◌ {A = Result IngestError Later} (ok (s, some a)) (ok (t, some b))
    → a ≡ b
cursor_of h = cc (h)

checked_cursor :
    {a b : ConnectorCursor} → ◌≡◌ {A = ConnectorResult ConnectorCursor} (ok a) (ok b) → a ≡ b
checked_cursor h = cc (h)

-- Consecutive sequences that stay below a bound are no more than fit below it.
Consecutive-length :
    (after last : ℕ) (es : List SignedPitekaExport)
    → after ≤ last
    → Consecutive after es
    → All (λ e. e.sequence ≤ last) es
    → after + length es ≤ last
Consecutive-length after last [] small ordered below = omega (arith, small)
Consecutive-length after last (e ∷ es) small ordered below =
    let rest =
      Consecutive-length (suc after) last es (omega (arith, ordered.0, below.0)) ordered.1
        below.1 in
    omega (arith, rest)

module _ (X : Externals) (c : PitekaEvidenceFeedConnector X) (last : ℕ) (room : last + 64 < 2 ^ 64)
    (ends : (after limit : ℕ) (page : PitekaFeedPage)
      → c.fetch after limit ≡ ok page
      → All (λ e. e.sequence ≤ last) page.exports) where
  -- What a round that goes on has done: the next cursor stands further.
  round-later :
      (after : ℕ) (cursor : Option ConnectorCursor) (state mid : State) (later : ConnectorCursor)
      → decode_cursor cursor c.config.source_id ≡ ok after
      → after ≤ last
      → round (connector X c) c.config.source_id cursor state ≡ ok (mid, some later)
      → (next : ℕ) × (decode_cursor (some later) c.config.source_id ≡ ok next)
        × (after < next)
        × (next ≤ last)
  unfolding round ingest_batch connector checkpoint
  round-later after cursor state mid later start small h =
      let (batch, found, h₁) = >>=-eq-ok (map_err discover_failed (discover X c cursor 64)) _ h in
      let (nonempty, more) = went_on (is_empty batch.events) state h₁ in
      let (_, _, h₂) =
        >>=-eq-ok (ingest_events (connector X c) c.config.source_id state batch.events) _ more in
      let (_, checked, h₃) = >>=-eq-ok (map_err checkpoint_failed (checkpoint X batch)) _ h₂ in
      let (_, result) =
        (>>_iff (validate_batch batch max_discovery_limit) _).0 ((map_err_iff _ _).0 checked) in
      let proposed = checked_cursor result ∙ cursor_of h₃ in
      let d =
        discover-IsDiscovered X c cursor after 64 batch start (omega (arith, small, room))
          ((map_err_iff _ _).0 found) in
      let below =
        Consecutive-length after last d.page.exports small d.ordered
          (ends after 64 d.page d.fetched) in
      let some_new = some_event batch.events nonempty in
      (
        after + length batch.events,
        subst (λ k. decode_cursor (some k) c.config.source_id ≡ ok (after + length batch.events))
            proposed d.resumes,
        omega (arith, some_new),
        omega (arith, below, d.count),
      )

  drain-terminates :
      (fuel after : ℕ) (cursor : Option ConnectorCursor) (state : State)
      → decode_cursor cursor c.config.source_id ≡ ok after
      → after ≤ last
      → last < after + fuel
      → drain fuel (connector X c) c.config.source_id cursor state ≢ none
  unfolding drain
  drain-terminates zero after cursor state start small enough h = omega (arith, small, enough)
  drain-terminates (suc fuel) after cursor state start small enough h =
      let (later, mid, went, again) =
        none_cases (round (connector X c) c.config.source_id cursor state) _ h in
      let (next, stands, further, within) =
        round-later after cursor state mid later start small went in
      drain-terminates fuel next (some later) mid stands within (omega (arith, further, enough))
        again

  -- Over a feed whose sequences end at `last`, which leaves room for a page below 2 ^ 64, the pass is done within `last + 1` rounds, with
  -- whatever the feed and the store hold: each round that goes on moves the cursor.
  pub ingest-terminates :
      (now : ℕ) (s : Store) → ingest (suc last) (connector X c) c.config now s ≢ none
  unfolding ingest decode_cursor
  ingest-terminates now s h =
      let (ready, drained) = registered_none (register s c.config now) _ h in
      drain-terminates (suc last) 0 none (ready, no_summary) refl (omega arith) (omega arith)
        drained
