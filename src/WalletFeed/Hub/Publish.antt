-- ===== src/WalletFeed/Hub/Publish.antt =====
-- `WalletFeedHub::publish` over a database: what each outcome means, and what a restart finds.
use tuppira.Base.{
  suc, ◌+◌, ◌<◌, Text, Bool, true, false, none, some, List, [], ◌∷◌, ◌++◌, Result, ok, err, length,
  length-append, ◌≡◌, refl, sym, subst, ap, arith, Option-cases, Result-cases, inl, inr, ◌⊎◌, ◌∙◌,
}
use tuppira.WalletFeed.Protocol.{Protocol}
use tuppira.WalletFeed.Envelope.{WalletFeedEnvelope}
use tuppira.WalletFeed.Projection
use tuppira.WalletFeed.Projection.{WalletFeedProjection, apply, since}
use tuppira.WalletFeed.Projection.Reads.{since_lem}
use tuppira.WalletFeed.Projection.History.{Indexes-empty}
use tuppira.WalletFeed.Projection.Step.{Admitted, apply-cases}
use tuppira.WalletFeed.Hub.{
  Codec, Table, HubError, not_serialized, WalletFeedHub, load, from_pool, persist, finish,
  publish_applied, publish,
}
use tuppira.WalletFeed.Hub.Durable.{IsDurable, signed_limit, persist-Admitted, extended-IsDurable}

module _ (P : Protocol) (C : Codec P) where
  -- Whatever step fails, a publish that returns an error has left the hub as it was.
  pub publish-err :
      (h : WalletFeedHub P C) (e : WalletFeedEnvelope P) (reached : Bool) {problem : HubError}
      → (publish P C h e reached).0 ≡ err problem
      → (publish P C h e reached).1 ≡ h
  unfolding publish publish_applied finish
  publish-err h e reached x = ground arith

  -- A publish stores and sends one envelope, or it does nothing at all.
  abbrev pub Published :
      WalletFeedHub P C
      → List (WalletFeedEnvelope P)
      → WalletFeedEnvelope P
      → Result HubError (Unit {0}) × WalletFeedHub P C
      → Type 0
  Published h log e (r, h') =
      (h' ≡ h)
      ⊎ ((r ≡ ok tt) × IsDurable P C h' (log ++ e ∷ []) × (h'.published ≡ h.published ++ e ∷ []))

  module _ (h : WalletFeedHub P C) (log : List (WalletFeedEnvelope P)) (e : WalletFeedEnvelope P)
      (d : IsDurable P C h log) (room : suc (length log) < signed_limit) where
    unserializable :
        (reached : Bool) → C.to_json e ≡ none → persist P C h.pool e reached ≡ err not_serialized
    unfolding persist
    unserializable reached j = ap (λ pool. persist P C pool e reached) d.pool ∙ rw j

    admitted :
        {p' : WalletFeedProjection P}
        → apply P h.projection e ≡ ok (true, p')
        → Admitted P h.projection e p'
    admitted a = elim (apply-cases P h.projection e a) [
      | inl (fresh, x) ↦ x
      | inr (replayed, _, _) ↦ cc
    ]

    stored :
        (reached : Bool) (json : Text) {p' : WalletFeedProjection P}
        → apply P h.projection e ≡ ok (true, p')
        → C.to_json e ≡ some json
        → Published h log e (finish P C h e p' (persist P C h.pool e reached))
    unfolding finish
    stored true json a j =
        rw (persist-Admitted P C h log e json true d room (admitted a) j)
          (inr (refl, extended-IsDurable P C h log e json d room a j, refl))
    stored false json a j =
        rw (persist-Admitted P C h log e json false d room (admitted a) j) (inl refl)

    finish-Published :
        (reached : Bool) {p' : WalletFeedProjection P}
        → apply P h.projection e ≡ ok (true, p')
        → Published h log e (finish P C h e p' (persist P C h.pool e reached))
    finish-Published reached a = elim (Option-cases (C.to_json e)) [
      | inl j ↦ unfold finish in rw (unserializable reached j) (inl refl)
      | inr (json, j) ↦ stored reached json a j
    ]

    applied-Published :
        (reached b : Bool) (p' : WalletFeedProjection P)
        → apply P h.projection e ≡ ok (b, p')
        → Published h log e (publish_applied P C h e reached (ok (b, p')))
    unfolding publish_applied
    applied-Published reached true p' a = finish-Published reached a
    applied-Published reached false p' a = inl refl

    -- A publish to a durable hub with room for one more row either changes nothing, or stores and
    -- sends the envelope and keeps the hub durable, also when the database fails.
    pub publish-Published : (reached : Bool) → Published h log e (publish P C h e reached)
    unfolding publish
    publish-Published reached = elim (Result-cases (apply P h.projection e)) [
      | inl ((b, p'), a) ↦ rw a (applied-Published reached b p' a)
      | inr (message, a) ↦ rw a (inl (unfold publish_applied in refl))
    ]

    -- The table's constraints never stand in the way: an envelope that the projection of a durable
    -- hub admits and JSON can write, with room for one more row, is stored behind the log and sent
    -- when the database is reached, and the publish succeeds.
    pub publish-admitted :
        (json : Text) {p' : WalletFeedProjection P}
        → apply P h.projection e ≡ ok (true, p')
        → C.to_json e ≡ some json
        → ((publish P C h e true).0 ≡ ok tt)
          × IsDurable P C (publish P C h e true).1 (log ++ e ∷ [])
          × ((publish P C h e true).1.published ≡ h.published ++ e ∷ [])
    unfolding publish publish_applied finish
    publish-admitted json a j =
        rw (a, persist-Admitted P C h log e json true d room (admitted a) j)
          (refl, extended-IsDurable P C h log e json d room a j, refl)

  pub publish_all : WalletFeedHub P C → List (WalletFeedEnvelope P × Bool) → WalletFeedHub P C
  publish_all h [] = h
  publish_all h ((e, reached) ∷ rest) = publish_all (publish P C h e reached).1 rest

  -- The hub over a fresh table.
  abbrev pub fresh : WalletFeedHub P C
  fresh = record { projection = Projection.empty P; published = []; pool = some [] }

  pub fresh-IsDurable : IsDurable P C fresh []
  unfolding load
  fresh-IsDurable = record {
    rows = [];
    pool = refl;
    indexes = Indexes-empty P;
    stores = tt;
    loads = refl;
  }

  -- The hub with what it has sent, which is the log.
  abbrev Sent : WalletFeedHub P C → List (WalletFeedEnvelope P) → Type 0
  Sent h log = IsDurable P C h log × (h.published ≡ log)

  publish_all-Sent :
      (h : WalletFeedHub P C) (log : List (WalletFeedEnvelope P))
      (es : List (WalletFeedEnvelope P × Bool))
      → Sent h log
      → length log + length es < signed_limit
      → (log' : List (WalletFeedEnvelope P)) × Sent (publish_all h es) log'
  unfolding publish_all
  publish_all-Sent h log [] s room = (log, s)
  publish_all-Sent h log ((e, reached) ∷ es) s room =
      elim (publish-Published h log e s.0 (omega (arith, room)) reached) [
        | inl same ↦
            publish_all-Sent (publish P C h e reached).1 log es
              (subst (λ g. Sent g log) (sym same) s) (omega (arith, room))
        | inr (done, durable, sent) ↦
            publish_all-Sent (publish P C h e reached).1 (log ++ e ∷ []) es
              (durable, sent ∙ ap (λ l. l ++ e ∷ []) s.1)
              (omega (arith, room, length-append log (e ∷ [])))
      ]

  -- After fewer than 2 ^ 63 publishes to a fresh table, whatever failed among them, a restart finds the same
  -- projection in the table, and a reader from the start gets what was sent, in that order.
  pub from_pool-publish_all :
      (es : List (WalletFeedEnvelope P × Bool))
      → length es < signed_limit
      → (rows : Table) × ((publish_all fresh es).pool ≡ some rows)
        × (from_pool P C rows
            ≡ ok (record {
              projection = (publish_all fresh es).projection;
              published = [];
              pool = some rows;
            }))
        × (since P (publish_all fresh es).projection 0 ≡ (publish_all fresh es).published)
  unfolding from_pool
  from_pool-publish_all es room =
      let (log, kept) = publish_all-Sent fresh [] es (fresh-IsDurable, refl) (omega arith) in
      let (durable, sent) = kept in
      (
        durable.rows,
        durable.pool,
        rw durable.loads,
        since_lem P _ log 0 durable.indexes (omega arith) ∙ sym sent,
      )
