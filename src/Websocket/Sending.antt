-- ===== src/Websocket/Sending.antt =====
-- api/src/websocket.rs: what the sends of a broadcast do to the channels.
use tuppira.Base.{
  suc, ℕ, ◌==◌, ==_iff, ◌||◌, List, [], ◌∷◌, Option, none, some, Bool, Bool-cases, true, false,
  if◌then◌else◌, ◌≡◌, inl, inr, refl, sym, ap, ◌∙◌, subst,
}
use mathlib.Core.Path.{fun_ext}
use tuppira.Base.Maps.{get_at, insert_at, get_at-insert_at}
use tuppira.Websocket.Events.{SubscriptionEvent}
use tuppira.Websocket.Manager.{Channel, Channels, push, send_to, send, sent_or_failed, send_all}
use tuppira.Websocket.Removal.{failed_from}

abbrev pub mem : ℕ → List ℕ → Bool
mem n [] = false
mem n (x ∷ xs) = x == n || mem n xs

abbrev pub IsDistinct : List ℕ → Type 0
IsDistinct [] = Unit
IsDistinct (x ∷ xs) = (mem x xs ≡ false) × IsDistinct xs

if-same {ℓ} : {A : Type ℓ} (b : Bool) {x y : A} → x ≡ y → (if b then x else y) ≡ y
if-same true e = e
if-same false e = refl

module _ {Json : Type 0} where
  abbrev pub open_of : Option (Channel Json) → Bool
  open_of none = false
  open_of (some c) = c.is_open

  -- Whether the receiver of a channel is still there.
  abbrev pub is_open_at : Channels Json → ℕ → Bool
  is_open_at channels tx = open_of (get_at channels tx)

  -- An open channel with one event more.
  abbrev pub with_event : SubscriptionEvent Json → Option (Channel Json) → Option (Channel Json)
  with_event event none = none
  with_event event (some c) = some (if c.is_open then push c event else c)

  with_event-closed :
      (event : SubscriptionEvent Json) (o : Option (Channel Json))
      → open_of o ≡ false
      → with_event event o ≡ o
  with_event-closed event none h = refl
  with_event-closed event (some c) h = rw h

  send_to-closed :
      (channels : Channels Json) (tx : ℕ) (event : SubscriptionEvent Json)
      (o : Option (Channel Json))
      → open_of o ≡ false
      → send_to channels tx event o ≡ none
  unfolding send_to
  send_to-closed channels tx event none h = refl
  send_to-closed channels tx event (some c) h = rw h

  send_to-open :
      (channels : Channels Json) (tx : ℕ) (event : SubscriptionEvent Json)
      (o : Option (Channel Json))
      → open_of o ≡ true
      → (c : Channel Json) × (c.is_open ≡ true)
        × (o ≡ some c)
        × (send_to channels tx event o ≡ some (insert_at channels tx (push c event)))
  unfolding send_to
  send_to-open channels tx event none h = cc (h)
  send_to-open channels tx event (some c) h = (c, h, refl, rw h)

  -- A send leaves each receiver where it is.
  is_open_at-push :
      (channels : Channels Json) (tx : ℕ) (event : SubscriptionEvent Json) (c : Channel Json)
      → c.is_open ≡ true
      → get_at channels tx ≡ some c
      → is_open_at (insert_at channels tx (push c event)) ≡ is_open_at channels
  unfolding push
  is_open_at-push channels tx event c up at = fun_ext (λ id. elim (Bool-cases (tx == id)) [
    | inl same ↦
        rw (get_at-insert_at channels tx id (push c event), same)
          (up
            ∙ sym (
                ap open_of (subst (λ n. get_at channels n ≡ some c) ((==_iff tx id).0 same) at)
                ∙ up))
    | inr apart ↦ rw (get_at-insert_at channels tx id (push c event), apart)
  ])

  -- A sender that is not among the others and was shut, or was open and has got the event.
  choice_shut :
      (tx id : ℕ) (txs : List ℕ) (event : SubscriptionEvent Json) (channels : Channels Json)
      → is_open_at channels tx ≡ false
      → (if mem id txs then with_event event (get_at channels id) else get_at channels id)
        ≡ (if mem id (tx ∷ txs) then with_event event (get_at channels id) else get_at channels id)
  choice_shut tx id txs event channels shut = elim (Bool-cases (tx == id)) [
    | inl same ↦
        let unchanged : with_event event (get_at channels id) ≡ get_at channels id =
          subst (λ n. with_event event (get_at channels n) ≡ get_at channels n)
            ((==_iff tx id).0 same) (with_event-closed event (get_at channels tx) shut) in
        rw same (if-same (mem id txs) unchanged ∙ sym unchanged)
    | inr apart ↦ rw apart
  ]

  choice_open :
      (tx id : ℕ) (txs : List ℕ) (event : SubscriptionEvent Json) (channels : Channels Json)
      (c : Channel Json)
      → c.is_open ≡ true
      → get_at channels tx ≡ some c
      → mem tx txs ≡ false
      → (if mem id txs
          then with_event event (get_at (insert_at channels tx (push c event)) id)
          else get_at (insert_at channels tx (push c event)) id)
        ≡ (if mem id (tx ∷ txs) then with_event event (get_at channels id) else get_at channels id)
  choice_open tx id txs event channels c up at once = elim (Bool-cases (tx == id)) [
    | inl same ↦
        let e = (==_iff tx id).0 same in
        let here = subst (λ n. get_at channels n ≡ some c) e at in
        let alone = subst (λ n. mem n txs ≡ false) e once in
        rw (get_at-insert_at channels tx id (push c event), same, alone, here, up)
    | inr apart ↦ rw (get_at-insert_at channels tx id (push c event), apart)
  ]

  -- With each sender once, the sends put the event into the open channels among the subscribers',
  -- and the failed indexes are those of the others.
  pub send_all_lem :
      (i : ℕ) (txs : List ℕ) (event : SubscriptionEvent Json) (channels : Channels Json)
      → IsDistinct txs
      → ((send_all i txs event channels).1 ≡ failed_from i (is_open_at channels) txs)
        × ((id : ℕ)
            → get_at (send_all i txs event channels).0 id
              ≡ (if mem id txs then with_event event (get_at channels id) else get_at channels id))
  unfolding send_all sent_or_failed send failed_from
  send_all_lem i [] event channels d = (refl, λ id. refl)
  send_all_lem i (tx ∷ txs) event channels d = elim (Bool-cases (is_open_at channels tx)) [
    | inr shut ↦
        let (failed, reads) = send_all_lem (suc i) txs event channels d.1 in
        let lost = send_to-closed channels tx event (get_at channels tx) shut in
        (
          rw (shut, lost) (ap (λ f. i ∷ f) failed),
          λ id. rw lost (reads id ∙ choice_shut tx id txs event channels shut),
        )
    | inl up ↦
        let (c, c_open, at, went) = send_to-open channels tx event (get_at channels tx) up in
        let (failed, reads) =
          send_all_lem (suc i) txs event (insert_at channels tx (push c event)) d.1 in
        let same_open = is_open_at-push channels tx event c c_open at in
        (
          rw (up, went) (failed ∙ ap (λ p. failed_from (suc i) p txs) same_open),
          λ id. rw went (reads id ∙ choice_open tx id txs event channels c c_open at d.0),
        )
  ]
