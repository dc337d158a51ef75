-- ===== src/Websocket/Subscribing.antt =====
-- api/src/websocket.rs: from the request of a client to the event that it waits for.
use tuppira.Base.{
  ℕ, ◌<◌, ◌==◌, Text, codes, text_eq, text_eq_refl, List, [], ◌∷◌, ◌++◌, Option, none, some, true,
  false, ◌≡◌, refl, ap, ◌∙◌, arith, ==_refl,
}
use tuppira.Base.Maps.{get, get_at, insert_at, get_at-insert_at}
use tuppira.Websocket.Events.{SubscriptionEvent, SubscriptionRequest}
use tuppira.Websocket.Manager.{
  SubscriptionManager, Channel, subscribe, drop_receiver, try_recv, pop_at, pop_queue, shut_at, put,
  entry, push,
}
use tuppira.Websocket.Removal.{get-put}
use tuppira.Websocket.Sending.{mem}
use tuppira.Websocket.Delivery.{
  Reachable, step, subscribed, dropped, IsDelivered, broadcast-IsDelivered,
}
use tuppira.Websocket.Connection.{Receivers, drop_old, answer, on_subscribe, on_request}

abbrev empty_channel : {Json : Type 0} → Channel Json
empty_channel = record { is_open = true; queue = [] }

mem-end : (n : ℕ) (xs : List ℕ) → mem n (xs ++ n ∷ []) ≡ true
mem-end n [] = ground arith
mem-end n (x ∷ xs) = ground (arith, mem-end n xs)

module _ {Json : Type 0} where
  drop_old-Reachable :
      (m : SubscriptionManager Json) (o : Option ℕ) → Reachable m → Reachable (drop_old m o)
  unfolding drop_old
  drop_old-Reachable m none reached = reached
  drop_old-Reachable m (some rx) reached = step m _ reached (dropped m rx)

  drop_old-subscriptions :
      (m : SubscriptionManager Json) (o : Option ℕ) → (drop_old m o).subscriptions ≡ m.subscriptions
  unfolding drop_old drop_receiver
  drop_old-subscriptions m none = refl
  drop_old-subscriptions m (some rx) = refl

  -- The channel that a subscription makes outlives the receiver that it replaces.
  drop_old-fresh :
      (m : SubscriptionManager Json) (address : Text) (o : Option ℕ)
      → ((rx : ℕ) → o ≡ some rx → rx < m.unused)
      → get_at (drop_old (subscribe m address).0 o).channels m.unused ≡ some empty_channel
  unfolding drop_old drop_receiver subscribe shut_at
  drop_old-fresh m address none older =
      rw (get_at-insert_at m.channels m.unused m.unused empty_channel, ==_refl m.unused)
  drop_old-fresh m address (some rx) older =
      go (get_at (insert_at m.channels m.unused empty_channel) rx)
    where
      made : get_at (insert_at m.channels m.unused empty_channel) m.unused ≡ some empty_channel
      made = rw (get_at-insert_at m.channels m.unused m.unused empty_channel, ==_refl m.unused)

      apart : (rx == m.unused) ≡ false
      apart = ground (arith, older rx refl)

      go :
          (c : Option (Channel Json))
          → get_at (shut_at (insert_at m.channels m.unused empty_channel) rx c) m.unused
            ≡ some empty_channel
      go none = made
      go (some c) =
          get_at-insert_at (insert_at m.channels m.unused empty_channel) rx m.unused
            (record c { is_open = false; queue = [] })
          ∙ rw (apart, made)

  listed :
      (m : SubscriptionManager Json) (address : Text)
      → mem m.unused (entry (get (subscribe m address).0.subscriptions address)) ≡ true
  unfolding subscribe entry
  listed m address =
      rw
        (
          get-put m.subscriptions address address
              (entry (get m.subscriptions address) ++ m.unused ∷ []),
          text_eq_refl address,
        )
        (mem-end m.unused (entry (get m.subscriptions address)))

module _ {Json : Type 0} (m : SubscriptionManager Json) (active : Receivers)
    (request : SubscriptionRequest) (event : SubscriptionEvent Json) where
  -- What a client has after a request to subscribe and a broadcast to its address.
  pub record IsSubscribed : Type 0 where
    pub next : SubscriptionManager Json
    pub receivers : Receivers
    pub answered :
        on_request m active request
        ≡ (next, receivers, answer true (codes "Subscribed to " ++ request.address) ∷ [])
    pub receiver : get receivers request.address ≡ some m.unused
    pub others : (a : Text) → text_eq request.address a ≡ false → get receivers a ≡ get active a
    pub delivered : IsDelivered next request.address event
    pub waiting :
        get_at delivered.after.channels m.unused
        ≡ some (record { is_open = true; queue = event ∷ [] })
    pub taken : (try_recv delivered.after m.unused).1 ≡ some event

  -- A client that asks to subscribe is told so and holds a new receiver for the address, in place of
  -- an old one and beside those for other addresses; a broadcast to the address then does not panic,
  -- and its event, and nothing else, waits for the client, which gets it when it looks. The receivers
  -- that the connection held are older than the next number.
  pub on_request-IsSubscribed :
      Reachable m
      → text_eq request.action (codes "subscribe") ≡ true
      → ((a : Text) (rx : ℕ) → get active a ≡ some rx → rx < m.unused)
      → IsSubscribed
  unfolding on_request on_subscribe subscribe push try_recv pop_at pop_queue
  on_request-IsSubscribed reached subscribes older =
      let fresh = (subscribe m request.address).0 in
      let next = drop_old fresh (get active request.address) in
      let d = broadcast-IsDelivered next request.address event (
        drop_old-Reachable fresh (get active request.address)
          (step m fresh reached (subscribed m request.address))) in
      let waits : get_at d.after.channels m.unused
          ≡ some (record { is_open = true; queue = event ∷ [] }) =
        d.got m.unused
        ∙ rw (
          ap (λ subs. mem m.unused (entry (get subs request.address)))
              (drop_old-subscriptions fresh (get active request.address)),
          listed m request.address,
          drop_old-fresh m request.address (get active request.address) (older request.address),
        ) in
      record {
        next = next;
        receivers = put active request.address m.unused;
        answered = rw subscribes;
        receiver =
            get-put active request.address request.address m.unused
            ∙ rw (text_eq_refl request.address);
        others = λ a other. get-put active request.address a m.unused ∙ rw other;
        delivered = d;
        waiting = waits;
        taken = rw waits;
      }
