-- ===== src/Websocket/Tests.antt =====
-- Runs of api/src/websocket.rs with two subscribers of one address.
use tuppira.Base.{ℕ, ◌<◌, codes, text_eq, [], ◌∷◌, none, some, true, false, ◌≡◌, refl, arith, Text}
use tuppira.Base.Maps.{get, get_at, insert_at}
use tuppira.Websocket.Events.{SubscriptionEvent, new_sanad, SubscriptionRequest}
use tuppira.Websocket.Manager.{
  SubscriptionManager, new, subscribe, drop_receiver, shut_at, put, entry,
}
use tuppira.Websocket.Sending.{mem, is_open_at}
use tuppira.Websocket.Delivery.{
  Reachable, start, step, subscribed, dropped, IsDelivered, broadcast-IsDelivered,
}
use tuppira.Websocket.Overlap.{overlapped, overlapped-loses}
use tuppira.Websocket.Connection.{Receivers}
use tuppira.Websocket.Subscribing.{IsSubscribed, on_request-IsSubscribed}

abbrev wallet : Text
wallet = codes "bc1"

abbrev event : SubscriptionEvent ℕ
event = new_sanad wallet (codes "bitcoin") (codes "s1") 7

abbrev two : SubscriptionManager ℕ
two = (subscribe (subscribe new wallet).0 wallet).0

abbrev one_gone : SubscriptionManager ℕ
one_gone = drop_receiver two 0

two_reached : Reachable two
two_reached = step _ _ (step _ _ start (subscribed new wallet)) (subscribed _ wallet)

reached : Reachable one_gone
reached = step _ _ two_reached (dropped two 0)

stands : get one_gone.subscriptions wallet ≡ some (0 ∷ 1 ∷ [])
unfolding subscribe drop_receiver get put entry text_eq
stands = refl

shut : is_open_at one_gone.channels 0 ≡ false
unfolding subscribe drop_receiver shut_at get_at insert_at
shut = refl

still_there : is_open_at one_gone.channels 1 ≡ true
unfolding subscribe drop_receiver shut_at get_at insert_at
still_there = refl

broadcast-IsDelivered_example : IsDelivered one_gone wallet event
broadcast-IsDelivered_example = broadcast-IsDelivered one_gone wallet event reached

overlapped-loses_example :
    (t : SubscriptionManager ℕ) × (overlapped one_gone wallet event event ≡ some t)
    × (get t.subscriptions wallet ≡ none)
    × (is_open_at t.channels 1 ≡ true)
    × (mem 1 [] ≡ false)
overlapped-loses_example =
    overlapped-loses one_gone wallet event event 0 1 [] reached stands shut still_there tt

abbrev request : SubscriptionRequest
request = record {
  action = codes "subscribe";
  address = wallet;
  chain = codes "bitcoin";
  network = none;
}

abbrev held : Receivers
held = (wallet, 1) ∷ []

asked : text_eq request.action (codes "subscribe") ≡ true
unfolding text_eq
asked = refl

older : (a : Text) (rx : ℕ) → get held a ≡ some rx → rx < one_gone.unused
unfolding get subscribe drop_receiver
older a rx at = ground arith

on_request-IsSubscribed_example : IsSubscribed one_gone held request event
on_request-IsSubscribed_example =
    on_request-IsSubscribed one_gone held request event reached asked older
