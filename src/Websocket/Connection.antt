-- ===== src/Websocket/Connection.antt =====
-- api/src/websocket.rs: handle_websocket. A connection has the receivers of its addresses; what it
-- writes to the socket is a list. Dropping a receiver shuts its channel.
use tuppira.Base.{
  ℕ, Text, codes, text_eq, List, [], ◌∷◌, ◌++◌, Option, none, some, Bool, true, false,
  if◌then◌else◌,
}
use tuppira.Base.Maps.{get}
use tuppira.Websocket.Events.{SubscriptionEvent, SubscriptionRequest, SubscriptionResponse}
use tuppira.Websocket.Manager.{SubscriptionManager, subscribe, drop_receiver, try_recv, put, remove}

-- HashMap<String, UnboundedReceiver<SubscriptionEvent>>
abbrev pub Receivers : Type 0
Receivers = List (Text × ℕ)

module _ {Json : Type 0} where
  unfoldable pub drop_old : SubscriptionManager Json → Option ℕ → SubscriptionManager Json
  drop_old m none = m
  drop_old m (some rx) = drop_receiver m rx

  abbrev pub answer : Bool → Text → SubscriptionResponse Json
  answer success message = record { success = success; message = message; event = none }

  unfoldable pub on_subscribe :
      SubscriptionManager Json
      → Receivers
      → Text
      → SubscriptionManager Json × Receivers × List (SubscriptionResponse Json)
  on_subscribe m active address =
      let (next, rx) = subscribe m address in
      (
        drop_old next (get active address),
        put active address rx,
        answer true (codes "Subscribed to " ++ address) ∷ [],
      )

  unfoldable pub on_unsubscribe :
      SubscriptionManager Json
      → Receivers
      → Text
      → SubscriptionManager Json × Receivers × List (SubscriptionResponse Json)
  on_unsubscribe m active address = (
    drop_old m (get active address),
    remove active address,
    answer true (codes "Unsubscribed from " ++ address) ∷ [],
  )

  unfoldable pub on_request :
      SubscriptionManager Json
      → Receivers
      → SubscriptionRequest
      → SubscriptionManager Json × Receivers × List (SubscriptionResponse Json)
  on_request m active request =
      if text_eq request.action (codes "subscribe")
      then on_subscribe m active request.address
      else if text_eq request.action (codes "unsubscribe")
      then on_unsubscribe m active request.address
      else (m, active, answer false (codes "Invalid action. Use 'subscribe' or 'unsubscribe'") ∷ [])

  -- What is no request is passed over.
  unfoldable pub on_message :
      SubscriptionManager Json
      → Receivers
      → Option SubscriptionRequest
      → SubscriptionManager Json × Receivers × List (SubscriptionResponse Json)
  on_message m active none = (m, active, [])
  on_message m active (some request) = on_request m active request

  unfoldable pub with_response :
      SubscriptionManager Json × Option (SubscriptionEvent Json)
      → (SubscriptionManager Json → SubscriptionManager Json × List (SubscriptionResponse Json))
      → SubscriptionManager Json × List (SubscriptionResponse Json)
  with_response (m, none) others = others m
  with_response (m, some event) others =
      let (after, responses) = others m in
      (
        after,
        record { success = true; message = codes "Event received"; event = some event } ∷ responses,
      )

  -- One event at most from each receiver.
  unfoldable pub forward :
      Receivers
      → SubscriptionManager Json
      → SubscriptionManager Json × List (SubscriptionResponse Json)
  forward [] m = (m, [])
  forward ((address, rx) ∷ active) m = with_response (try_recv m rx) (forward active)

  unfoldable pub then_message :
      SubscriptionManager Json × List (SubscriptionResponse Json)
      → Receivers
      → Option SubscriptionRequest
      → SubscriptionManager Json × Receivers × List (SubscriptionResponse Json)
  then_message (m, events) active request =
      let (after, left, responses) = on_message m active request in
      (after, left, events ++ responses)

  -- A turn of the loop ends with a message of the client; select! polls the events before it or not
  -- at all.
  unfoldable pub connection_turn :
      Bool
      → SubscriptionManager Json
      → Receivers
      → Option SubscriptionRequest
      → SubscriptionManager Json × Receivers × List (SubscriptionResponse Json)
  connection_turn true m active request = then_message (forward active m) active request
  connection_turn false m active request = on_message m active request
