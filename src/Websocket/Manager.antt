-- ===== src/Websocket/Manager.antt =====
-- api/src/websocket.rs: SubscriptionManager. The map has one entry for a key, and the queues of all
-- channels stand beside it.
use tuppira.Base.{
  zero, suc, ℕ, ◌+◌, ◌==◌, not, Text, text_eq, length, List, [], ◌∷◌, ◌++◌, Option, none, some,
  Bool, true, false, if◌then◌else◌, filter,
}
use mathlib.Core.Option
use tuppira.Base.Maps.{get, get_at, insert_at}
use tuppira.Websocket.Events.{SubscriptionEvent, new_sanad, new_seal, new_transfer}

-- map.insert(k, v)
unfoldable pub put {ℓ} : {V : Type ℓ} → List (Text × V) → Text → V → List (Text × V)
put [] k v = (k, v) ∷ []
put ((j, w) ∷ m) k v = if text_eq j k then (j, v) ∷ m else (j, w) ∷ put m k v

-- map.remove(k)
unfoldable pub remove {ℓ} : {V : Type ℓ} → List (Text × V) → Text → List (Text × V)
remove [] k = []
remove ((j, w) ∷ m) k = let rest = remove m k in if text_eq j k then rest else (j, w) ∷ rest

-- Vec::remove, which panics beyond the end.
unfoldable pub remove_at {ℓ} : {A : Type ℓ} → List A → ℕ → Option (List A)
remove_at [] i = none
remove_at (x ∷ xs) zero = some xs
remove_at (x ∷ xs) (suc i) = Option.map (λ rest. x ∷ rest) (remove_at xs i)

abbrev pub remove_next {ℓ} : {A : Type ℓ} → Option (List A) → ℕ → Option (List A)
remove_next none i = none
remove_next (some xs) i = remove_at xs i

-- for i in failed.into_iter().rev() { xs.remove(i); }
unfoldable pub remove_each {ℓ} : {A : Type ℓ} → List ℕ → List A → Option (List A)
remove_each [] xs = some xs
remove_each (i ∷ failed) xs = remove_next (remove_each failed xs) i

abbrev pub Subscriptions : Type 0
Subscriptions = List (Text × List ℕ)

-- An entry goes with its last subscriber.
unfoldable pub keep : Subscriptions → Text → List ℕ → Subscriptions
keep subs address [] = remove subs address
keep subs address (tx ∷ txs) = put subs address (tx ∷ txs)

unfoldable pub entry : Option (List ℕ) → List ℕ
entry none = []
entry (some txs) = txs

unfoldable pub drop_from : Subscriptions → Text → List ℕ → Option (List ℕ) → Option Subscriptions
drop_from subs address failed none = some subs
drop_from subs address failed (some txs) = Option.map (keep subs address) (remove_each failed txs)

-- The part of a broadcast under the write lock; none is a panic.
unfoldable pub drop_failed : Subscriptions → Text → List ℕ → Option Subscriptions
drop_failed subs address [] = some subs
drop_failed subs address (i ∷ failed) = drop_from subs address (i ∷ failed) (get subs address)

unfoldable pub retained : Subscriptions → Text → ℕ → Option (List ℕ) → Subscriptions
retained subs address tx none = subs
retained subs address tx (some txs) = keep subs address (filter (λ s. not (s == tx)) txs)

unfoldable pub total : Subscriptions → ℕ
total [] = 0
total ((address, txs) ∷ subs) = length txs + total subs

pub record Channel (Json : Type 0) : Type 0 where
  pub is_open : Bool
  pub queue : List (SubscriptionEvent Json)

abbrev pub Channels : Type 0 → Type 0
Channels Json = List (ℕ × Channel Json)

pub record SubscriptionManager (Json : Type 0) : Type 0 where
  pub subscriptions : Subscriptions
  pub channels : Channels Json
  pub unused : ℕ

module _ {Json : Type 0} where
  abbrev pub new : SubscriptionManager Json
  new = record { subscriptions = []; channels = []; unused = 0 }

  unfoldable pub subscribe : SubscriptionManager Json → Text → SubscriptionManager Json × ℕ
  subscribe m address = (
    record {
      subscriptions =
          put m.subscriptions address (entry (get m.subscriptions address) ++ m.unused ∷ []);
      channels = insert_at m.channels m.unused (record { is_open = true; queue = [] });
      unused = m.unused + 1;
    },
    m.unused,
  )

  unfoldable pub unsubscribe : SubscriptionManager Json → Text → ℕ → SubscriptionManager Json
  unsubscribe m address tx = record m {
    subscriptions = retained m.subscriptions address tx (get m.subscriptions address);
  }

  unfoldable pub push : Channel Json → SubscriptionEvent Json → Channel Json
  push c event = record c { queue = c.queue ++ event ∷ [] }

  unfoldable pub send_to :
      Channels Json → ℕ → SubscriptionEvent Json → Option (Channel Json) → Option (Channels Json)
  send_to channels tx event none = none
  send_to channels tx event (some c) =
      if c.is_open then some (insert_at channels tx (push c event)) else none

  -- tx.send(event), which fails when the receiver is dropped
  unfoldable pub send : Channels Json → ℕ → SubscriptionEvent Json → Option (Channels Json)
  send channels tx event = send_to channels tx event (get_at channels tx)

  unfoldable pub sent_or_failed :
      ℕ
      → Channels Json
      → (Channels Json → Channels Json × List ℕ)
      → Option (Channels Json)
      → Channels Json × List ℕ
  sent_or_failed i channels others none =
      let (after, failed) = others channels in (after, i ∷ failed)
  sent_or_failed i channels others (some more) = others more

  -- The part of a broadcast under the read lock: the channels after it, and the failed indexes.
  unfoldable pub send_all :
      ℕ → List ℕ → SubscriptionEvent Json → Channels Json → Channels Json × List ℕ
  send_all i [] event channels = (channels, [])
  send_all i (tx ∷ txs) event channels =
      sent_or_failed i channels (send_all (suc i) txs event) (send channels tx event)

  unfoldable pub shut_at : Channels Json → ℕ → Option (Channel Json) → Channels Json
  shut_at channels tx none = channels
  shut_at channels tx (some c) = insert_at channels tx (record c { is_open = false; queue = [] })

  -- The receiver of a channel is dropped.
  unfoldable pub drop_receiver : SubscriptionManager Json → ℕ → SubscriptionManager Json
  drop_receiver m tx = record m { channels = shut_at m.channels tx (get_at m.channels tx) }

  unfoldable pub pop_queue :
      SubscriptionManager Json
      → ℕ
      → Channel Json
      → List (SubscriptionEvent Json)
      → SubscriptionManager Json × Option (SubscriptionEvent Json)
  pop_queue m tx c [] = (m, none)
  pop_queue m tx c (event ∷ rest) =
      (record m { channels = insert_at m.channels tx (record c { queue = rest }) }, some event)

  unfoldable pub pop_at :
      SubscriptionManager Json
      → ℕ
      → Option (Channel Json)
      → SubscriptionManager Json × Option (SubscriptionEvent Json)
  pop_at m tx none = (m, none)
  pop_at m tx (some c) = pop_queue m tx c c.queue

  -- rx.try_recv()
  unfoldable pub try_recv :
      SubscriptionManager Json → ℕ → SubscriptionManager Json × Option (SubscriptionEvent Json)
  try_recv m tx = pop_at m tx (get_at m.channels tx)

  unfoldable pub finish_broadcast :
      SubscriptionManager Json → Text → Channels Json × List ℕ → Option (SubscriptionManager Json)
  finish_broadcast m address (channels, failed) =
      Option.map (λ subs. record m { subscriptions = subs; channels = channels })
        (drop_failed m.subscriptions address failed)

  unfoldable pub broadcast_to :
      SubscriptionManager Json
      → Text
      → SubscriptionEvent Json
      → Option (List ℕ)
      → Option (SubscriptionManager Json)
  broadcast_to m address event none = some m
  broadcast_to m address event (some txs) =
      finish_broadcast m address (send_all 0 txs event m.channels)

  -- A broadcast that no other one meets between its two locks.
  unfoldable pub broadcast :
      SubscriptionManager Json → Text → SubscriptionEvent Json → Option (SubscriptionManager Json)
  broadcast m address event = broadcast_to m address event (get m.subscriptions address)

  unfoldable pub broadcast_new_sanad :
      SubscriptionManager Json → Text → Text → Text → Json → Option (SubscriptionManager Json)
  broadcast_new_sanad m address chain sanad_id json =
      broadcast m address (new_sanad address chain sanad_id json)

  unfoldable pub broadcast_new_seal :
      SubscriptionManager Json → Text → Text → Text → Json → Option (SubscriptionManager Json)
  broadcast_new_seal m address chain seal_id json =
      broadcast m address (new_seal address chain seal_id json)

  unfoldable pub broadcast_new_transfer :
      SubscriptionManager Json → Text → Text → Text → Json → Option (SubscriptionManager Json)
  broadcast_new_transfer m address chain transfer_id json =
      broadcast m address (new_transfer address chain transfer_id json)

  unfoldable pub subscription_count : SubscriptionManager Json → ℕ
  subscription_count m = total m.subscriptions
