-- ===== src/Websocket/Delivery.antt =====
-- api/src/websocket.rs: what a broadcast does, in every state that the operations reach.
use tuppira.Base.{
  ℕ, ◌+◌, ◌==◌, not, Text, text_eq, text_eq_iff, List, [], ◌∷◌, ◌++◌, Option, none, some, Bool,
  Bool-cases, Option-cases, if◌then◌else◌, if_cases, filter, ◌≡◌, inl, inr, refl, sym, subst,
}
use tuppira.Base.Maps.{get, get_at}
use tuppira.Websocket.Events.{SubscriptionEvent}
use tuppira.Websocket.Manager.{
  Subscriptions, SubscriptionManager, Channel, new, subscribe, unsubscribe, retained, drop_receiver,
  try_recv, pop_at, pop_queue, entry, send_all, finish_broadcast, broadcast, broadcast_to,
}
use tuppira.Websocket.Removal.{get-put}
use tuppira.Websocket.Sending.{mem, is_open_at, with_event, send_all_lem}
use tuppira.Websocket.Entries.{
  entry_of, IsEntry, keep_lem, filter-IsEntry, drop_failed_lem, IsEntry-mono, join-IsEntry,
}

abbrev pub IsSound : ℕ → Subscriptions → Type 0
IsSound n subs = (a : Text) → IsEntry n (get subs a)

keep-IsSound :
    (n : ℕ) (subs : Subscriptions) (address : Text) (p : ℕ → Bool) (xs : List ℕ)
    (after : Subscriptions)
    → ((a : Text)
        → get after a ≡ (if text_eq address a then entry_of (filter p xs) else get subs a))
    → IsEntry n (some xs)
    → IsSound n subs
    → IsSound n after
keep-IsSound n subs address p xs after reads here sound a =
    subst (IsEntry n) (sym (reads a))
      (if_cases (IsEntry n) (text_eq address a) (λ h. filter-IsEntry p n xs here) (λ h. sound a))

module _ {Json : Type 0} where
  -- What a broadcast leaves.
  pub record IsDelivered (m : SubscriptionManager Json) (address : Text)
      (event : SubscriptionEvent Json) : Type 0 where
    pub after : SubscriptionManager Json
    pub answer : broadcast m address event ≡ some after
    pub left :
        (a : Text)
        → get after.subscriptions a ≡ (
            if text_eq address a
            then entry_of (filter (is_open_at m.channels) (entry (get m.subscriptions address)))
            else get m.subscriptions a)
    pub got :
        (tx : ℕ)
        → get_at after.channels tx ≡ (
            if mem tx (entry (get m.subscriptions address))
            then with_event event (get_at m.channels tx)
            else get_at m.channels tx)
    pub unused : after.unused ≡ m.unused

  Sound-Delivered :
      (m : SubscriptionManager Json) (address : Text) (event : SubscriptionEvent Json)
      → IsSound m.unused m.subscriptions
      → IsDelivered m address event
  unfolding broadcast broadcast_to finish_broadcast entry
  Sound-Delivered m address event sound = elim (Option-cases (get m.subscriptions address)) [
    | inl nobody ↦ record {
      after = m;
      answer = rw nobody;
      left = λ a. elim (Bool-cases (text_eq address a)) [
        | inl here ↦
            let gone : get m.subscriptions a ≡ none =
              subst (λ b. get m.subscriptions b ≡ none) ((text_eq_iff address a).0 here) nobody in
            rw (here, nobody, gone)
        | inr other ↦ rw other
      ];
      got = λ tx. rw nobody;
      unused = refl;
    }
    | inr (txs, there) ↦
        let (filled, distinct, _) = subst (IsEntry m.unused) there (sound address) in
        let (failed, reads) = send_all_lem 0 txs event m.channels distinct in
        let (subs, dropped, stay) =
          drop_failed_lem (is_open_at m.channels) m.subscriptions address txs there filled in
        record {
          after = record m { subscriptions = subs; channels = (send_all 0 txs event m.channels).0 };
          answer = rw (there, failed, dropped);
          left = rw there stay;
          got = rw there reads;
          unused = refl;
        }
  ]

  -- The operations of the manager, of the channels' receivers, and broadcasts that meet no other.
  pub data Step : SubscriptionManager Json → SubscriptionManager Json → Type 0 where
    subscribed : (m : SubscriptionManager Json) (address : Text) → Step m (subscribe m address).0
    unsubscribed :
        (m : SubscriptionManager Json) (address : Text) (tx : ℕ) → Step m (unsubscribe m address tx)
    dropped : (m : SubscriptionManager Json) (tx : ℕ) → Step m (drop_receiver m tx)
    received : (m : SubscriptionManager Json) (tx : ℕ) → Step m (try_recv m tx).0
    told :
        (m : SubscriptionManager Json) (address : Text) (event : SubscriptionEvent Json)
        (t : SubscriptionManager Json)
        → broadcast m address event ≡ some t
        → Step m t

  pub data Reachable : SubscriptionManager Json → Type 0 where
    start : Reachable new
    step : (m t : SubscriptionManager Json) → Reachable m → Step m t → Reachable t

  abbrev pub IsManager : SubscriptionManager Json → Type 0
  IsManager m = IsSound m.unused m.subscriptions

  subscribe-IsManager :
      (m : SubscriptionManager Json) (address : Text)
      → IsManager m
      → IsManager (subscribe m address).0
  unfolding subscribe
  subscribe-IsManager m address sound a =
      subst (IsEntry (m.unused + 1))
        (sym (
          get-put m.subscriptions address a (entry (get m.subscriptions address) ++ m.unused ∷ [])))
        (if_cases (IsEntry (m.unused + 1)) (text_eq address a)
          (λ h. join-IsEntry m.unused (get m.subscriptions address) (sound address))
          (λ h. IsEntry-mono m.unused (get m.subscriptions a) (sound a)))

  unsubscribe-IsManager :
      (m : SubscriptionManager Json) (address : Text) (tx : ℕ)
      → IsManager m
      → IsManager (unsubscribe m address tx)
  unfolding unsubscribe retained
  unsubscribe-IsManager m address tx sound = go (get m.subscriptions address) (sound address)
    where
      go :
          (o : Option (List ℕ))
          → IsEntry m.unused o
          → IsSound m.unused (retained m.subscriptions address tx o)
      go none here = sound
      go (some xs) here =
          keep-IsSound m.unused m.subscriptions address (λ s. not (s == tx)) xs _
            (keep_lem m.subscriptions address (filter (λ s. not (s == tx)) xs)) here sound

  try_recv-IsManager :
      (m : SubscriptionManager Json) (tx : ℕ) → IsManager m → IsManager (try_recv m tx).0
  unfolding try_recv pop_at pop_queue
  try_recv-IsManager m tx sound = go (get_at m.channels tx)
    where
      pop :
          (c : Channel Json) (queue : List (SubscriptionEvent Json))
          → IsManager (pop_queue m tx c queue).0
      pop c [] = sound
      pop c (event ∷ rest) = sound

      go : (o : Option (Channel Json)) → IsManager (pop_at m tx o).0
      go none = sound
      go (some c) = pop c c.queue

  told-IsManager :
      (m : SubscriptionManager Json) (address : Text) (event : SubscriptionEvent Json)
      (t : SubscriptionManager Json)
      → broadcast m address event ≡ some t
      → IsManager m
      → IsManager t
  unfolding entry
  told-IsManager m address event t done sound =
      let d = Sound-Delivered m address event sound in
      let same : d.after ≡ t = cc (d.answer, done) in
      let rows : IsSound m.unused d.after.subscriptions = λ a.
        subst (IsEntry m.unused) (sym (d.left a)) (
          if_cases (IsEntry m.unused) (text_eq address a)
            (λ h. rest (get m.subscriptions address) (sound address)) (λ h. sound a)) in
      subst IsManager same (subst (λ n. IsSound n d.after.subscriptions) (sym d.unused) rows)
    where
      rest :
          (o : Option (List ℕ))
          → IsEntry m.unused o
          → IsEntry m.unused (entry_of (filter (is_open_at m.channels) (entry o)))
      rest none here = tt
      rest (some xs) here = filter-IsEntry (is_open_at m.channels) m.unused xs here

  pub Reachable-IsManager : (m : SubscriptionManager Json) → Reachable m → IsManager m
  unfolding get drop_receiver
  Reachable-IsManager _ start = λ a. tt
  Reachable-IsManager _ (step m t reached move) = after move (Reachable-IsManager m reached)
    where
      after : {m t : SubscriptionManager Json} → Step m t → IsManager m → IsManager t
      after (subscribed m address) sound = subscribe-IsManager m address sound
      after (unsubscribed m address tx) sound = unsubscribe-IsManager m address tx sound
      after (dropped m tx) sound = sound
      after (received m tx) sound = try_recv-IsManager m tx sound
      after (told m address event t done) sound = told-IsManager m address event t done sound

  -- In every state that the operations reach, a broadcast that no other one meets does not panic.
  -- Each subscriber of the address whose receiver is there gets the event once, behind what it has
  -- not read, and no other channel changes. The subscribers whose receivers are gone are removed,
  -- those that are there stay in their order, and the entry goes with the last of them.
  pub broadcast-IsDelivered :
      (m : SubscriptionManager Json) (address : Text) (event : SubscriptionEvent Json)
      → Reachable m
      → IsDelivered m address event
  broadcast-IsDelivered m address event reached =
      Sound-Delivered m address event (Reachable-IsManager m reached)
