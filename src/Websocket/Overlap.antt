-- ===== src/Websocket/Overlap.antt =====
-- api/src/websocket.rs: two broadcasts to one address, each of which reads the subscribers under the
-- read lock before the other has dropped the failed ones under the write lock.
use tuppira.Base.{
  zero, suc, ℕ, Text, text_eq_refl, List, [], ◌∷◌, Option, none, some, Bool, true, false, All, ◌≡◌,
  refl, sym, ap, ◌∙◌, subst, arith,
}
use mathlib.Core.Path.{fun_ext}
use tuppira.Base.Maps.{get, get_at}
use tuppira.Websocket.Events.{SubscriptionEvent}
use tuppira.Websocket.Manager.{
  SubscriptionManager, Channel, Channels, keep, put, remove_at, remove_each, drop_from, drop_failed,
  send_all, finish_broadcast, push,
}
use tuppira.Websocket.Removal.{get-put, failed_from}
use tuppira.Websocket.Sending.{mem, IsDistinct, open_of, is_open_at, with_event, send_all_lem}
use tuppira.Websocket.Entries.{entry_of, IsEntry, keep_lem}
use tuppira.Websocket.Delivery.{Reachable, Reachable-IsManager}

abbrev finish_late :
    {Json : Type 0}
    → Text
    → Channels Json × List ℕ
    → Option (SubscriptionManager Json)
    → Option (SubscriptionManager Json)
finish_late address late none = none
finish_late address late (some m) = finish_broadcast m address late

unfoldable pub overlapped_of :
    {Json : Type 0}
    → SubscriptionManager Json
    → Text
    → SubscriptionEvent Json
    → SubscriptionEvent Json
    → Option (List ℕ)
    → Option (SubscriptionManager Json)
overlapped_of m address first second none = some m
overlapped_of m address first second (some txs) =
    let early = send_all 0 txs first m.channels in
    let late = send_all 0 txs second early.0 in
    finish_late address late (finish_broadcast m address (late.0, early.1))

-- The first broadcast reads, the second reads, the first drops, the second drops.
unfoldable pub overlapped :
    {Json : Type 0}
    → SubscriptionManager Json
    → Text
    → SubscriptionEvent Json
    → SubscriptionEvent Json
    → Option (SubscriptionManager Json)
overlapped m address first second =
    overlapped_of m address first second (get m.subscriptions address)

module _ {Json : Type 0} where
  open_of-with_event :
      (event : SubscriptionEvent Json) (o : Option (Channel Json))
      → open_of (with_event event o) ≡ open_of o
  unfolding push
  open_of-with_event event none = refl
  open_of-with_event event (some c) = ground arith

  is_open_at-send_all :
      (txs : List ℕ) (event : SubscriptionEvent Json) (channels : Channels Json)
      → IsDistinct txs
      → is_open_at (send_all 0 txs event channels).0 ≡ is_open_at channels
  is_open_at-send_all txs event channels distinct = fun_ext (λ tx.
      let (_, reads) = send_all_lem 0 txs event channels distinct in
      ap open_of (reads tx) ∙ ground (arith, open_of-with_event event (get_at channels tx)))

-- Where all pass, no index fails.
failed_from-all :
    (i : ℕ) (p : ℕ → Bool) (xs : List ℕ) → All (λ x. p x ≡ true) xs → failed_from i p xs ≡ []
unfolding failed_from
failed_from-all i p [] a = refl
failed_from-all i p (x ∷ xs) a = rw (a.0, failed_from-all (suc i) p xs a.1)

one_failed :
    (p : ℕ → Bool) (gone here : ℕ) (rest : List ℕ)
    → p gone ≡ false
    → p here ≡ true
    → All (λ x. p x ≡ true) rest
    → failed_from 0 p (gone ∷ here ∷ rest) ≡ zero ∷ []
unfolding failed_from
one_failed p gone here rest shut up others = rw (shut, up, failed_from-all 2 p rest others)

module _ {Json : Type 0} (m : SubscriptionManager Json) (address : Text)
    (first second : SubscriptionEvent Json) (gone here : ℕ) (rest : List ℕ) (reached : Reachable m)
    (there : get m.subscriptions address ≡ some (gone ∷ here ∷ rest))
    (gone_shut : is_open_at m.channels gone ≡ false) (here_open : is_open_at m.channels here ≡ true)
    (rest_open : All (λ tx. is_open_at m.channels tx ≡ true) rest) where
  distinct : IsDistinct (gone ∷ here ∷ rest)
  distinct = (subst (IsEntry m.unused) there (Reachable-IsManager m reached address)).1

  -- After the second broadcast has read.
  abbrev late_channels : Channels Json
  late_channels =
      (send_all 0 (gone ∷ here ∷ rest) second
        (send_all 0 (gone ∷ here ∷ rest) first m.channels).0).0

  still_open : is_open_at late_channels ≡ is_open_at m.channels
  still_open =
      is_open_at-send_all (gone ∷ here ∷ rest) second _ distinct
      ∙ is_open_at-send_all (gone ∷ here ∷ rest) first m.channels distinct

  failed :
      (channels : Channels Json) (event : SubscriptionEvent Json)
      → is_open_at channels ≡ is_open_at m.channels
      → (send_all 0 (gone ∷ here ∷ rest) event channels).1 ≡ zero ∷ []
  failed channels event same =
      (send_all_lem 0 (gone ∷ here ∷ rest) event channels distinct).0
      ∙ subst (λ p. failed_from 0 p (gone ∷ here ∷ rest) ≡ zero ∷ []) (sym same)
          (one_failed (is_open_at m.channels) gone here rest gone_shut here_open rest_open)

  -- When the first subscriber of an address is gone and the others are there, two overlapping
  -- broadcasts both find the index of the first one failed and remove it one after the other: the
  -- second subscriber is dropped too, though its receiver is there, and gets no later event.
  pub overlapped-loses :
      (t : SubscriptionManager Json) × (overlapped m address first second ≡ some t)
      × (get t.subscriptions address ≡ entry_of rest)
      × (is_open_at t.channels here ≡ true)
      × (mem here rest ≡ false)
  unfolding overlapped overlapped_of finish_broadcast drop_failed drop_from keep remove_each
      remove_at
  overlapped-loses =
      let early = failed m.channels first refl in
      let late =
        failed (send_all 0 (gone ∷ here ∷ rest) first m.channels).0 second
          (is_open_at-send_all (gone ∷ here ∷ rest) first m.channels distinct) in
      let once = put m.subscriptions address (here ∷ rest) in
      let again : get once address ≡ some (here ∷ rest) =
        get-put m.subscriptions address address (here ∷ rest) ∙ rw (text_eq_refl address) in
      (
        record m { subscriptions = keep once address rest; channels = late_channels },
        rw (there, early, late, there, again),
        keep_lem once address rest address ∙ rw (text_eq_refl address),
        ap (λ p. p here) still_open ∙ here_open,
        distinct.1.0,
      )
