-- ===== src/Websocket/Events.antt =====
-- api/src/websocket.rs: the events and what a client sends and is sent.
use tuppira.Base.{ℕ, Text, codes, Option, Bool}

pub data SubscriptionEvent (Json : Type 0) : Type 0 where
  new_sanad new_seal new_transfer : Text → Text → Text → Json → SubscriptionEvent Json
  indexing_complete : Text → Text → ℕ → ℕ → ℕ → SubscriptionEvent Json
  indexing_error : Text → Text → Text → SubscriptionEvent Json

unfoldable pub get_event_type : {Json : Type 0} → SubscriptionEvent Json → Text
get_event_type (new_sanad address chain id json) = codes "new_sanad"
get_event_type (new_seal address chain id json) = codes "new_seal"
get_event_type (new_transfer address chain id json) = codes "new_transfer"
get_event_type (indexing_complete address chain sanads seals transfers) = codes "indexing_complete"
get_event_type (indexing_error address chain problem) = codes "indexing_error"

pub record SubscriptionRequest : Type 0 where
  pub action : Text
  pub address : Text
  pub chain : Text
  pub network : Option Text

pub record SubscriptionResponse (Json : Type 0) : Type 0 where
  pub success : Bool
  pub message : Text
  pub event : Option (SubscriptionEvent Json)
