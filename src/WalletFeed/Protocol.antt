-- ===== src/WalletFeed/Protocol.antt =====
-- What the feed takes from the crates csv-hash, csv-protocol and chrono, which are not part of
-- this repository: chain identifiers with their text and equality, the version of the protocol
-- and the type of a point in time.
use tuppira.Base.{Text, Bool, true, ◌≡◌, ◌↔◌}

pub record Protocol : Type 1 where
  pub ChainId : Type 0
  pub as_str : ChainId → Text
  pub chain_eq : ChainId → ChainId → Bool
  pub chain_eq_iff : (a b : ChainId) → (chain_eq a b ≡ true) ↔ (a ≡ b)
  pub protocol_version : Text
  pub DateTime : Type 0
