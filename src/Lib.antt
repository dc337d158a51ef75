-- ===== src/Lib.antt =====
-- Tuppira: an untrusted, multi-chain observation indexer. Sources hand raw events to connectors,
-- which authenticate the exact bytes and normalize them into source-neutral observations; wallets
-- read an ordered feed of envelopes that is made durable before it is published.
--
-- Which file models which part:
-- Base: results with `?`, guards, texts as code points with their UTF-8 lengths, decimal printing,
--   big-endian words, ordered maps. A Rust integer is a natural number; its range is a hypothesis
--   where a theorem needs it (`IsTyped`, `< 2 ^ 64`), `saturating_add` is written out.
-- Observation: shared/src/observation.rs. `Records` has the structs, `Validate` the functions
--   `validate` and `validate_profile` (DeploymentAttestationProjectionV1::validate) with their
--   helpers; `Sound` and `Profile` describe the accepted records without the code.
-- WalletFeed: shared/src/types.rs (TuppiraEventDto, WalletFeedEnvelope, WalletFeedProjection) and
--   api/src/feed.rs (WalletFeedHub). The ordered map of envelopes and the two hash maps are
--   association lists; the log of admitted envelopes is their abstract view. The table is the list
--   of its rows in the order of insertion with the constraints of its migration, the JSON codec is
--   a parameter that reads back what it wrote, and a broadcast is the list of envelopes sent.
-- Connector: indexer/src/connector.rs. The trait SourceConnector is a record of functions, so a
--   client takes any implementation; `Gate` has `authenticate_and_normalize`.
-- Piteka: indexer/src/piteka_feed.rs. `Export` has the envelope, its signed bytes, identifiers and
--   cursor, `Manifest` the payload, `Feed` the connector. Ed25519, SHA-256, hex, JSON and the
--   transport are the parameters of `Externals` and `fetch`, of which nothing is assumed.
-- Store: storage/src/repositories/observations.rs over
--   storage/migrations/0003_observation_plane.sql. `Schema` has the tables as lists of rows in the
--   order of insertion and what their constraints and triggers refuse, `Repository` the typed
--   operations. A transaction is a result, so an error leaves the store that was there;
--   `Reachable` is the relation of the stores that writes reach. `Lineage` has the recursive
--   queries, `History` the tables of 0004_reconciliation_history.sql, `Listing` the queries of
--   many rows.
-- Ingest: indexer/src/ingest.rs. `ingest` is the pass of `ingest_piteka` with a connector that is
--   already built; the time is an argument.
-- Sync: indexer/src/sync.rs over storage/src/repositories/sync.rs. `Progress` has the table with
--   one row for each chain, `Chain` the function sync_chain, `Coordinator` the requests and the
--   turns of a chain's task. What the chain, the database and the clock answer in a run is its
--   argument.
-- Rpc: indexer/src/rpc_manager.rs. `Rpc` has the endpoints and the choice among them, `Base64` the
--   encoder, `Defaults` the configuration without a file. The stable sort of the standard library
--   is an insertion sort.
-- Access: api/src/access.rs. SHA-256, the headers and the variable with the keys are arguments.
-- Wallet: indexer/src/wallet_bridge.rs over storage/src/repositories/priority_addresses.rs.
--   `Addresses` has the tables, `Bridge` the cycle with a trace of what the indexers are asked,
--   `Service` what wallets ask. The order in which a HashMap yields its entries is an argument of
--   a cycle.
-- Websocket: api/src/websocket.rs. `Manager` has the map of subscriptions and the channels,
--   `Connection` the turns of a connection. A broadcast is the sends under the read lock and the
--   removals under the write lock; `Overlap` runs two of them between each other's parts.
-- Rest: api/src/rest/handlers.rs. `Observations` and `Entities` have the handlers, each the access
--   control and a query of the store; the tables of entities are Store/Entities.antt. The body of
--   a reply is a record of the fields of its JSON.
--
-- Every loop of the code is structural recursion over its list, but for the rounds of a pass:
-- `drain` takes a bound on them and returns none when it is used up. For a feed that ends, one
-- more than its last sequence is chosen. `sync_blocks` takes a bound on the blocks of a run, for
-- which one more than the batch is enough. `walk`, the recursive query of a lineage, takes one on
-- its rows, for which the number of observations is enough.
--
-- Not modelled: the HTTP transport, the web servers with GraphQL, and the repositories of sanads,
-- seals, transfers, contracts, proofs and statistics with their handlers, whose content is SQL
-- text; the chain adapters, which turn the replies of nodes into types of csv_sdk, and the calls
-- of csv_sdk, whose source is elsewhere; configuration files, metrics and links to block
-- explorers, which are data.
pub mod Base
pub mod Observation
pub mod WalletFeed
pub mod Connector
pub mod Piteka
pub mod Store
pub mod Ingest
pub mod Sync
pub mod Rpc
pub mod Access
pub mod Wallet
pub mod Websocket
pub mod Rest
