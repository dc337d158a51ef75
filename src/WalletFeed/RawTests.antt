-- ===== src/WalletFeed/RawTests.antt =====
-- Raw contract events, after the tests of shared/src/types.rs.
use tuppira.Base.{ℕ, Text, codes, text_eq, text_eq_iff, replicate, [], ◌∷◌, ◌++◌, ok, ◌≡◌, ◌↔◌}
use tuppira.WalletFeed.Protocol.{Protocol}
use tuppira.WalletFeed.Event.{Network, TuppiraEventType}
use tuppira.WalletFeed.RawEvent.{EventDecodeContext, RawContractEvent, validate_raw_contract_event}
use tuppira.WalletFeed.RawSound.{IsExpected, validate_raw_contract_event_iff}

abbrev protocol : Protocol
protocol = record {
  ChainId = Text;
  as_str = λ c. c;
  chain_eq = text_eq;
  chain_eq_iff = text_eq_iff;
  protocol_version = codes "1";
  DateTime = ℕ;
}

abbrev context : EventDecodeContext protocol
context = record {
  chain_id = codes "ethereum";
  network = Network.mainnet;
  contract = codes "0x" ++ replicate 40 b'a';
  topic = codes "0x" ++ replicate 64 b'2';
  event_type = TuppiraEventType.seal_consumed;
}

-- The address in capitals, and without its sign.
abbrev raw : RawContractEvent protocol
raw = record {
  chain_id = codes "ethereum";
  network = Network.mainnet;
  contract = replicate 40 b'A';
  topic = codes "0x" ++ replicate 64 b'2';
  indexed_fields = replicate 64 b'4' ∷ [];
}

validate_raw_contract_event_iff_example :
    (validate_raw_contract_event protocol raw context ≡ ok tt) ↔ IsExpected protocol raw context
validate_raw_contract_event_iff_example = validate_raw_contract_event_iff protocol raw context
