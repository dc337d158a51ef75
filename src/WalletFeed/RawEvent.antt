-- ===== src/WalletFeed/RawEvent.antt =====
-- shared/src/types.rs: `validate_raw_contract_event`, the check before a chain's event is decoded.
use tuppira.Base.{
  ℕ, ◌*◌, ◌==◌, leb, ◌&&◌, ◌||◌, not, Text, String, text_eq, byte_len, all, List, [], ◌∷◌, map,
  Bool, Result, ◌>>◌, refuse_if, for_each, if◌then◌else◌,
}
use tuppira.Base.Utf8.{as_bytes}
use tuppira.Piteka.Manifest.{to_ascii_lowercase}
use tuppira.WalletFeed.Protocol.{Protocol}
use tuppira.WalletFeed.Event.{Network, network_eq, TuppiraEventType}

-- value.strip_prefix("0x").unwrap_or(value)
unfoldable pub without_0x : Text → Text
without_0x [] = []
without_0x (c ∷ []) = c ∷ []
without_0x (c ∷ d ∷ t) = if c == b'0' && d == b'x' then t else c ∷ d ∷ t

-- str::eq_ignore_ascii_case
abbrev pub eq_ignore_ascii_case : Text → Text → Bool
eq_ignore_ascii_case s t = text_eq (map to_ascii_lowercase s) (map to_ascii_lowercase t)

unfoldable pub same_hex : Text → Text → Bool
same_hex left right = eq_ignore_ascii_case (without_0x left) (without_0x right)

abbrev pub is_ascii_hexdigit : ℕ → Bool
is_ascii_hexdigit b =
    (leb b'0' b && leb b b'9') || (leb b'A' b && leb b b'F') || (leb b'a' b && leb b b'f')

unfoldable pub is_hex_width : Text → ℕ → Bool
is_hex_width value bytes =
    byte_len (without_0x value) == bytes * 2 && all is_ascii_hexdigit (as_bytes (without_0x value))

unfoldable pub is_contract_width : Text → Bool
is_contract_width value = is_hex_width value 20 || is_hex_width value 32

module _ (P : Protocol) where
  open P use {ChainId, chain_eq}

  pub record EventDecodeContext : Type 0 where
    pub chain_id : ChainId
    pub network : Network
    pub contract : Text
    pub topic : Text
    pub event_type : TuppiraEventType

  pub record RawContractEvent : Type 0 where
    pub chain_id : ChainId
    pub network : Network
    pub contract : Text
    pub topic : Text
    pub indexed_fields : List Text

  unfoldable pub check_field : Text → Result String (Unit {0})
  check_field field = refuse_if (not (is_hex_width field 32)) "malformed indexed event field width"

  unfoldable pub validate_raw_contract_event :
      RawContractEvent → EventDecodeContext → Result String (Unit {0})
  validate_raw_contract_event raw expected = do
    refuse_if
        (not (chain_eq raw.chain_id expected.chain_id)
          || not (network_eq raw.network expected.network))
        "foreign chain or network event"
    refuse_if
        (not (same_hex raw.contract expected.contract) || not (is_contract_width raw.contract))
        "foreign or malformed contract address"
    refuse_if (not (same_hex raw.topic expected.topic) || not (is_hex_width raw.topic 32))
        "unknown or malformed event topic"
    for_each check_field raw.indexed_fields
