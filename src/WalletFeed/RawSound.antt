-- ===== src/WalletFeed/RawSound.antt =====
-- shared/src/types.rs: which raw contract events are accepted.
use tuppira.Base.{
  ℕ, ◌*◌, ◌==◌, ==_iff, ◌≤◌, ◌||◌, not, Text, String, text_eq_iff, byte_len, all, List, [], ◌∷◌,
  map, Bool, true, Result, ok, >>_iff, refuse_if, refuse_if_iff, for_each, All, ◌≡◌, ◌↔◌, ◌⊎◌, inl,
  inr, refl, arith, ap, and-eq-true_iff, Bool-cases,
}
use tuppira.Base.Utf8.{as_bytes}
use tuppira.Piteka.Manifest.{to_ascii_lowercase}
use tuppira.WalletFeed.Protocol.{Protocol}
use tuppira.WalletFeed.Event.{Network, network_eq}
use tuppira.WalletFeed.RawEvent

abbrev IsHexDigit : ℕ → Type 0
IsHexDigit b = ((b'0' ≤ b) × (b ≤ b'9')) ⊎ (((b'A' ≤ b) × (b ≤ b'F')) ⊎ ((b'a' ≤ b) × (b ≤ b'f')))

-- A text of `bytes` bytes in hexadecimal, with or without the sign 0x before it.
abbrev pub IsHex : ℕ → Text → Type 0
IsHex bytes value =
    (byte_len (RawEvent.without_0x value) ≡ bytes * 2)
    × All IsHexDigit (as_bytes (RawEvent.without_0x value))

-- The same digits, whatever their case and with or without the sign 0x.
abbrev pub SameHex : Text → Text → Type 0
SameHex s t =
    map to_ascii_lowercase (RawEvent.without_0x s) ≡ map to_ascii_lowercase (RawEvent.without_0x t)

pub record IsExpected (P : Protocol) (raw : RawEvent.RawContractEvent P)
    (expected : RawEvent.EventDecodeContext P) : Type 0 where
  pub chain : raw.chain_id ≡ expected.chain_id
  pub network : raw.network ≡ expected.network
  pub contract : SameHex raw.contract expected.contract
  pub contract_width : IsHex 20 raw.contract ⊎ IsHex 32 raw.contract
  pub topic : SameHex raw.topic expected.topic
  pub topic_width : IsHex 32 raw.topic
  pub fields : All (IsHex 32) raw.indexed_fields

digit_iff : (b : ℕ) → (RawEvent.is_ascii_hexdigit b ≡ true) ↔ IsHexDigit b
digit_iff b = (λ h. ground arith, λ h. ground arith)

all_iff : (bs : List ℕ) → (all RawEvent.is_ascii_hexdigit bs ≡ true) ↔ All IsHexDigit bs
all_iff [] = (λ h. tt, λ h. refl)
all_iff (b ∷ bs) = (
  λ h.
      let (first, rest) = (and-eq-true_iff (RawEvent.is_ascii_hexdigit b) _).0 h in
      ((digit_iff b).0 first, (all_iff bs).0 rest),
  λ h.
      (and-eq-true_iff (RawEvent.is_ascii_hexdigit b) (all RawEvent.is_ascii_hexdigit bs)).1
        ((digit_iff b).1 h.0, (all_iff bs).1 h.1),
)

is_hex_width_iff :
    (value : Text) (bytes : ℕ) → (RawEvent.is_hex_width value bytes ≡ true) ↔ IsHex bytes value
unfolding RawEvent.is_hex_width
is_hex_width_iff value bytes = (
  λ h.
      let (size, digits) =
        (and-eq-true_iff (byte_len (RawEvent.without_0x value) == bytes * 2)
            (all RawEvent.is_ascii_hexdigit (as_bytes (RawEvent.without_0x value)))).0
          h in
      ((==_iff _ _).0 size, (all_iff _).0 digits),
  λ h.
      (and-eq-true_iff (byte_len (RawEvent.without_0x value) == bytes * 2)
          (all RawEvent.is_ascii_hexdigit (as_bytes (RawEvent.without_0x value)))).1
        ((==_iff _ _).1 h.0, (all_iff _).1 h.1),
)

same_hex_iff : (s t : Text) → (RawEvent.same_hex s t ≡ true) ↔ SameHex s t
unfolding RawEvent.same_hex
same_hex_iff s t = text_eq_iff _ _

network_eq_iff : (a b : Network) → (network_eq a b ≡ true) ↔ (a ≡ b)
unfolding network_eq
network_eq_iff a b = (λ h. ground arith, λ h. ground arith)

-- A guard of two conditions that must hold.
both_iff :
    (a b : Bool) (message : String)
    → (refuse_if (not a || not b) message ≡ ok tt) ↔ ((a ≡ true) × (b ≡ true))
both_iff a b message = (λ h. ground arith, λ h. ground arith)

contract_width_iff :
    (value : Text) → (RawEvent.is_contract_width value ≡ true) ↔ (IsHex 20 value ⊎ IsHex 32 value)
unfolding RawEvent.is_contract_width
contract_width_iff value = (
  λ h. elim (Bool-cases (RawEvent.is_hex_width value 20)) [
    | inl short ↦ inl ((is_hex_width_iff value 20).0 short)
    | inr long ↦ inr ((is_hex_width_iff value 32).0 (ground arith))
  ],
  λ h. elim h [
    | inl short ↦ ground (arith, (is_hex_width_iff value 20).1 short)
    | inr long ↦ ground (arith, (is_hex_width_iff value 32).1 long)
  ],
)

module _ (P : Protocol) where
  open P use {chain_eq, chain_eq_iff}

  field_iff : (field : Text) → (RawEvent.check_field P field ≡ ok tt) ↔ IsHex 32 field
  unfolding RawEvent.check_field
  field_iff field = (
    λ h. (is_hex_width_iff field 32).0 (ground (arith, (refuse_if_iff _ _).0 h)),
    λ h. (refuse_if_iff _ _).1 (ap not ((is_hex_width_iff field 32).1 h)),
  )

  fields_iff :
      (fields : List Text)
      → (for_each (RawEvent.check_field P) fields ≡ ok tt) ↔ All (IsHex 32) fields
  fields_iff [] = (λ h. tt, λ h. refl)
  fields_iff (field ∷ fields) = (
    λ h.
        let (first, rest) =
          (>>_iff (RawEvent.check_field P field) (for_each (RawEvent.check_field P) fields)).0 h in
        ((field_iff field).0 first, (fields_iff fields).0 rest),
    λ h.
        (>>_iff (RawEvent.check_field P field) (for_each (RawEvent.check_field P) fields)).1
          ((field_iff field).1 h.0, (fields_iff fields).1 h.1),
  )

  abbrev origin_check :
      RawEvent.RawContractEvent P → RawEvent.EventDecodeContext P → Result String (Unit {0})
  origin_check raw expected =
      refuse_if
        (not (chain_eq raw.chain_id expected.chain_id)
          || not (network_eq raw.network expected.network))
        "foreign chain or network event"

  abbrev contract_check :
      RawEvent.RawContractEvent P → RawEvent.EventDecodeContext P → Result String (Unit {0})
  contract_check raw expected =
      refuse_if
        (not (RawEvent.same_hex raw.contract expected.contract)
          || not (RawEvent.is_contract_width raw.contract))
        "foreign or malformed contract address"

  abbrev topic_check :
      RawEvent.RawContractEvent P → RawEvent.EventDecodeContext P → Result String (Unit {0})
  topic_check raw expected =
      refuse_if
        (not (RawEvent.same_hex raw.topic expected.topic)
          || not (RawEvent.is_hex_width raw.topic 32))
        "unknown or malformed event topic"

  -- A raw event is accepted exactly when it comes from the expected chain, network and contract with
  -- the expected topic, its address has 20 or 32 bytes in hexadecimal, and its topic and all its
  -- indexed fields have 32.
  pub validate_raw_contract_event_iff :
      (raw : RawEvent.RawContractEvent P) (expected : RawEvent.EventDecodeContext P)
      → (RawEvent.validate_raw_contract_event P raw expected ≡ ok tt) ↔ IsExpected P raw expected
  unfolding RawEvent.validate_raw_contract_event
  validate_raw_contract_event_iff raw expected = (
    λ h.
        let (origin, h₁) = (>>_iff (origin_check raw expected) _).0 h in
        let (address, h₂) = (>>_iff (contract_check raw expected) _).0 h₁ in
        let (subject, fields) = (>>_iff (topic_check raw expected) _).0 h₂ in
        let (chain, network) = (both_iff _ _ _).0 origin in
        let (contract, width) = (both_iff _ _ _).0 address in
        let (topic, topic_width) = (both_iff _ _ _).0 subject in
        record {
          chain = (chain_eq_iff _ _).0 chain;
          network = (network_eq_iff _ _).0 network;
          contract = (same_hex_iff _ _).0 contract;
          contract_width = (contract_width_iff raw.contract).0 width;
          topic = (same_hex_iff _ _).0 topic;
          topic_width = (is_hex_width_iff raw.topic 32).0 topic_width;
          fields = (fields_iff raw.indexed_fields).0 fields;
        },
    λ h.
        rw
          (
            (both_iff (chain_eq raw.chain_id expected.chain_id)
                  (network_eq raw.network expected.network) "foreign chain or network event").1
                ((chain_eq_iff _ _).1 h.chain, (network_eq_iff _ _).1 h.network),
            (both_iff (RawEvent.same_hex raw.contract expected.contract)
                  (RawEvent.is_contract_width raw.contract)
                  "foreign or malformed contract address").1
                ((same_hex_iff _ _).1 h.contract, (contract_width_iff _).1 h.contract_width),
            (both_iff (RawEvent.same_hex raw.topic expected.topic)
                  (RawEvent.is_hex_width raw.topic 32) "unknown or malformed event topic").1
                ((same_hex_iff _ _).1 h.topic, (is_hex_width_iff _ 32).1 h.topic_width),
          )
          ((fields_iff raw.indexed_fields).1 h.fields),
  )
