-- ===== src/Piteka/Externals.antt =====
-- What the Piteka connector takes from other crates: the signatures of ed25519-dalek, SHA-256, hex
-- and JSON. Nothing is assumed of them here.
use tuppira.Base.{ℕ, Text, List, Option, Bool}
use tuppira.Observation.Records.{Digest}
use tuppira.Piteka.Export.{SignedPitekaExport}
use tuppira.Piteka.Manifest.{ExportManifest}

pub record Externals : Type 1 where
  pub VerifyingKey : Type 0
  pub Signature : Type 0
  pub key_from_bytes : List ℕ → Option VerifyingKey
  pub signature_from_slice : List ℕ → Option Signature
  pub verify : VerifyingKey → List ℕ → Signature → Bool
  pub sha256 : List ℕ → Digest
  pub hex_decode : Text → Option (List ℕ)
  pub hex_encode : List ℕ → Text
  pub to_vec : SignedPitekaExport → Option (List ℕ)
  pub export_from_slice : List ℕ → Option SignedPitekaExport
  pub manifest_from_slice : List ℕ → Option ExportManifest
  -- The text of a JSON error.
  pub json_error : Text
