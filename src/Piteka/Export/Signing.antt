-- ===== src/Piteka/Export/Signing.antt =====
-- indexer/src/piteka_feed.rs: the signed bytes of an export, read as a layout of fields.
use tuppira.Base.{
  ℕ, ◌<◌, ◌^◌, Text, List, [], ◌∷◌, ◌++◌, append_assoc, Option, none, some, ok, >>_iff, >>=-eq-ok,
  refuse_if, refuse_if_iff, leb, leb→lt, length, append-cancel, append-left_injective, byte_len,
  ◌≡◌, refl, sym, ap, ◌∙◌,
}
use tuppira.Base.Utf8.{as_bytes, length-as_bytes, as_bytes_injective}
use tuppira.Base.Words.{to_be_bytes, length-to_be_bytes, to_be_bytes_injective}
use tuppira.Observation.Records.{Digest}
use tuppira.Piteka.Export.{
  SignedPitekaExport, signature_domain, put_text, put_supersedes, layout_bytes, check_export,
  signing_bytes,
}

-- The ranges of the Rust types: u16, u32, u64, [u8; 32] and a vector's length.
pub record IsTyped (e : SignedPitekaExport) : Type 0 where
  pub version : e.schema_version < 256 ^ 2
  pub sequence : e.sequence < 256 ^ 8
  pub revision : e.revision < 256 ^ 4
  pub emitted : e.emitted_at < 256 ^ 8
  pub payload : length e.payload < 256 ^ 8
  pub digest : length e.payload_sha256 ≡ 32

-- A text behind its length.
abbrev field : Text → List ℕ
field t = to_be_bytes 4 (byte_len t) ++ as_bytes t

abbrev link : Option Text → List ℕ
link none = 0 ∷ []
link (some t) = 1 ∷ field t

-- The fields of the signed bytes, one after the other.
abbrev layout : SignedPitekaExport → List ℕ
layout e =
    signature_domain
    ++ (to_be_bytes 2 e.schema_version
        ++ (to_be_bytes 8 e.sequence
            ++ (field e.export_id
                ++ (to_be_bytes 4 e.revision
                    ++ (link e.supersedes_export_id
                        ++ (field e.tenant_id
                            ++ (to_be_bytes 8 e.emitted_at
                                ++ (e.payload_sha256
                                    ++ (to_be_bytes 8 (length e.payload) ++ e.payload)))))))))

abbrev Fits : Text → Type 0
Fits t = byte_len t < 256 ^ 4

abbrev LinkFits : Option Text → Type 0
LinkFits none = Unit
LinkFits (some t) = Fits t

put_text-eq-ok :
    (out : List ℕ) (t : Text) {m : List ℕ} → put_text out t ≡ ok m → Fits t × (m ≡ out ++ field t)
unfolding put_text
put_text-eq-ok out t h =
    let (small, result) = (>>_iff (refuse_if (leb (2 ^ 32) (byte_len t)) _) _).0 h in
    (leb→lt (2 ^ 32) (byte_len t) ((refuse_if_iff _ _).0 small), cc (result))

put_supersedes-eq-ok :
    (out : List ℕ) (o : Option Text) {m : List ℕ}
    → put_supersedes out o ≡ ok m
    → LinkFits o × (m ≡ out ++ link o)
unfolding put_supersedes
put_supersedes-eq-ok out none h = (tt, cc)
put_supersedes-eq-ok out (some t) h =
    let (fits, same) = put_text-eq-ok (out ++ 1 ∷ []) t h in
    (fits, same ∙ append_assoc out (1 ∷ []) (field t))

-- The texts of an export that was laid out fit their length fields.
record AllFit (e : SignedPitekaExport) : Type 0 where
  id : Fits e.export_id
  prior : LinkFits e.supersedes_export_id
  owner : Fits e.tenant_id

flat :
    (d s q i r l t e h n p : List ℕ)
    → ((((((((((d ++ s) ++ q) ++ i) ++ r) ++ l) ++ t) ++ e) ++ h) ++ n) ++ p)
      ≡ d ++ (s ++ (q ++ (i ++ (r ++ (l ++ (t ++ (e ++ (h ++ (n ++ p)))))))))
flat d s q i r l t e h n p = simp append_assoc

layout_bytes-eq-ok :
    (e : SignedPitekaExport) {m : List ℕ} → layout_bytes e ≡ ok m → AllFit e × (m ≡ layout e)
unfolding layout_bytes
layout_bytes-eq-ok e {m} h =
    let (identified, p₁, h₁) = >>=-eq-ok (put_text _ e.export_id) _ h in
    let (linked, p₂, h₂) = >>=-eq-ok (put_supersedes _ e.supersedes_export_id) _ h₁ in
    let (owned, p₃, h₃) = >>=-eq-ok (put_text linked e.tenant_id) _ h₂ in
    let (id, s₁) = put_text-eq-ok _ e.export_id p₁ in
    let (prior, s₂) = put_supersedes-eq-ok _ e.supersedes_export_id p₂ in
    let (owner, s₃) = put_text-eq-ok linked e.tenant_id p₃ in
    let tail = to_be_bytes 8 (length e.payload) in
    let result : m
        ≡ (((owned ++ to_be_bytes 8 e.emitted_at) ++ e.payload_sha256) ++ tail) ++ e.payload =
      cc (h₃) in
    let parts =
      s₃
      ∙ ap (λ k. k ++ field e.tenant_id)
          (s₂ ∙ ap (λ k. (k ++ to_be_bytes 4 e.revision) ++ link e.supersedes_export_id) s₁) in
    (
      record { id = id; prior = prior; owner = owner },
      result
          ∙ (ap
                (λ k.
                  (((k ++ to_be_bytes 8 e.emitted_at) ++ e.payload_sha256) ++ tail) ++ e.payload)
                parts
              ∙ flat signature_domain (to_be_bytes 2 e.schema_version) (to_be_bytes 8 e.sequence)
                  (field e.export_id) (to_be_bytes 4 e.revision) (link e.supersedes_export_id)
                  (field e.tenant_id) (to_be_bytes 8 e.emitted_at) e.payload_sha256 tail e.payload),
    )

word-cancel :
    (w m n : ℕ) (us vs : List ℕ)
    → m < 256 ^ w
    → n < 256 ^ w
    → to_be_bytes w m ++ us ≡ to_be_bytes w n ++ vs
    → (m ≡ n) × (us ≡ vs)
word-cancel w m n us vs hm hn h =
    let (same, rest) =
      append-cancel (to_be_bytes w m) (to_be_bytes w n) {us = us} {vs = vs}
        (length-to_be_bytes w m ∙ sym (length-to_be_bytes w n)) h in
    (to_be_bytes_injective w m n hm hn same, rest)

field-cancel :
    (s t : Text) (us vs : List ℕ)
    → Fits s
    → Fits t
    → field s ++ us ≡ field t ++ vs
    → (s ≡ t) × (us ≡ vs)
field-cancel s t us vs hs ht h =
    let flat_s = append_assoc (to_be_bytes 4 (byte_len s)) (as_bytes s) us in
    let flat_t = append_assoc (to_be_bytes 4 (byte_len t)) (as_bytes t) vs in
    let (size, rest) =
      word-cancel 4 (byte_len s) (byte_len t) (as_bytes s ++ us) (as_bytes t ++ vs) hs ht
        (sym flat_s ∙ (h ∙ flat_t)) in
    let (bytes, later) =
      append-cancel (as_bytes s) (as_bytes t) {us = us} {vs = vs}
        (length-as_bytes s ∙ (size ∙ sym (length-as_bytes t))) rest in
    (as_bytes_injective s t bytes, later)

link-cancel :
    (a b : Option Text) (us vs : List ℕ)
    → LinkFits a
    → LinkFits b
    → link a ++ us ≡ link b ++ vs
    → (a ≡ b) × (us ≡ vs)
link-cancel none none us vs ha hb h = (refl, append-left_injective (0 ∷ []) h)
link-cancel none (some t) us vs ha hb h = cc
link-cancel (some s) none us vs ha hb h = cc
link-cancel (some s) (some t) us vs ha hb h =
    let (same, rest) = field-cancel s t us vs ha hb (append-left_injective (1 ∷ []) h) in
    (ap some same, rest)

-- All that the connector takes an export's identity, order, tenant, lineage and content from.
pub record SameSigned (a b : SignedPitekaExport) : Type 0 where
  pub version : a.schema_version ≡ b.schema_version
  pub sequence : a.sequence ≡ b.sequence
  pub id : a.export_id ≡ b.export_id
  pub revision : a.revision ≡ b.revision
  pub prior : a.supersedes_export_id ≡ b.supersedes_export_id
  pub owner : a.tenant_id ≡ b.tenant_id
  pub emitted : a.emitted_at ≡ b.emitted_at
  pub digest : a.payload_sha256 ≡ b.payload_sha256
  pub payload : a.payload ≡ b.payload

layout_injective :
    (a b : SignedPitekaExport)
    → IsTyped a
    → IsTyped b
    → AllFit a
    → AllFit b
    → layout a ≡ layout b
    → SameSigned a b
layout_injective a b ta tb fa fb h =
    let h₁ = append-left_injective signature_domain h in
    let (version, h₂) =
      word-cancel 2 a.schema_version b.schema_version _ _ ta.version tb.version h₁ in
    let (sequence, h₃) = word-cancel 8 a.sequence b.sequence _ _ ta.sequence tb.sequence h₂ in
    let (id, h₄) = field-cancel a.export_id b.export_id _ _ fa.id fb.id h₃ in
    let (revision, h₅) = word-cancel 4 a.revision b.revision _ _ ta.revision tb.revision h₄ in
    let (prior, h₆) =
      link-cancel a.supersedes_export_id b.supersedes_export_id _ _ fa.prior fb.prior h₅ in
    let (owner, h₇) = field-cancel a.tenant_id b.tenant_id _ _ fa.owner fb.owner h₆ in
    let (emitted, h₈) = word-cancel 8 a.emitted_at b.emitted_at _ _ ta.emitted tb.emitted h₇ in
    let (digest, h₉) =
      append-cancel a.payload_sha256 b.payload_sha256 (ta.digest ∙ sym tb.digest) h₈ in
    let (size, payload) =
      word-cancel 8 (length a.payload) (length b.payload) _ _ ta.payload tb.payload h₉ in
    record {
      version = version;
      sequence = sequence;
      id = id;
      revision = revision;
      prior = prior;
      owner = owner;
      emitted = emitted;
      digest = digest;
      payload = payload;
    }

-- Two exports within the ranges of the Rust types that have the same signed bytes agree in schema
-- version, sequence, export id, revision, superseded export, tenant, time, digest and payload.
pub signing_bytes_injective :
    (sha256 : List ℕ → Digest) (a b : SignedPitekaExport) {m : List ℕ}
    → IsTyped a
    → IsTyped b
    → signing_bytes sha256 a ≡ ok m
    → signing_bytes sha256 b ≡ ok m
    → SameSigned a b
unfolding signing_bytes
signing_bytes_injective sha256 a b ta tb ha hb =
    let (_, la) = (>>_iff (check_export (sha256 a.payload) a) _).0 ha in
    let (_, lb) = (>>_iff (check_export (sha256 b.payload) b) _).0 hb in
    let (fa, ea) = layout_bytes-eq-ok a la in
    let (fb, eb) = layout_bytes-eq-ok b lb in layout_injective a b ta tb fa fb (sym ea ∙ eb)
