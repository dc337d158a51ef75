-- ===== src/Store/HintTests.antt =====
-- A disagreement between two sources about one subject.
use tuppira.Base.{
  codes, replicate, text_eq, is_blank, is_whitespace, has_char, [], ◌∷◌, none, ok, ◌≡◌, refl,
}
use tuppira.Observation.Records.{ObservationRecord, active, public, ContradictionHintRecord}
use tuppira.Store.Schema.{empty_store, any_row}
use tuppira.Store.Repository.{ensure_version, ensure_text, required_i64}
use tuppira.Store.History.{
  History, same_visibility, shares_subject, disagree, pair_of, insert_hint_row, check_hint,
  append_contradiction_hint,
}
use tuppira.Store.Hints.{IsHint, append_contradiction_hint-IsHint}

abbrev left : ObservationRecord
left = record {
  schema_version = 1;
  observation_id = codes "obs:a";
  source_id = codes "piteka";
  source_event_id = codes "event:1";
  source_event_type = codes "created";
  subject_refs = [];
  asserted_event_time = none;
  observed_at = 11;
  normalized_profile_id = codes "profile";
  normalized_profile_version = 1;
  normalized_payload_digest = replicate 32 1;
  raw_payload_digest = none;
  authenticity_material_refs = [];
  collection_run_id = codes "run:1";
  supersedes = none;
  retraction_status = active;
  tenant_visibility = public;
}

abbrev right : ObservationRecord
right = record left { observation_id = codes "obs:b"; source_id = codes "mirror" }

abbrev hint : ContradictionHintRecord
hint = record {
  schema_version = 1;
  hint_id = codes "hint:1";
  left_observation_id = codes "obs:a";
  right_observation_id = codes "obs:b";
  detector_id = codes "digest";
}

abbrev before : History
before = record {
  store = record empty_store {
    observations = left ∷ right ∷ [];
    subjects = (codes "obs:a", codes "repo") ∷ (codes "obs:b", codes "repo") ∷ [];
  };
  reorgs = [];
  hints = [];
}

abbrev after : History
after = record before { hints = (hint, 13) ∷ [] }

appended : append_contradiction_hint before hint 13 ≡ ok after
unfolding append_contradiction_hint check_hint insert_hint_row pair_of disagree same_visibility
    shares_subject any_row ensure_version ensure_text required_i64 is_blank is_whitespace has_char
    text_eq
appended = refl

append_contradiction_hint-IsHint_example : IsHint before hint 13 after
append_contradiction_hint-IsHint_example =
    append_contradiction_hint-IsHint before hint 13 after appended
