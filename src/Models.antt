-- ===== src/Models.antt =====
-- models.py: the value objects that the runtime and the evaluators share.
use Prim.Native.Char.{Char, code}
use Prim.Native.String.{count}
use agent_verification_proto.Base.{
  ℕ, String, Bool, ◌||◌, ◌&&◌, not, Option, none, some, List, [], ◌∷◌, true, false, leb, eqb,
  Result, ok, ◌>>=◌, ◌>>◌, raise_if, all, contains, is_unique,
}
use agent_verification_proto.Base.Text.{all_chars, is_alnum, is_between}
use agent_verification_proto.Base.Json.{Fields}
use agent_verification_proto.Artifacts.Refs.{ArtifactRef}

pub data ValueError : Type 0 where
  value_error : ValueError

pub data TaskVerdict : Type 0 where
  pass partial fail inconclusive : TaskVerdict

pub data Validity : Type 0 where
  valid invalid_task invalid_initial_state environment_failure reset_failure oracle_failure :
      Validity
  trace_incomplete infra_confound contaminated unknown : Validity

-- `validity is Validity.VALID`
abbrev pub is_valid : Validity → Bool
is_valid valid = true
is_valid _ = false

-- `validity is Validity.ORACLE_FAILURE`
abbrev pub is_oracle_failure : Validity → Bool
is_oracle_failure oracle_failure = true
is_oracle_failure _ = false

-- `verdict is TaskVerdict.INCONCLUSIVE`
abbrev pub is_inconclusive : TaskVerdict → Bool
is_inconclusive inconclusive = true
is_inconclusive _ = false

pub record ValidityDetail : Type 0 where
  pub code : String
  pub message : Option String
  pub evidence_ids : List String

-- `low <= len(text) <= high`
abbrev pub has_length : ℕ → ℕ → String → Bool
has_length low high text = leb low (count text) && leb (count text) high

abbrev is_upper_token : Char → Bool
is_upper_token c = is_between b'A' b'Z' c || (is_between b'0' b'9' c || eqb (code c) b'_')

-- The pattern ^[A-Z][A-Z0-9_]{0,127}$
abbrev is_detail_code : String → Bool
is_detail_code String.[] = false
is_detail_code (String.◌∷◌ c rest) =
    is_between b'A' b'Z' c && (leb (count rest) 127 && all_chars is_upper_token rest)

abbrev absent_or : (String → Bool) → Option String → Bool
absent_or test none = true
absent_or test (some text) = test text

unfoldable pub new_validity_detail :
    String → Option String → List String → Result ValueError ValidityDetail
new_validity_detail code message evidence_ids = do
  raise_if (not (is_detail_code code)) value_error
  raise_if (not (absent_or (has_length 1 512) message)) value_error
  raise_if (not (all (has_length 1 256) evidence_ids)) value_error
  raise_if (not (is_unique evidence_ids)) value_error
  ok (record { code = code; message = message; evidence_ids = evidence_ids })

pub record Evidence : Type 0 where
  pub evidence_id : String
  pub evidence_type : String
  pub artifact : ArtifactRef
  pub classification : String
  pub producer : Option String
  pub redaction : Option Fields
  pub extensions : Option Fields

abbrev is_type_token : Char → Bool
is_type_token c =
    is_alnum c || eqb (code c) b'.' || eqb (code c) b'_' || eqb (code c) b':' || eqb (code c) b'-'

-- The pattern ^[A-Za-z0-9][A-Za-z0-9._:-]{0,127}$
abbrev is_evidence_type : String → Bool
is_evidence_type String.[] = false
is_evidence_type (String.◌∷◌ c rest) =
    is_alnum c && (leb (count rest) 127 && all_chars is_type_token rest)

abbrev pub evidence_classifications : List String
evidence_classifications =
    "public" ∷ "workspace" ∷ "subject-visible" ∷ "evaluator-confidential" ∷ "secret" ∷ "regulated"
    ∷ []

unfoldable pub validate_metadata :
    String → String → String → Option String → Result ValueError (Unit {0})
validate_metadata evidence_id evidence_type classification producer = do
  raise_if (not (has_length 1 256 evidence_id)) value_error
  raise_if (not (is_evidence_type evidence_type)) value_error
  raise_if (not (contains classification evidence_classifications)) value_error
  raise_if (not (absent_or (has_length 1 512) producer)) value_error

-- Evidence(...): the types of `artifact`, `redaction` and `extensions` are those of the fields.
unfoldable pub new_evidence :
    String
    → String
    → ArtifactRef
    → String
    → Option String
    → Option Fields
    → Option Fields
    → Result ValueError Evidence
unfolding validate_metadata
new_evidence evidence_id evidence_type artifact classification producer redaction extensions = do
  _ ← validate_metadata evidence_id evidence_type classification producer
  ok (record {
    evidence_id = evidence_id;
    evidence_type = evidence_type;
    artifact = artifact;
    classification = classification;
    producer = producer;
    redaction = redaction;
    extensions = extensions;
  })

-- The float `confidence` is left out: no code that is modelled reads it.
pub record VerificationResult : Type 0 where
  pub claim_id : String
  pub dimension : String
  pub verdict : String
  pub severity : String
  pub method : String
  pub evaluator_version : String
  pub evidence_ids : List String
  pub validity : Validity

pub record AvpEvent : Type 0 where
  pub event_id : String
  pub event_type : String
  pub episode_id : String
  pub sequence : ℕ
  pub plane : String
  pub logical_time : ℕ
  pub payload : Fields
  pub state : Fields
  pub evidence : List String
