-- ===== src/Trust/Models.antt =====
-- trust/models.py: the values of Artifact trust and what their constructors refuse. The type tests of
-- the constructors cannot fail on typed values and are left out.
use Prim.Native.String.{count}
use agent_verification_proto.Base.{
  ℕ, String, Bool, true, false, not, ◌&&◌, ◌||◌, Option, none, some, List, [], ◌∷◌, ltb, is_unique,
  is_none, is_some, Result, ok, ◌>>◌, raise_if,
}
use agent_verification_proto.Base.Text.{is_empty, is_sha256}
use agent_verification_proto.Base.Json.{Fields}
use agent_verification_proto.Artifacts.Refs.{ArtifactError, ArtifactRef}

-- What the trust code raises: a ValueError of a constructor, what the store raised, or what a binding
-- raised beside the two errors that its protocol names.
pub data TrustError : Type 0 where
  invalid_value : TrustError
  store_error : ArtifactError → TrustError
  binding_error : TrustError

abbrev is_nil : List String → Bool
is_nil [] = true
is_nil (_ ∷ _) = false

-- _non_empty
unfoldable pub non_empty : String → ℕ → Result TrustError (Unit {0})
non_empty value maximum = do
  raise_if (is_empty value) invalid_value
  raise_if (ltb maximum (count value)) invalid_value

abbrev pub all_non_empty : List String → ℕ → Result TrustError (Unit {0})
all_non_empty [] maximum = ok tt
all_non_empty (value ∷ values) maximum = do non_empty value maximum; all_non_empty values maximum

-- _unique_non_empty
unfoldable pub unique_non_empty : List String → ℕ → Result TrustError (Unit {0})
unique_non_empty values maximum = do
  raise_if (is_nil values) invalid_value
  raise_if (not (is_unique values)) invalid_value
  all_non_empty values maximum

-- _optional_unique
abbrev pub optional_unique : Option (List String) → ℕ → Result TrustError (Unit {0})
optional_unique none maximum = ok tt
optional_unique (some values) maximum = unique_non_empty values maximum

abbrev pub optional_non_empty : Option String → ℕ → Result TrustError (Unit {0})
optional_non_empty none maximum = ok tt
optional_non_empty (some value) maximum = non_empty value maximum

-- validate_sha256_digest, whose value the constructors here drop.
abbrev pub check_digest : String → Result TrustError (Unit {0})
check_digest value = raise_if (not (is_sha256 value)) invalid_value

abbrev pub check_digests : List String → Result TrustError (Unit {0})
check_digests [] = ok tt
check_digests (value ∷ values) = do check_digest value; check_digests values

pub data ArtifactTrustOutcome : Type 0 where
  accepted integrity_failed malformed unsupported : ArtifactTrustOutcome
  authentication_failed subject_mismatch identity_rejected policy_rejected : ArtifactTrustOutcome

abbrev pub is_accepted : ArtifactTrustOutcome → Bool
is_accepted accepted = true
is_accepted _ = false

abbrev pub is_authentication_failed : ArtifactTrustOutcome → Bool
is_authentication_failed authentication_failed = true
is_authentication_failed _ = false

pub record ArtifactAttestation : Type 0 where
  pub artifact_digest : String
  pub attestation : ArtifactRef
  pub binding_profile : String

-- ArtifactAttestation.__post_init__
unfoldable pub check_attestation : ArtifactAttestation → Result TrustError (Unit {0})
check_attestation a = do check_digest a.artifact_digest; non_empty a.binding_profile 256

pub record ArtifactTrustPolicy : Type 0 where
  pub policy_id : String
  pub allowed_signer_identities : List String
  pub allowed_binding_profiles : Option (List String)
  pub allowed_predicate_types : Option (List String)

-- ArtifactTrustPolicy.__post_init__
unfoldable pub check_policy : ArtifactTrustPolicy → Result TrustError (Unit {0})
check_policy p = do
  non_empty p.policy_id 256
  unique_non_empty p.allowed_signer_identities 512
  optional_unique p.allowed_binding_profiles 256
  optional_unique p.allowed_predicate_types 2048

pub record AuthenticatedAttestationObservation : Type 0 where
  pub binding_profile : String
  pub authenticated : Bool
  pub subject_digests : List String
  pub signer_identity : Option String
  pub statement_type : Option String
  pub predicate_type : Option String
  pub verified_properties : List String

-- The claims that an observation without authentication must not have.
abbrev exposes_claims : AuthenticatedAttestationObservation → Bool
exposes_claims o =
    not (is_nil o.subject_digests)
    || (is_some o.signer_identity
        || (is_some o.statement_type
            || (is_some o.predicate_type || not (is_nil o.verified_properties))))

-- AuthenticatedAttestationObservation.__post_init__
unfoldable pub check_observation :
    AuthenticatedAttestationObservation → Result TrustError (Unit {0})
check_observation o = do
  non_empty o.binding_profile 256
  raise_if (not o.authenticated && exposes_claims o) invalid_value
  raise_if (not (is_unique o.subject_digests)) invalid_value
  check_digests o.subject_digests
  optional_non_empty o.signer_identity 512
  optional_non_empty o.statement_type 2048
  optional_non_empty o.predicate_type 2048
  raise_if (not (is_unique o.verified_properties)) invalid_value
  all_non_empty o.verified_properties 256

pub record ArtifactTrustResult : Type 0 where
  pub artifact_digest : String
  pub attestation_digest : String
  pub binding_profile : String
  pub policy_id : String
  pub outcome : ArtifactTrustOutcome
  pub signer_identity : Option String
  pub statement_type : Option String
  pub predicate_type : Option String
  pub verified_properties : List String
  pub diagnostics : Option Fields

-- ArtifactTrustResult.__post_init__
unfoldable pub check_result : ArtifactTrustResult → Result TrustError (Unit {0})
check_result r = do
  check_digest r.artifact_digest
  check_digest r.attestation_digest
  non_empty r.binding_profile 256
  non_empty r.policy_id 256
  optional_non_empty r.signer_identity 512
  raise_if (is_accepted r.outcome && is_none r.signer_identity) invalid_value
  raise_if
      (is_authentication_failed r.outcome
        && (is_some r.signer_identity || (is_some r.statement_type || is_some r.predicate_type)))
      invalid_value
  optional_non_empty r.statement_type 2048
  optional_non_empty r.predicate_type 2048
  raise_if (not (is_unique r.verified_properties)) invalid_value
  all_non_empty r.verified_properties 256
