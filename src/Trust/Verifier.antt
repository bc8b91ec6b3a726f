-- ===== src/Trust/Verifier.antt =====
-- trust/verifier.py: the evaluator. The store is any reader of Artifacts and a binding any
-- implementation of the protocol in trust/protocol.py.
pub mod Decision
pub mod FromKeys
pub mod Totality
use agent_verification_proto.Base.{
  String, Bool, true, false, not, Option, none, some, List, [], ◌∷◌, ◌++◌, ◌==◌, contains, is_some,
  if◌then◌else◌, Result, ok, raise, ◌>>=◌, ◌>>◌, raise_if,
}
use agent_verification_proto.Base.Text.{is_empty}
use agent_verification_proto.Base.Dict.{Dict, lookup, insert}
use agent_verification_proto.Base.Json.{Value, Fields}
use agent_verification_proto.Artifacts.Refs.{
  ArtifactError, artifact_integrity_error, Bytes, ArtifactRef,
}
use agent_verification_proto.Trust.Models.{
  TrustError, invalid_value, store_error, binding_error, ArtifactTrustOutcome, accepted,
  integrity_failed, malformed, unsupported, authentication_failed, subject_mismatch,
  identity_rejected, policy_rejected, ArtifactAttestation, ArtifactTrustPolicy,
  AuthenticatedAttestationObservation, ArtifactTrustResult, check_result,
}

-- What `authenticate` does: it returns an observation, or raises one of the two errors of its
-- protocol with a message and the name of its class, or anything else.
pub data Authentication : Type 0 where
  observed : AuthenticatedAttestationObservation → Authentication
  malformed_attestation unsupported_attestation : (message type_name : String) → Authentication
  other_error : Authentication

pub record AttestationBinding : Type 0 where
  pub binding_profile : String
  pub authenticate : Bytes → Authentication

pub record ArtifactTrustVerifier : Type 0 where
  pub read : ArtifactRef → Result ArtifactError Bytes
  pub bindings : Dict AttestationBinding

-- The loop of `__init__`.
abbrev pub index_bindings :
    Dict AttestationBinding → List AttestationBinding → Result TrustError (Dict AttestationBinding)
index_bindings indexed [] = ok indexed
index_bindings indexed (binding ∷ bindings) = do
  raise_if (is_empty binding.binding_profile) invalid_value
  raise_if (is_some (lookup binding.binding_profile indexed)) invalid_value
  index_bindings (insert binding.binding_profile binding indexed) bindings

unfoldable pub new_verifier :
    (ArtifactRef → Result ArtifactError Bytes)
    → List AttestationBinding
    → Result TrustError ArtifactTrustVerifier
new_verifier read bindings = do
  indexed ← index_bindings [] bindings
  ok (record { read = read; bindings = indexed })

-- _BASE_VERIFIED_PROPERTIES
abbrev pub base_verified_properties : List String
base_verified_properties =
    "attestation.authentication" ∷ "artifact.subject-binding" ∷ "signer.identity"
    ∷ "policy.acceptance" ∷ []

-- tuple(dict.fromkeys(values)): each value once, where it stood first. `seen` is reversed.
abbrev without : String → List String → List String
without value [] = []
without value (x ∷ xs) = if x == value then without value xs else x ∷ without value xs

unfoldable pub from_keys : List String → List String
from_keys [] = []
from_keys (x ∷ xs) = x ∷ without x (from_keys xs)

abbrev reason : String → Option Fields
reason text = some (Fields.field "reason" (Value.string text) Fields.end)

abbrev or_name : String → String → String
or_name message type_name = if is_empty message then type_name else message

abbrev authenticated_only :
    Option AuthenticatedAttestationObservation → Option AuthenticatedAttestationObservation
authenticated_only none = none
authenticated_only (some o) = if o.authenticated then some o else none

abbrev claim :
    (AuthenticatedAttestationObservation → Option String)
    → Option AuthenticatedAttestationObservation
    → Option String
claim field none = none
claim field (some o) = field o

module _ (attestation : ArtifactAttestation) (policy : ArtifactTrustPolicy) where
  -- The value that `_result` hands to the constructor.
  unfoldable pub result_value :
      ArtifactTrustOutcome
      → Option AuthenticatedAttestationObservation
      → List String
      → Option Fields
      → ArtifactTrustResult
  result_value outcome observation verified_properties diagnostics =
      let authenticated = authenticated_only observation in
      record {
        artifact_digest = attestation.artifact_digest;
        attestation_digest = attestation.attestation.digest;
        binding_profile = attestation.binding_profile;
        policy_id = policy.policy_id;
        outcome = outcome;
        signer_identity = claim (λ o. o.signer_identity) authenticated;
        statement_type = claim (λ o. o.statement_type) authenticated;
        predicate_type = claim (λ o. o.predicate_type) authenticated;
        verified_properties = verified_properties;
        diagnostics = diagnostics;
      }

  -- _result
  unfoldable pub result :
      ArtifactTrustOutcome
      → Option AuthenticatedAttestationObservation
      → List String
      → Option Fields
      → Result TrustError ArtifactTrustResult
  result outcome observation verified_properties diagnostics =
      let value = result_value outcome observation verified_properties diagnostics in
      do check_result value; ok value

  abbrev outside : Option String → Option (List String) → Bool
  outside value none = false
  outside none (some allowed) = true
  outside (some value) (some allowed) = not (contains value allowed)

  -- From the test of the signer to the end of `verify`.
  abbrev judge_signer :
      AuthenticatedAttestationObservation → Option String → Result TrustError ArtifactTrustResult
  judge_signer o none =
      result identity_rejected (some o) [] (reason "authenticated-signer-identity-unavailable")
  judge_signer o (some signer) =
      if not (contains signer policy.allowed_signer_identities)
      then result identity_rejected (some o) [] (reason "authenticated-signer-identity-not-allowed")
      else if outside (some attestation.binding_profile) policy.allowed_binding_profiles
      then result policy_rejected (some o) [] (reason "binding-profile-not-allowed")
      else if outside o.predicate_type policy.allowed_predicate_types
      then result policy_rejected (some o) [] (reason "predicate-type-not-allowed")
      else result accepted (some o) (from_keys (o.verified_properties ++ base_verified_properties))
          none

  -- The part of `verify` behind the authentication.
  unfoldable pub judge : AuthenticatedAttestationObservation → Result TrustError ArtifactTrustResult
  judge o =
      if not (o.binding_profile == attestation.binding_profile)
      then result malformed (some o) [] (reason "binding-observation-profile-mismatch")
      else if not o.authenticated
      then result authentication_failed none [] (reason "attestation-authentication-failed")
      else if not (contains attestation.artifact_digest o.subject_digests)
      then result subject_mismatch (some o) []
          (reason "authenticated-subject-does-not-match-artifact")
      else judge_signer o o.signer_identity

  abbrev verify_authenticated : Authentication → Result TrustError ArtifactTrustResult
  verify_authenticated (observed o) = judge o
  verify_authenticated (malformed_attestation message type_name) =
      result malformed none [] (reason (or_name message type_name))
  verify_authenticated (unsupported_attestation message type_name) =
      result unsupported none [] (reason (or_name message type_name))
  verify_authenticated other_error = raise binding_error

  abbrev verify_bound : Bytes → Option AttestationBinding → Result TrustError ArtifactTrustResult
  verify_bound bytes none = result unsupported none [] (reason "binding-profile-not-supported")
  verify_bound bytes (some binding) = verify_authenticated (binding.authenticate bytes)

  abbrev verify_read :
      Option AttestationBinding → Result ArtifactError Bytes → Result TrustError ArtifactTrustResult
  verify_read binding (raise (artifact_integrity_error _)) =
      result integrity_failed none [] (reason "ArtifactIntegrityError")
  verify_read binding (raise e) = raise (store_error e)
  verify_read binding (ok bytes) = verify_bound bytes binding

  -- ArtifactTrustVerifier.verify
  unfoldable pub verify : ArtifactTrustVerifier → Result TrustError ArtifactTrustResult
  verify v =
      verify_read (lookup attestation.binding_profile v.bindings) (v.read attestation.attestation)
