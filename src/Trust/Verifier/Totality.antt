-- ===== src/Trust/Verifier/Totality.antt =====
-- The evaluator on well-formed inputs: it always answers, and accepts what the policy allows.
use agent_verification_proto.Base.{
  String, ◌≡◌, refl, true, false, Option, none, some, List, [], ◌++◌, contains, Result, ok, raise,
  is_ok, arith, eq_iff,
}
use agent_verification_proto.Base.Text.{is_sha256}
use agent_verification_proto.Base.Dict.{lookup}
use agent_verification_proto.Base.Json.{Fields}
use agent_verification_proto.Artifacts.Refs.{
  ArtifactError, value_error, artifact_not_found, artifact_integrity_error,
  artifact_digest_mismatch, artifact_size_limit_exceeded, Bytes,
}
use agent_verification_proto.Trust.Models.{
  TrustError, ArtifactTrustOutcome, accepted, integrity_failed, malformed, unsupported,
  authentication_failed, subject_mismatch, identity_rejected, policy_rejected, ArtifactAttestation,
  ArtifactTrustPolicy, AuthenticatedAttestationObservation, ArtifactTrustResult, is_accepted,
  is_authentication_failed, check_attestation, check_policy, check_observation, check_result,
}
use agent_verification_proto.Trust.Verifier.{
  Authentication, observed, malformed_attestation, unsupported_attestation, other_error,
  AttestationBinding, ArtifactTrustVerifier, base_verified_properties, from_keys, reason, or_name,
  result_value, result, outside, judge_signer, judge, verify_authenticated, verify_bound,
  verify_read, verify,
}
use agent_verification_proto.Trust.Verifier.FromKeys.{
  is_unique-from_keys, all_non_empty-from_keys, all_non_empty-append, all_non_empty-base,
}

-- The binding kept its protocol: a constructed observation, or one of the two named errors.
abbrev pub IsHonest : Authentication → Type 0
IsHonest (observed o) = check_observation o ≡ ok tt
IsHonest (malformed_attestation _ _) = Unit
IsHonest (unsupported_attestation _ _) = Unit
IsHonest other_error = ⊥

-- The store returned bytes or refused corrupted ones.
abbrev pub IsServed : Result ArtifactError Bytes → Type 0
IsServed (ok bytes) = Unit
IsServed (raise (artifact_integrity_error _)) = Unit
IsServed (raise _) = ⊥

module _ (attestation : ArtifactAttestation) (policy : ArtifactTrustPolicy) where
  -- The attestation and the policy went through their constructors.
  pub record AreConstructed : Type 0 where
    pub attestation_checked : check_attestation attestation ≡ ok tt
    pub reference_checked : is_sha256 attestation.attestation.digest ≡ true
    pub policy_checked : check_policy policy ≡ ok tt

  module _ (constructed : AreConstructed) where
    plain-result :
        (outcome : ArtifactTrustOutcome) (diagnostics : Option Fields)
        → is_accepted outcome ≡ false
        → result attestation policy outcome none [] diagnostics
          ≡ ok (result_value attestation policy outcome none [] diagnostics)
    unfolding result result_value check_result check_attestation check_policy
    plain-result outcome diagnostics differs = ground (
      arith, constructed.attestation_checked, constructed.reference_checked,
      constructed.policy_checked,
    )

    observed-result :
        (outcome : ArtifactTrustOutcome) (o : AuthenticatedAttestationObservation)
        (diagnostics : Option Fields)
        → is_accepted outcome ≡ false
        → is_authentication_failed outcome ≡ false
        → check_observation o ≡ ok tt
        → result attestation policy outcome (some o) [] diagnostics
          ≡ ok (result_value attestation policy outcome (some o) [] diagnostics)
    unfolding result result_value check_result check_attestation check_policy check_observation
    observed-result outcome o diagnostics differs other checked = ground (
      arith, constructed.attestation_checked, constructed.reference_checked,
      constructed.policy_checked,
    )

    accepted-result :
        (o : AuthenticatedAttestationObservation) (signer : String)
        → o.authenticated ≡ true
        → o.signer_identity ≡ some signer
        → check_observation o ≡ ok tt
        → is_ok (
            result attestation policy accepted
              (some o)
              (from_keys (o.verified_properties ++ base_verified_properties))
              none)
          ≡ true
    unfolding result result_value check_result check_attestation check_policy check_observation
    accepted-result o signer genuine signed checked = ground (
      arith,
      constructed.attestation_checked,
      constructed.reference_checked,
      constructed.policy_checked,
      is_unique-from_keys (o.verified_properties ++ base_verified_properties),
      all_non_empty-from_keys (o.verified_properties ++ base_verified_properties) 256,
      all_non_empty-append o.verified_properties base_verified_properties 256,
      all_non_empty-base,
    )

    is_ok-judge_signer :
        (o : AuthenticatedAttestationObservation) (signer : Option String)
        → o.signer_identity ≡ signer
        → o.authenticated ≡ true
        → check_observation o ≡ ok tt
        → is_ok (judge_signer attestation policy o signer) ≡ true
    is_ok-judge_signer o none e genuine checked = ground (
      arith,
      observed-result identity_rejected o (reason "authenticated-signer-identity-unavailable") refl
          refl checked,
    )
    is_ok-judge_signer o (some signer) e genuine checked = ground (
      arith,
      observed-result identity_rejected o (reason "authenticated-signer-identity-not-allowed") refl
          refl checked,
      observed-result policy_rejected o (reason "binding-profile-not-allowed") refl refl checked,
      observed-result policy_rejected o (reason "predicate-type-not-allowed") refl refl checked,
      accepted-result o signer genuine e checked,
    )

    is_ok-judge :
        (o : AuthenticatedAttestationObservation)
        → check_observation o ≡ ok tt
        → is_ok (judge attestation policy o) ≡ true
    unfolding judge
    is_ok-judge o checked = ground (
      arith,
      observed-result malformed o (reason "binding-observation-profile-mismatch") refl refl checked,
      plain-result authentication_failed (reason "attestation-authentication-failed") refl,
      observed-result subject_mismatch o (reason "authenticated-subject-does-not-match-artifact")
          refl refl checked,
      is_ok-judge_signer o o.signer_identity refl,
    )

    is_ok-verify_authenticated :
        (found : Authentication)
        → IsHonest found
        → is_ok (verify_authenticated attestation policy found) ≡ true
    is_ok-verify_authenticated (observed o) h = is_ok-judge o h
    is_ok-verify_authenticated (malformed_attestation m n) h =
        ground (arith, plain-result malformed (reason (or_name m n)) refl)
    is_ok-verify_authenticated (unsupported_attestation m n) h =
        ground (arith, plain-result unsupported (reason (or_name m n)) refl)
    is_ok-verify_authenticated other_error h = absurd h

    is_ok-verify_bound :
        (bytes : Bytes) (binding : Option AttestationBinding)
        → ((b : AttestationBinding) → binding ≡ some b → IsHonest (b.authenticate bytes))
        → is_ok (verify_bound attestation policy bytes binding) ≡ true
    is_ok-verify_bound bytes none honest =
        ground (arith, plain-result unsupported (reason "binding-profile-not-supported") refl)
    is_ok-verify_bound bytes (some b) honest = is_ok-verify_authenticated _ (honest b refl)

    is_ok-verify_read :
        (binding : Option AttestationBinding) (retrieved : Result ArtifactError Bytes)
        → IsServed retrieved
        → ((bytes : Bytes) (b : AttestationBinding)
            → binding ≡ some b
            → IsHonest (b.authenticate bytes))
        → is_ok (verify_read attestation policy binding retrieved) ≡ true
    is_ok-verify_read binding (ok bytes) served honest =
        is_ok-verify_bound bytes binding (honest bytes)
    is_ok-verify_read binding (raise (artifact_integrity_error _)) served honest =
        ground (arith, plain-result integrity_failed (reason "ArtifactIntegrityError") refl)
    is_ok-verify_read binding (raise value_error) served honest = absurd served
    is_ok-verify_read binding (raise (artifact_not_found _)) served honest = absurd served
    is_ok-verify_read binding (raise (artifact_digest_mismatch _ _)) served honest = absurd served
    is_ok-verify_read binding (raise (artifact_size_limit_exceeded _ _)) served honest =
        absurd served

-- On a constructed attestation and policy the evaluator always returns a result, if the store
-- returned the bytes or refused corrupted ones and the binding kept to its protocol.
pub is_ok-verify :
    (attestation : ArtifactAttestation) (policy : ArtifactTrustPolicy) (v : ArtifactTrustVerifier)
    → AreConstructed attestation policy
    → IsServed (v.read attestation.attestation)
    → ((bytes : Bytes) (b : AttestationBinding)
        → lookup attestation.binding_profile v.bindings ≡ some b
        → IsHonest (b.authenticate bytes))
    → is_ok (verify attestation policy v) ≡ true
unfolding verify
is_ok-verify attestation policy v constructed served honest =
    is_ok-verify_read attestation policy constructed _ _ served honest

result-accepted :
    (attestation : ArtifactAttestation) (policy : ArtifactTrustPolicy)
    (o : AuthenticatedAttestationObservation) (properties : List String)
    (answer : Result TrustError ArtifactTrustResult)
    → answer ≡ result attestation policy accepted (some o) properties none
    → is_ok answer ≡ true
    → (r : ArtifactTrustResult) × (answer ≡ ok r) × (r.outcome ≡ accepted)
unfolding result result_value
result-accepted attestation policy o properties (raise e) same h = ground arith
result-accepted attestation policy o properties (ok r) same h = (r, refl, ground arith)

-- What the policy allows is accepted: if the store returns the bytes, the binding of the profile
-- authenticates them as a constructed observation of that profile, and the observation names the
-- Artifact and an allowed signer with an allowed profile and predicate type, then the result is
-- ACCEPTED.
pub verify-accepts :
    (attestation : ArtifactAttestation) (policy : ArtifactTrustPolicy) (v : ArtifactTrustVerifier)
    (bytes : Bytes) (b : AttestationBinding) (o : AuthenticatedAttestationObservation)
    (signer : String)
    → AreConstructed attestation policy
    → v.read attestation.attestation ≡ ok bytes
    → lookup attestation.binding_profile v.bindings ≡ some b
    → b.authenticate bytes ≡ observed o
    → check_observation o ≡ ok tt
    → o.binding_profile ≡ attestation.binding_profile
    → o.authenticated ≡ true
    → contains attestation.artifact_digest o.subject_digests ≡ true
    → o.signer_identity ≡ some signer
    → contains signer policy.allowed_signer_identities ≡ true
    → outside attestation policy (some attestation.binding_profile) policy.allowed_binding_profiles
      ≡ false
    → outside attestation policy o.predicate_type policy.allowed_predicate_types ≡ false
    → (r : ArtifactTrustResult) × (verify attestation policy v ≡ ok r) × (r.outcome ≡ accepted)
unfolding verify judge
verify-accepts attestation policy v bytes b o signer constructed read bound seen checked profile
      genuine subject signed allowed allowed_profile allowed_predicate =
    result-accepted attestation policy o
      (from_keys (o.verified_properties ++ base_verified_properties)) _
      (ground (arith, eq_iff o.binding_profile attestation.binding_profile))
      (ground (
        arith,
        eq_iff o.binding_profile attestation.binding_profile,
        accepted-result attestation policy constructed o signer genuine signed checked,
      ))
