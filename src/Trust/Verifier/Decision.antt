-- ===== src/Trust/Verifier/Decision.antt =====
-- When the evaluator accepts, and what it discloses when it does not.
use agent_verification_proto.Base.{
  String, ◌≡◌, refl, true, false, Option, none, some, List, [], ◌∷◌, ◌++◌, contains, all, ◌≢◌,
  Result, ok, raise, arith, eq_iff,
}
use agent_verification_proto.Base.Dict.{lookup}
use agent_verification_proto.Base.Json.{Fields}
use agent_verification_proto.Artifacts.Refs.{
  ArtifactError, value_error, artifact_not_found, artifact_integrity_error,
  artifact_digest_mismatch, artifact_size_limit_exceeded, Bytes,
}
use agent_verification_proto.Trust.Models.{
  ArtifactTrustOutcome, accepted, integrity_failed, malformed, unsupported, authentication_failed,
  subject_mismatch, identity_rejected, policy_rejected, ArtifactAttestation, ArtifactTrustPolicy,
  AuthenticatedAttestationObservation, ArtifactTrustResult,
}
use agent_verification_proto.Trust.Verifier.{
  Authentication, observed, malformed_attestation, unsupported_attestation, other_error,
  AttestationBinding, ArtifactTrustVerifier, base_verified_properties, from_keys, without, reason,
  result_value, result, outside, judge_signer, judge, verify_authenticated, verify_read, verify,
}

contains-without :
    (x value : String) (xs : List String)
    → x ≢ value
    → contains x xs ≡ true
    → contains x (without value xs) ≡ true
contains-without x value [] differs h = ground arith
contains-without x value (y ∷ ys) differs h =
    ground (arith, contains-without x value ys differs, eq_iff y value, eq_iff y x)

-- dict.fromkeys loses no value.
pub contains-from_keys :
    (x : String) (xs : List String) → contains x xs ≡ true → contains x (from_keys xs) ≡ true
unfolding from_keys
contains-from_keys x [] h = ground arith
contains-from_keys x (y ∷ ys) h =
    ground (arith, eq_iff y x, contains-from_keys x ys, contains-without x y (from_keys ys))

contains-append_right :
    (x : String) (xs ys : List String) → contains x ys ≡ true → contains x (xs ++ ys) ≡ true
contains-append_right x [] ys h = h
contains-append_right x (y ∷ xs) ys h = ground (arith, contains-append_right x xs ys)

all-base :
    (properties : List String)
    → all
        (λ name. contains name (from_keys (properties ++ base_verified_properties)))
        base_verified_properties
      ≡ true
all-base properties =
    let base = λ (name : String) (h : contains name base_verified_properties ≡ true).
      contains-from_keys name (properties ++ base_verified_properties)
        (contains-append_right name properties base_verified_properties h) in
    ground (
      arith,
      base "attestation.authentication" refl,
      base "artifact.subject-binding" refl,
      base "signer.identity" refl,
      base "policy.acceptance" refl,
    )

module _ (attestation : ArtifactAttestation) (policy : ArtifactTrustPolicy) where
  -- An authenticated observation names the Artifact and a signer, and the policy allows its signer,
  -- its profile and its predicate type.
  pub record IsApproved (o : AuthenticatedAttestationObservation) (r : ArtifactTrustResult)
      : Type 0 where
    pub same_profile : o.binding_profile ≡ attestation.binding_profile
    pub genuine : o.authenticated ≡ true
    pub subject : contains attestation.artifact_digest o.subject_digests ≡ true
    pub signer : String
    pub signed : o.signer_identity ≡ some signer
    pub trusted_signer : contains signer policy.allowed_signer_identities ≡ true
    pub trusted_profile :
        outside attestation policy
          (some attestation.binding_profile)
          policy.allowed_binding_profiles
        ≡ false
    pub trusted_predicate :
        outside attestation policy o.predicate_type policy.allowed_predicate_types ≡ false
    pub reported_signer : r.signer_identity ≡ some signer
    pub reported_digest : r.artifact_digest ≡ attestation.artifact_digest
    pub reported_properties :
        all (λ name. contains name r.verified_properties) base_verified_properties ≡ true

  result-value :
      (outcome : ArtifactTrustOutcome) (o : Option AuthenticatedAttestationObservation)
      (properties : List String) (diagnostics : Option Fields) (r : ArtifactTrustResult)
      → result attestation policy outcome o properties diagnostics ≡ ok r
      → r ≡ result_value attestation policy outcome o properties diagnostics
  unfolding result
  result-value outcome o properties diagnostics r h = ground arith

  signer-IsApproved :
      (o : AuthenticatedAttestationObservation) (signer : Option String) (r : ArtifactTrustResult)
      → o.signer_identity ≡ signer
      → o.binding_profile ≡ attestation.binding_profile
      → o.authenticated ≡ true
      → contains attestation.artifact_digest o.subject_digests ≡ true
      → judge_signer attestation policy o signer ≡ ok r
      → r.outcome ≡ accepted
      → IsApproved o r
  unfolding result_value
  signer-IsApproved o none r e p g s h a =
      ground (arith, result-value identity_rejected (some o) [] _ r h)
  signer-IsApproved o (some signer) r e p g s h a = ground (
    arith,
    result-value identity_rejected (some o) [] (reason "authenticated-signer-identity-not-allowed")
        r,
    result-value policy_rejected (some o) [] (reason "binding-profile-not-allowed") r,
    result-value policy_rejected (some o) [] (reason "predicate-type-not-allowed") r,
    result-value accepted (some o) (from_keys (o.verified_properties ++ base_verified_properties))
        none r,
    all-base o.verified_properties,
  )

  judge-IsApproved :
      (o : AuthenticatedAttestationObservation) (r : ArtifactTrustResult)
      → judge attestation policy o ≡ ok r
      → r.outcome ≡ accepted
      → IsApproved o r
  unfolding judge result_value
  judge-IsApproved o r h a = ground (
    arith,
    eq_iff o.binding_profile attestation.binding_profile,
    result-value malformed (some o) [] (reason "binding-observation-profile-mismatch") r,
    result-value authentication_failed none [] (reason "attestation-authentication-failed") r,
    result-value subject_mismatch (some o) []
        (reason "authenticated-subject-does-not-match-artifact") r,
    signer-IsApproved o o.signer_identity r refl,
  )

  authenticated-IsApproved :
      (found : Authentication) (r : ArtifactTrustResult)
      → verify_authenticated attestation policy found ≡ ok r
      → r.outcome ≡ accepted
      → (o : AuthenticatedAttestationObservation) × (found ≡ observed o) × IsApproved o r
  unfolding result_value
  authenticated-IsApproved (observed o) r h a = (o, refl, judge-IsApproved o r h a)
  authenticated-IsApproved (malformed_attestation m n) r h a =
      ground (arith, result-value malformed none [] _ r h)
  authenticated-IsApproved (unsupported_attestation m n) r h a =
      ground (arith, result-value unsupported none [] _ r h)
  authenticated-IsApproved other_error r h a = ground arith

  -- What an acceptance rests on: the attestation's bytes came from the store, the binding of the
  -- attestation's own profile authenticated them, and what it observed is approved.
  pub record IsTrusted (v : ArtifactTrustVerifier) (r : ArtifactTrustResult) : Type 0 where
    pub bytes : Bytes
    pub retrieved : v.read attestation.attestation ≡ ok bytes
    pub binding : AttestationBinding
    pub bound : lookup attestation.binding_profile v.bindings ≡ some binding
    pub observation : AuthenticatedAttestationObservation
    pub authenticated : binding.authenticate bytes ≡ observed observation
    pub approved : IsApproved observation r

  read-IsTrusted :
      (v : ArtifactTrustVerifier) (binding : Option AttestationBinding)
      (retrieved : Result ArtifactError Bytes) (r : ArtifactTrustResult)
      → lookup attestation.binding_profile v.bindings ≡ binding
      → v.read attestation.attestation ≡ retrieved
      → verify_read attestation policy binding retrieved ≡ ok r
      → r.outcome ≡ accepted
      → IsTrusted v r
  unfolding result_value
  read-IsTrusted v binding (raise (artifact_integrity_error _)) r e f h a =
      ground (arith, result-value integrity_failed none [] _ r h)
  read-IsTrusted v binding (raise value_error) r e f h a = ground arith
  read-IsTrusted v binding (raise (artifact_not_found _)) r e f h a = ground arith
  read-IsTrusted v binding (raise (artifact_digest_mismatch _ _)) r e f h a = ground arith
  read-IsTrusted v binding (raise (artifact_size_limit_exceeded _ _)) r e f h a = ground arith
  read-IsTrusted v none (ok bytes) r e f h a =
      ground (arith, result-value unsupported none [] _ r h)
  read-IsTrusted v (some binding) (ok bytes) r e f h a =
      let found = authenticated-IsApproved (binding.authenticate bytes) r h a in
      record {
        bytes = bytes;
        retrieved = f;
        binding = binding;
        bound = e;
        observation = found.0;
        authenticated = found.1;
        approved = found.2;
      }

-- The evaluator fails closed: a result with the outcome ACCEPTED comes only from bytes that the
-- store returned, that the binding of the attestation's profile authenticated, and whose observation
-- names the requested Artifact and a signer that the policy allows, under an allowed profile and
-- predicate type; the result reports that signer and the four base properties.
pub verify-IsTrusted :
    (attestation : ArtifactAttestation) (policy : ArtifactTrustPolicy) (v : ArtifactTrustVerifier)
    (r : ArtifactTrustResult)
    → verify attestation policy v ≡ ok r
    → r.outcome ≡ accepted
    → IsTrusted attestation policy v r
unfolding verify
verify-IsTrusted attestation policy v r h a =
    read-IsTrusted attestation policy v _ _ r refl refl h a
