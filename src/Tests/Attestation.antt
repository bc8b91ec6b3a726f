-- ===== src/Tests/Attestation.antt =====
-- One attested Artifact, accepted by its policy.
use agent_verification_proto.Base.{
  String, ◌≡◌, refl, true, none, some, [], ◌∷◌, is_ok, ok, subst, sym, ap, ◌∙◌,
}
use agent_verification_proto.Base.Text.{is_sha256}
use agent_verification_proto.Base.Dict.{lookup}
use agent_verification_proto.Artifacts.Refs.{Bytes}
use agent_verification_proto.Trust.Models.{
  accepted, ArtifactAttestation, ArtifactTrustPolicy, AuthenticatedAttestationObservation,
  ArtifactTrustResult, check_attestation, check_policy, check_observation, check_result, non_empty,
  unique_non_empty,
}
use agent_verification_proto.Trust.Verifier.{
  Authentication, observed, malformed_attestation, AttestationBinding, ArtifactTrustVerifier,
  from_keys, result_value, result, judge, verify,
}
use agent_verification_proto.Trust.Verifier.Decision.{IsTrusted, verify-IsTrusted}
use agent_verification_proto.Trust.Verifier.Totality.{
  IsHonest, AreConstructed, is_ok-verify, verify-accepts,
}

abbrev sha : String
sha = "sha256:0123456789abcdef0123456789abcdef0123456789abcdef0123456789abcdef"

abbrev attestation : ArtifactAttestation
attestation = record {
  artifact_digest = sha;
  attestation = record { digest = sha; size = 2; media_type = "application/json"; uri = none };
  binding_profile = "avp.trust/dsse-v0.1";
}

abbrev policy : ArtifactTrustPolicy
policy = record {
  policy_id = "release";
  allowed_signer_identities = "ci@example.org" ∷ [];
  allowed_binding_profiles = some ("avp.trust/dsse-v0.1" ∷ []);
  allowed_predicate_types = some ("provenance" ∷ []);
}

abbrev observation : AuthenticatedAttestationObservation
observation = record {
  binding_profile = "avp.trust/dsse-v0.1";
  authenticated = true;
  subject_digests = sha ∷ [];
  signer_identity = some "ci@example.org";
  statement_type = none;
  predicate_type = some "provenance";
  verified_properties = "signer.identity" ∷ "transparency.inclusion" ∷ [];
}

abbrev authenticate_first : Bytes → Authentication
authenticate_first [] = malformed_attestation "empty" "MalformedAttestationError"
authenticate_first (_ ∷ _) = observed observation

abbrev dsse : AttestationBinding
dsse = record { binding_profile = "avp.trust/dsse-v0.1"; authenticate = authenticate_first }

abbrev verifier : ArtifactTrustVerifier
verifier = record { read = λ ref. ok (1 ∷ 2 ∷ []); bindings = ("avp.trust/dsse-v0.1", dsse) ∷ [] }

abbrev acceptance : ArtifactTrustResult
acceptance = record {
  artifact_digest = sha;
  attestation_digest = sha;
  binding_profile = "avp.trust/dsse-v0.1";
  policy_id = "release";
  outcome = accepted;
  signer_identity = some "ci@example.org";
  statement_type = none;
  predicate_type = some "provenance";
  verified_properties =
      "signer.identity" ∷ "transparency.inclusion" ∷ "attestation.authentication"
      ∷ "artifact.subject-binding" ∷ "policy.acceptance" ∷ [];
  diagnostics = none;
}

accepts : verify attestation policy verifier ≡ ok acceptance
unfolding verify judge result result_value check_result from_keys lookup non_empty is_sha256
accepts = refl

verify-IsTrusted_example : IsTrusted attestation policy verifier acceptance
verify-IsTrusted_example = verify-IsTrusted attestation policy verifier acceptance accepts refl

constructed : AreConstructed attestation policy
unfolding check_attestation check_policy non_empty unique_non_empty is_sha256
constructed = record { attestation_checked = refl; reference_checked = refl; policy_checked = refl }

observation_checked : check_observation observation ≡ ok tt
unfolding check_observation non_empty is_sha256
observation_checked = refl

found : lookup "avp.trust/dsse-v0.1" verifier.bindings ≡ some dsse
unfolding lookup
found = refl

honest : (bytes : Bytes) → IsHonest (authenticate_first bytes)
honest [] = tt
honest (_ ∷ _) = observation_checked

authenticate-IsHonest :
    (bytes : Bytes) (b : AttestationBinding) → some dsse ≡ some b → IsHonest (b.authenticate bytes)
authenticate-IsHonest bytes b h =
    subst (λ x. IsHonest (x.authenticate bytes)) (ap (λ o. elim o [ none ↦ dsse | some x ↦ x ]) h)
      (honest bytes)

is_ok-verify_example : is_ok (verify attestation policy verifier) ≡ true
is_ok-verify_example =
    is_ok-verify attestation policy verifier constructed tt
      (λ bytes b h. authenticate-IsHonest bytes b (sym found ∙ h))

verify-accepts_example :
    (r : ArtifactTrustResult) × (verify attestation policy verifier ≡ ok r) × (r.outcome ≡ accepted)
verify-accepts_example =
    verify-accepts attestation policy verifier (1 ∷ 2 ∷ []) dsse observation "ci@example.org"
      constructed refl found refl observation_checked refl refl refl refl refl refl refl
