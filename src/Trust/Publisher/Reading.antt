-- ===== src/Trust/Publisher/Reading.antt =====
-- What a publication of trust/publisher.py leaves in the store
use agent_verification_proto.Base.{String, Option, none, subst, ◌≡◌, sym, Result, ok, raise, arith}
use agent_verification_proto.Artifacts.Refs.{ArtifactError, Bytes, ArtifactRef}
use agent_verification_proto.Artifacts.Store.{put_bytes, get_bytes}
use agent_verification_proto.Artifacts.Store.Reading.{get_bytes-put_bytes}
use agent_verification_proto.Trust.Models.{TrustError, ArtifactAttestation}
use agent_verification_proto.Trust.Publisher.{
  ArtifactAttestationPublisher, attested, store_signed, publish_attestation,
}

attested_lem :
    (profile : String) (artifact : ArtifactRef) (stored : Result ArtifactError ArtifactRef)
    (made : ArtifactAttestation)
    → attested profile artifact stored ≡ ok made
    → (made.artifact_digest ≡ artifact.digest)
      × (made.binding_profile ≡ profile)
      × (stored ≡ ok made.attestation)
attested_lem profile artifact (raise e) made h = absurd (ground (arith, h))
attested_lem profile artifact (ok ref) made h = ground (arith, h)

module _ (hexdigest : Bytes → String) where
  -- What a publication leaves: the attestation names the Artifact and the signer's profile, and its
  -- reference reads the signed bytes.
  abbrev pub IsPublished :
      ArtifactRef
      → ArtifactAttestationPublisher
      → Bytes
      → ArtifactAttestation
      → ArtifactAttestationPublisher
      → Type 0
  IsPublished artifact p bytes made after =
      (made.artifact_digest ≡ artifact.digest)
      × (made.binding_profile ≡ p.signer.binding_profile)
      × (get_bytes hexdigest after.store made.attestation ≡ ok bytes)

  stored-IsPublished :
      (artifact : ArtifactRef) (media_type : String) (p : ArtifactAttestationPublisher)
      (bytes : Bytes) (made : ArtifactAttestation)
      → (store_signed hexdigest artifact media_type (ok bytes) p).0 ≡ ok made
      → IsPublished artifact p bytes made
          (store_signed hexdigest artifact media_type (ok bytes) p).1
  stored-IsPublished artifact media_type p bytes made h =
      let (named, profiled, stored) =
        attested_lem p.signer.binding_profile artifact
          (put_bytes hexdigest bytes media_type none p.store).0 made h in
      (
        named,
        profiled,
        get_bytes-put_bytes hexdigest bytes media_type none p.store made.attestation stored,
      )

  signed-IsPublished :
      (artifact : ArtifactRef) (media_type : String) (p : ArtifactAttestationPublisher)
      (signed : Result TrustError Bytes) (bytes : Bytes) (made : ArtifactAttestation)
      → signed ≡ ok bytes
      → (store_signed hexdigest artifact media_type signed p).0 ≡ ok made
      → IsPublished artifact p bytes made (store_signed hexdigest artifact media_type signed p).1
  signed-IsPublished artifact media_type p signed bytes made is_signed h =
      subst
        (λ outcome.
          (store_signed hexdigest artifact media_type outcome p).0 ≡ ok made
          → IsPublished artifact p bytes made
              (store_signed hexdigest artifact media_type outcome p).1)
        (sym is_signed) (stored-IsPublished artifact media_type p bytes made) h

  -- If the signer signs with these bytes and the publication returns an attestation, then the
  -- attestation is about the given Artifact, has the signer's profile, and its reference reads exactly
  -- the signed bytes from the store.
  publish_attestation-IsPublished :
      (artifact : ArtifactRef) (predicate_type : Option String) (media_type : String)
      (p : ArtifactAttestationPublisher) (bytes : Bytes) (made : ArtifactAttestation)
      → p.signer.create_attestation artifact predicate_type ≡ ok bytes
      → (publish_attestation hexdigest artifact predicate_type media_type p).0 ≡ ok made
      → IsPublished artifact p bytes made
          (publish_attestation hexdigest artifact predicate_type media_type p).1
  unfolding publish_attestation
  publish_attestation-IsPublished artifact predicate_type media_type p bytes made signed h =
      signed-IsPublished artifact media_type p (p.signer.create_attestation artifact predicate_type)
        bytes made signed h
