-- ===== src/Trust/Publisher.antt =====
-- trust/publisher.py, over the in-memory store. The signer is an interface; a reference is never
-- changed, so the last test of `publish` passes; a signer returns bytes or raises.
pub mod Reading
use agent_verification_proto.Base.{
  String, Option, none, Result, ok, raise, Method, ◌>>=◌, ◌>>◌, raise_if,
}
use agent_verification_proto.Base.Text.{is_empty}
use agent_verification_proto.Artifacts.Refs.{ArtifactError, Bytes, ArtifactRef}
use agent_verification_proto.Artifacts.Store.{InMemoryArtifactStore, put_bytes}
use agent_verification_proto.Trust.Models.{
  TrustError, invalid_value, store_error, ArtifactAttestation, check_attestation,
}

-- AttestationSigner
pub record AttestationSigner : Type 0 where
  pub binding_profile : String
  pub create_attestation : ArtifactRef → Option String → Result TrustError Bytes

pub record ArtifactAttestationPublisher : Type 0 where
  pub store : InMemoryArtifactStore
  pub signer : AttestationSigner

-- __init__
unfoldable pub new_publisher :
    InMemoryArtifactStore → AttestationSigner → Result TrustError ArtifactAttestationPublisher
new_publisher store signer = do
  raise_if (is_empty signer.binding_profile) invalid_value
  ok (record { store = store; signer = signer })

-- The attestation of what was stored
abbrev pub attested :
    String → ArtifactRef → Result ArtifactError ArtifactRef → Result TrustError ArtifactAttestation
attested profile artifact (raise e) = raise (store_error e)
attested profile artifact (ok ref) =
    let made : ArtifactAttestation = record {
      artifact_digest = artifact.digest;
      attestation = ref;
      binding_profile = profile;
    } in
    do check_attestation made; ok made

module _ (hexdigest : Bytes → String) where
  abbrev pub store_signed :
      ArtifactRef
      → String
      → Result TrustError Bytes
      → Method TrustError ArtifactAttestationPublisher ArtifactAttestation
  store_signed artifact media_type (raise e) p = (raise e, p)
  store_signed artifact media_type (ok bytes) p =
      let (stored, store) = put_bytes hexdigest bytes media_type none p.store in
      (attested p.signer.binding_profile artifact stored, record p { store = store })

  -- publish
  unfoldable pub publish_attestation :
      ArtifactRef
      → Option String
      → String
      → Method TrustError ArtifactAttestationPublisher ArtifactAttestation
  publish_attestation artifact predicate_type media_type p =
      store_signed artifact media_type (p.signer.create_attestation artifact predicate_type) p
