-- ===== src/Artifacts/Store/Streaming.antt =====
-- Publication of a stream against publication of its bytes.
use agent_verification_proto.Base.{
  ◌≤◌, String, ◌≡◌, Option, none, some, List, eq_iff, length, arith,
}
use agent_verification_proto.Artifacts.Refs.{
  Bytes, validate_sha256_digest, validate_media_type, new_artifact_ref, sha256_digest,
}
use agent_verification_proto.Artifacts.Stream.{join, verify_expected_digest, consume_stream-eq-join}
use agent_verification_proto.Artifacts.Store.{
  InMemoryArtifactStore, prepare, publish, put_bytes, put_stream,
}

module _ (hexdigest : Bytes → String) where
  -- Publishing a stream that fits the store's limit is publishing its bytes, however it is cut
  -- into chunks: the same result, the same error and the same store.
  pub put_stream-eq-put_bytes :
      (chunks : List Bytes) (media_type : String) (expected : Option String)
      (store : InMemoryArtifactStore)
      → length (join chunks) ≤ store.max_artifact_bytes
      → put_stream hexdigest chunks media_type expected store
        ≡ put_bytes hexdigest (join chunks) media_type expected store
  unfolding put_stream put_bytes prepare publish validate_media_type validate_sha256_digest
      new_artifact_ref verify_expected_digest
  put_stream-eq-put_bytes chunks media_type none store h = ground (
    arith,
    consume_stream-eq-join hexdigest store.max_artifact_bytes chunks h,
    eq_iff (sha256_digest hexdigest (join chunks)) (sha256_digest hexdigest (join chunks)),
  )
  put_stream-eq-put_bytes chunks media_type (some wanted) store h = ground (
    arith,
    consume_stream-eq-join hexdigest store.max_artifact_bytes chunks h,
    eq_iff wanted (sha256_digest hexdigest (join chunks)),
    eq_iff (sha256_digest hexdigest (join chunks)) (sha256_digest hexdigest (join chunks)),
  )
