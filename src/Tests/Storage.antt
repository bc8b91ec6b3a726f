-- ===== src/Tests/Storage.antt =====
-- A store with one object, under a digest function of the right shape.
use agent_verification_proto.Base.{
  eqb, if◌then◌else◌, String, ◌≡◌, refl, none, some, [], ◌∷◌, length, ok, raise, arith,
}
use agent_verification_proto.Base.Text.{◌<>◌, is_sha256}
use agent_verification_proto.Base.Dict.{lookup}
use agent_verification_proto.Artifacts.Refs.{
  artifact_size_limit_exceeded, Bytes, ArtifactRef, validate_sha256_digest, validate_media_type,
  new_artifact_ref, sha256_digest,
}
use agent_verification_proto.Artifacts.Stream.{verify_expected_digest}
use agent_verification_proto.Artifacts.Store.{
  InMemoryArtifactStore, prepare, publish, put_bytes, put_stream, get_bytes,
}
use agent_verification_proto.Artifacts.Store.Reading.{
  IsContentAddressed, put_bytes-IsContentAddressed, get_bytes-put_bytes,
}
use agent_verification_proto.Artifacts.Store.Streaming.{put_stream-eq-put_bytes}

abbrev hexdigest : Bytes → String
hexdigest bytes =
    if eqb (length bytes) 2
    then "0123456789abcdef0123456789abcdef0123456789abcdef0123456789abcdef"
    else "fedcba9876543210fedcba9876543210fedcba9876543210fedcba9876543210"

abbrev store : InMemoryArtifactStore
store = record {
  max_artifact_bytes = 4;
  objects = ("sha256:" <> hexdigest (7 ∷ 8 ∷ []), 7 ∷ 8 ∷ []) ∷ [];
}

abbrev ref : ArtifactRef
ref = record {
  digest = "sha256:fedcba9876543210fedcba9876543210fedcba9876543210fedcba9876543210";
  size = 3;
  media_type = "text/plain";
  uri = none;
}

put_succeeds : (put_bytes hexdigest (1 ∷ 2 ∷ 3 ∷ []) "text/plain" none store).0 ≡ ok ref
unfolding put_bytes prepare publish new_artifact_ref validate_media_type validate_sha256_digest
    verify_expected_digest sha256_digest is_sha256 lookup
put_succeeds = refl

get_bytes-put_bytes_example :
    get_bytes hexdigest (put_bytes hexdigest (1 ∷ 2 ∷ 3 ∷ []) "text/plain" none store).1 ref
    ≡ ok (1 ∷ 2 ∷ 3 ∷ [])
get_bytes-put_bytes_example =
    get_bytes-put_bytes hexdigest (1 ∷ 2 ∷ 3 ∷ []) "text/plain" none store ref put_succeeds

abbrev too_long : Bytes
too_long = 1 ∷ 2 ∷ 3 ∷ 4 ∷ 5 ∷ []

put_refused :
    (put_bytes hexdigest too_long "text/plain" none store).0
    ≡ raise (artifact_size_limit_exceeded 4 5)
unfolding put_bytes prepare publish new_artifact_ref validate_media_type validate_sha256_digest
    verify_expected_digest sha256_digest is_sha256 lookup
put_refused = refl

abbrev empty_store : InMemoryArtifactStore
empty_store = record { max_artifact_bytes = 4; objects = [] }

empty-IsContentAddressed : IsContentAddressed hexdigest empty_store
unfolding lookup
empty-IsContentAddressed = record { addressed = λ digest bytes h. ground arith }

put_bytes-IsContentAddressed_example :
    IsContentAddressed hexdigest
      (put_bytes hexdigest (1 ∷ 2 ∷ 3 ∷ []) "text/plain" none empty_store).1
put_bytes-IsContentAddressed_example =
    put_bytes-IsContentAddressed hexdigest (1 ∷ 2 ∷ 3 ∷ []) "text/plain" none empty_store
      empty-IsContentAddressed

stored : lookup ("sha256:" <> hexdigest (7 ∷ 8 ∷ [])) store.objects ≡ some (7 ∷ 8 ∷ [])
unfolding lookup
stored = refl

put_stream-eq-put_bytes_example :
    put_stream hexdigest ((1 ∷ []) ∷ (2 ∷ 3 ∷ []) ∷ []) "text/plain" (some "other") store
    ≡ put_bytes hexdigest (1 ∷ 2 ∷ 3 ∷ []) "text/plain" (some "other") store
put_stream-eq-put_bytes_example =
    put_stream-eq-put_bytes hexdigest ((1 ∷ []) ∷ (2 ∷ 3 ∷ []) ∷ []) "text/plain" (some "other")
      store (omega arith)
