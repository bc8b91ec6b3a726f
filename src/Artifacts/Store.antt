-- ===== src/Artifacts/Store.antt =====
-- artifacts/memory.py: the in-memory ArtifactStore. The lock makes each method one step.
pub mod Reading
pub mod Streaming
use agent_verification_proto.Base.{
  ℕ, String, Bool, ◌||◌, not, Option, none, some, List, [], ltb, eqb, ◌==◌, if◌then◌else◌, Result,
  ok, raise, ◌>>=◌, ◌>>◌, Method, length, true, false, raise_if,
}
use agent_verification_proto.Base.Dict.{Dict, lookup, insert}
use agent_verification_proto.Artifacts.Refs.{
  ArtifactError, artifact_not_found, artifact_integrity_error, artifact_size_limit_exceeded, Bytes,
  ArtifactRef, validate_sha256_digest, validate_media_type, new_artifact_ref, sha256_digest,
  bytes_eq,
}
use agent_verification_proto.Artifacts.Stream.{
  validate_limit, consume_stream, verify_expected_digest,
}

pub record InMemoryArtifactStore : Type 0 where
  pub max_artifact_bytes : ℕ
  pub objects : Dict Bytes

unfoldable pub new_store : ℕ → Result ArtifactError InMemoryArtifactStore
new_store limit = do
  max_artifact_bytes ← validate_limit limit
  ok (record { max_artifact_bytes = max_artifact_bytes; objects = [] })

abbrev check_expected : Option String → Result ArtifactError (Unit {0})
check_expected none = ok tt
check_expected (some expected) = do _ ← validate_sha256_digest expected; ok tt

-- objects.setdefault(key, bytes)
abbrev set_default : String → Bytes → Option Bytes → Dict Bytes → Dict Bytes
set_default key bytes none objects = insert key bytes objects
set_default key bytes (some existing) objects = objects

abbrev differs : Option Bytes → Bytes → Bool
differs none bytes = false
differs (some existing) bytes = not (bytes_eq existing bytes)

module _ (hexdigest : Bytes → String) where
  -- What `put_bytes` checks before it takes the lock.
  unfoldable pub prepare :
      InMemoryArtifactStore → Bytes → String → Option String → Result ArtifactError ArtifactRef
  prepare store bytes media_type expected_digest = do
    _ ← validate_media_type media_type
    check_expected expected_digest
    raise_if (ltb store.max_artifact_bytes (length bytes))
        (artifact_size_limit_exceeded store.max_artifact_bytes (length bytes))
    verify_expected_digest expected_digest (sha256_digest hexdigest bytes)
    new_artifact_ref (sha256_digest hexdigest bytes) (length bytes) media_type none

  -- The part under the lock.
  unfoldable pub publish :
      Bytes
      → Result ArtifactError ArtifactRef
      → Method ArtifactError InMemoryArtifactStore ArtifactRef
  publish bytes (raise e) store = (raise e, store)
  publish bytes (ok ref) store =
      let actual = sha256_digest hexdigest bytes in
      let existing = lookup actual store.objects in
      if differs existing bytes
      then (raise (artifact_integrity_error actual), store)
      else (ok ref, record store { objects = set_default actual bytes existing store.objects })

  unfoldable pub put_bytes :
      Bytes → String → Option String → Method ArtifactError InMemoryArtifactStore ArtifactRef
  put_bytes bytes media_type expected_digest store =
      publish bytes (prepare store bytes media_type expected_digest) store

  abbrev put_read :
      String
      → Option String
      → Result ArtifactError (Bytes × String)
      → Method ArtifactError InMemoryArtifactStore ArtifactRef
  put_read media_type expected_digest (raise e) store = (raise e, store)
  put_read media_type expected_digest (ok (bytes, actual)) store =
      elim (verify_expected_digest expected_digest actual) [
        | raise e ↦ (raise e, store)
        | ok _ ↦ put_bytes bytes media_type (some actual) store
      ]

  unfoldable pub put_stream :
      List Bytes → String → Option String → Method ArtifactError InMemoryArtifactStore ArtifactRef
  put_stream stream media_type expected_digest store =
      elim (do _ ← validate_media_type media_type; check_expected expected_digest) [
        | raise e ↦ (raise e, store)
        | ok _ ↦
            put_read media_type expected_digest
              (consume_stream hexdigest store.max_artifact_bytes stream) store
      ]

  abbrev verify_found : ArtifactRef → Option Bytes → Result ArtifactError Bytes
  verify_found ref none = raise (artifact_not_found ref.digest)
  verify_found ref (some bytes) =
      if not (eqb (length bytes) ref.size) || not (sha256_digest hexdigest bytes == ref.digest)
      then raise (artifact_integrity_error ref.digest)
      else ok bytes

  unfoldable pub get_bytes : InMemoryArtifactStore → ArtifactRef → Result ArtifactError Bytes
  get_bytes store ref = verify_found ref (lookup ref.digest store.objects)

  abbrev verify_contained : String → Option Bytes → Result ArtifactError Bool
  verify_contained digest none = ok false
  verify_contained digest (some bytes) =
      if sha256_digest hexdigest bytes == digest
      then ok true
      else raise (artifact_integrity_error digest)

  unfoldable pub contains : InMemoryArtifactStore → String → Result ArtifactError Bool
  contains store digest = do
    _ ← validate_sha256_digest digest
    verify_contained digest (lookup digest store.objects)
