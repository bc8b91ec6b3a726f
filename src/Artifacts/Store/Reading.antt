-- ===== src/Artifacts/Store/Reading.antt =====
-- What can be read back from the store, and what a failed publication leaves behind.
use agent_verification_proto.Base.{
  String, ◌≡◌, refl, Option, none, some, Result, ok, raise, arith, eq_iff, length, Option-cases,
  inl, inr,
}
use agent_verification_proto.Base.Dict.{lookup, lookup-insert, lookup-insert_self}
use agent_verification_proto.Artifacts.Refs.{
  ArtifactError, Bytes, ArtifactRef, new_artifact_ref_fields, sha256_digest, bytes_eq_sound,
}
use agent_verification_proto.Artifacts.Store.{
  InMemoryArtifactStore, prepare, publish, put_bytes, get_bytes,
}

module _ (hexdigest : Bytes → String) where
  -- Every object stands under the digest of its bytes.
  pub record IsContentAddressed (store : InMemoryArtifactStore) : Type 0 where
    pub addressed :
        (digest : String) (bytes : Bytes)
        → lookup digest store.objects ≡ some bytes
        → sha256_digest hexdigest bytes ≡ digest

  publish-IsContentAddressed :
      (bytes : Bytes) (prepared : Result ArtifactError ArtifactRef) (store : InMemoryArtifactStore)
      → IsContentAddressed store
      → IsContentAddressed (publish hexdigest bytes prepared store).1
  unfolding publish
  publish-IsContentAddressed bytes (raise e) store v = v
  publish-IsContentAddressed bytes (ok ref) store v = record {
    addressed = λ digest found h. ground (
      arith,
      v.addressed digest found,
      lookup-insert (sha256_digest hexdigest bytes) digest bytes store.objects,
      eq_iff (sha256_digest hexdigest bytes) digest,
    );
  }

  -- A publication keeps every object of the store under the digest of its bytes, if they stood so.
  pub put_bytes-IsContentAddressed :
      (bytes : Bytes) (media_type : String) (expected : Option String)
      (store : InMemoryArtifactStore)
      → IsContentAddressed store
      → IsContentAddressed (put_bytes hexdigest bytes media_type expected store).1
  unfolding put_bytes
  put_bytes-IsContentAddressed bytes media_type expected store =
      publish-IsContentAddressed bytes (prepare hexdigest store bytes media_type expected) store

  publish_raise :
      (bytes : Bytes) (prepared : Result ArtifactError ArtifactRef) (store : InMemoryArtifactStore)
      (e : ArtifactError)
      → (publish hexdigest bytes prepared store).0 ≡ raise e
      → (publish hexdigest bytes prepared store).1 ≡ store
  unfolding publish
  publish_raise bytes (raise f) store e h = refl
  publish_raise bytes (ok ref) store e h = ground arith

  -- What `prepare` accepts is the identity of the exact bytes.
  prepare-ok :
      (store : InMemoryArtifactStore) (bytes : Bytes) (media_type : String)
      (expected : Option String) (ref : ArtifactRef)
      → prepare hexdigest store bytes media_type expected ≡ ok ref
      → (ref.digest ≡ sha256_digest hexdigest bytes) × (ref.size ≡ length bytes)
  unfolding prepare
  prepare-ok store bytes media_type expected ref h = ground (
    arith,
    new_artifact_ref_fields (sha256_digest hexdigest bytes) (length bytes) media_type none ref,
  )

  -- A publication of bytes that raises leaves the store as it was.
  pub put_bytes_raise :
      (bytes : Bytes) (media_type : String) (expected : Option String)
      (store : InMemoryArtifactStore) (e : ArtifactError)
      → (put_bytes hexdigest bytes media_type expected store).0 ≡ raise e
      → (put_bytes hexdigest bytes media_type expected store).1 ≡ store
  unfolding put_bytes
  put_bytes_raise bytes media_type expected store =
      publish_raise bytes (prepare hexdigest store bytes media_type expected) store

  publish-lookup :
      (bytes : Bytes) (prepared : Result ArtifactError ArtifactRef) (store : InMemoryArtifactStore)
      (ref : ArtifactRef)
      → (publish hexdigest bytes prepared store).0 ≡ ok ref
      → (prepared ≡ ok ref)
        × (lookup (sha256_digest hexdigest bytes) (publish hexdigest bytes prepared store).1.objects
            ≡ some bytes)
  unfolding publish
  publish-lookup bytes (raise f) store ref h = cc
  publish-lookup bytes (ok r) store ref h =
      elim (Option-cases (lookup (sha256_digest hexdigest bytes) store.objects)) [
        | inl e ↦
            ground
              (arith, e, lookup-insert_self (sha256_digest hexdigest bytes) bytes store.objects)
        | inr (existing, e) ↦ ground (arith, e, bytes_eq_sound existing bytes)
      ]

  -- What was published is read back, byte for byte, by the reference that came back.
  pub get_bytes-put_bytes :
      (bytes : Bytes) (media_type : String) (expected : Option String)
      (store : InMemoryArtifactStore) (ref : ArtifactRef)
      → (put_bytes hexdigest bytes media_type expected store).0 ≡ ok ref
      → get_bytes hexdigest (put_bytes hexdigest bytes media_type expected store).1 ref ≡ ok bytes
  unfolding put_bytes get_bytes
  get_bytes-put_bytes bytes media_type expected store ref h =
      let (p, found) =
        publish-lookup bytes (prepare hexdigest store bytes media_type expected) store ref h in
      let facts = prepare-ok store bytes media_type expected ref p in
      ground (arith, facts, found, eq_iff (sha256_digest hexdigest bytes) ref.digest)

  publish_keeps :
      (bytes : Bytes) (prepared : Result ArtifactError ArtifactRef) (store : InMemoryArtifactStore)
      (digest : String) (old : Bytes)
      → lookup digest store.objects ≡ some old
      → lookup digest (publish hexdigest bytes prepared store).1.objects ≡ some old
  unfolding publish
  publish_keeps bytes (raise f) store digest old h = h
  publish_keeps bytes (ok ref) store digest old h = ground (
    arith,
    lookup-insert (sha256_digest hexdigest bytes) digest bytes store.objects,
    eq_iff (sha256_digest hexdigest bytes) digest,
  )

  -- A publication never replaces what is stored under any digest.
  pub put_bytes_keeps :
      (bytes : Bytes) (media_type : String) (expected : Option String)
      (store : InMemoryArtifactStore) (digest : String) (old : Bytes)
      → lookup digest store.objects ≡ some old
      → lookup digest (put_bytes hexdigest bytes media_type expected store).1.objects ≡ some old
  unfolding put_bytes
  put_bytes_keeps bytes media_type expected store =
      publish_keeps bytes (prepare hexdigest store bytes media_type expected) store
