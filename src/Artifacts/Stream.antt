-- ===== src/Artifacts/Stream.antt =====
-- artifacts/_io.py: the bounded reading of a stream, and the test of an expected digest.
-- A stream is the list of the non-empty chunks that its `read` returns before the empty one.
use agent_verification_proto.Base.{
  ℕ, ◌+◌, ◌≤◌, String, ◌≡◌, Option, none, some, List, [], ◌∷◌, ◌++◌, ltb, eqb, ◌==◌, if◌then◌else◌,
  Result, ok, raise, ◌>>=◌, arith, length, length-append, ◌<◌, refl, inl, inr, Bool-cases,
}
use agent_verification_proto.Artifacts.Refs.{
  ArtifactError, value_error, artifact_digest_mismatch, artifact_size_limit_exceeded, Bytes,
  validate_sha256_digest, sha256_digest,
}
use mathlib.Core.List.{append_assoc, append-nil}

unfoldable pub validate_limit : ℕ → Result ArtifactError ℕ
validate_limit value = if eqb value 0 then raise value_error else ok value

-- The loop of `consume_stream`: `buffer` is what was read, `size` its length.
unfoldable pub consume_from : ℕ → Bytes → ℕ → List Bytes → Result ArtifactError Bytes
consume_from max_bytes buffer size [] = ok buffer
consume_from max_bytes buffer size (chunk ∷ chunks) =
    let rest = consume_from max_bytes (buffer ++ chunk) (size + length chunk) chunks in
    if ltb max_bytes (size + length chunk)
    then raise (artifact_size_limit_exceeded max_bytes (size + length chunk))
    else rest

unfoldable pub consume_stream :
    (Bytes → String) → ℕ → List Bytes → Result ArtifactError (Bytes × String)
unfolding consume_from
consume_stream hexdigest max_bytes chunks = do
  read ← consume_from max_bytes [] 0 chunks
  ok (read, sha256_digest hexdigest read)

unfoldable pub verify_expected_digest : Option String → String → Result ArtifactError (Unit {0})
verify_expected_digest none actual = ok tt
verify_expected_digest (some expected) actual = do
  _ ← validate_sha256_digest expected
  if expected == actual then ok tt else raise (artifact_digest_mismatch expected actual)

abbrev pub join : List Bytes → Bytes
join [] = []
join (chunk ∷ chunks) = chunk ++ join chunks

consume_from-eq-join :
    (max_bytes : ℕ) (buffer : Bytes) (size : ℕ) (chunks : List Bytes)
    → size + length (join chunks) ≤ max_bytes
    → consume_from max_bytes buffer size chunks ≡ ok (buffer ++ join chunks)
unfolding consume_from
consume_from-eq-join max_bytes buffer size [] h = rw append-nil
consume_from-eq-join max_bytes buffer size (chunk ∷ chunks) h = ground (
  arith,
  length-append chunk (join chunks),
  consume_from-eq-join max_bytes (buffer ++ chunk) (size + length chunk) chunks,
  append_assoc buffer chunk (join chunks),
)

-- A stream within the limit is read whole, however it is cut into chunks.
pub consume_stream-eq-join :
    (hexdigest : Bytes → String) (max_bytes : ℕ) (chunks : List Bytes)
    → length (join chunks) ≤ max_bytes
    → consume_stream hexdigest max_bytes chunks
      ≡ ok (join chunks, sha256_digest hexdigest (join chunks))
unfolding consume_stream
consume_stream-eq-join hexdigest max_bytes chunks h =
    rw (consume_from-eq-join max_bytes [] 0 chunks (omega arith))

consume_from_over :
    (max_bytes : ℕ) (buffer : Bytes) (size : ℕ) (chunks : List Bytes)
    → size ≤ max_bytes
    → max_bytes < size + length (join chunks)
    → (observed : ℕ) × (max_bytes < observed)
      × (consume_from max_bytes buffer size chunks
          ≡ raise (artifact_size_limit_exceeded max_bytes observed))
unfolding consume_from
consume_from_over max_bytes buffer size [] fits h = absurd (omega arith)
consume_from_over max_bytes buffer size (chunk ∷ chunks) fits h =
    elim (Bool-cases (ltb max_bytes (size + length chunk))) [
      | inl over ↦ (size + length chunk, ground arith, rw over refl)
      | inr within ↦ rw within (
          consume_from_over max_bytes (buffer ++ chunk) (size + length chunk) chunks (ground arith)
            (omega (arith, length-append chunk (join chunks))))
    ]

-- A stream beyond the limit is refused, with the limit and a number of bytes above it.
pub consume_stream_over :
    (hexdigest : Bytes → String) (max_bytes : ℕ) (chunks : List Bytes)
    → max_bytes < length (join chunks)
    → (observed : ℕ) × (max_bytes < observed)
      × (consume_stream hexdigest max_bytes chunks
          ≡ raise (artifact_size_limit_exceeded max_bytes observed))
unfolding consume_stream
consume_stream_over hexdigest max_bytes chunks h =
    let found = consume_from_over max_bytes [] 0 chunks (omega arith) (omega arith) in
    (found.0, found.1, rw found.2 refl)
