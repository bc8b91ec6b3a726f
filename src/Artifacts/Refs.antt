-- ===== src/Artifacts/Refs.antt =====
-- artifacts/models.py and artifacts/errors.py: immutable Artifact identities and typed failures.
-- Bytes are lists of numbers. SHA-256 is a parameter: `hexdigest` is `hashlib.sha256(data).hexdigest()`.
use Prim.Native.Char.{Char, code}
use Prim.Native.String.{count}
use agent_verification_proto.Base.{
  ℕ, String, Bool, ◌||◌, ◌≡◌, refl, Option, none, some, List, [], ◌∷◌, true, false, ltb, eqb,
  if◌then◌else◌, Result, ok, raise, ◌>>=◌, ◌>>◌, raise_if, arith,
}
use agent_verification_proto.Base.Text.{◌<>◌, is_sha256, is_empty, all_chars, is_between}

pub data ArtifactError : Type 0 where
  value_error : ArtifactError
  artifact_not_found : String → ArtifactError
  artifact_integrity_error : String → ArtifactError
  artifact_digest_mismatch : (expected actual : String) → ArtifactError
  artifact_size_limit_exceeded : (limit observed : ℕ) → ArtifactError

abbrev pub Bytes : Type 0
Bytes = List ℕ

pub record ArtifactRef : Type 0 where
  pub digest : String
  pub size : ℕ
  pub media_type : String
  pub uri : Option String

-- `str.isspace` of one character, which `str.strip` removes.
abbrev pub is_space : Char → Bool
is_space c =
    is_between 9 13 c
    || is_between 28 32 c
    || eqb (code c) 0x85
    || eqb (code c) 0xA0
    || eqb (code c) 0x1680
    || is_between 0x2000 0x200A c
    || is_between 0x2028 0x2029 c
    || eqb (code c) 0x202F
    || eqb (code c) 0x205F
    || eqb (code c) 0x3000

unfoldable pub validate_sha256_digest : String → Result ArtifactError String
validate_sha256_digest value = if is_sha256 value then ok value else raise value_error

-- An all-space text strips to the empty one.
unfoldable pub validate_media_type : String → Result ArtifactError String
validate_media_type value =
    if all_chars is_space value
    then raise value_error
    else if ltb 255 (count value)
    then raise value_error
    else ok value

-- ArtifactRef.__post_init__. Sizes are natural numbers here, so the sign test cannot fail.
unfoldable pub new_artifact_ref :
    String → ℕ → String → Option String → Result ArtifactError ArtifactRef
new_artifact_ref digest size media_type uri = do
  _ ← validate_sha256_digest digest
  _ ← validate_media_type media_type
  raise_if
      (elim uri [ none ↦ false | some location ↦ is_empty location || ltb 4096 (count location) ])
      value_error
  ok (record { digest = digest; size = size; media_type = media_type; uri = uri })

unfoldable pub sha256_digest : (Bytes → String) → Bytes → String
sha256_digest hexdigest bytes = "sha256:" <> hexdigest bytes

-- Equality of byte strings.
abbrev pub bytes_eq : Bytes → Bytes → Bool
bytes_eq [] [] = true
bytes_eq (a ∷ as') (b ∷ bs) = if eqb a b then bytes_eq as' bs else false
bytes_eq _ _ = false

pub bytes_eq_sound : (xs ys : Bytes) → bytes_eq xs ys ≡ true → xs ≡ ys
bytes_eq_sound [] [] h = refl
bytes_eq_sound (x ∷ xs) (y ∷ ys) h = ground (arith, bytes_eq_sound xs ys)
bytes_eq_sound [] (y ∷ ys) h = ground arith
bytes_eq_sound (x ∷ xs) [] h = ground arith

pub bytes_eq_refl : (xs : Bytes) → bytes_eq xs xs ≡ true
bytes_eq_refl [] = refl
bytes_eq_refl (x ∷ xs) = ground (arith, bytes_eq_refl xs)

-- What a constructed reference holds.
pub new_artifact_ref_fields :
    (digest : String) (size : ℕ) (media_type : String) (uri : Option String) (ref : ArtifactRef)
    → new_artifact_ref digest size media_type uri ≡ ok ref
    → (ref.digest ≡ digest) × (ref.size ≡ size) × (is_sha256 digest ≡ true)
unfolding new_artifact_ref validate_sha256_digest validate_media_type
new_artifact_ref_fields digest size media_type uri ref h = ground arith
