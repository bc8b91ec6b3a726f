-- ===== src/Trust/Verifier/FromKeys.antt =====
-- `dict.fromkeys` on the verified properties: no duplicates, and no value that was not there.
use agent_verification_proto.Base.{
  ℕ, String, ◌≡◌, refl, true, false, List, [], ◌∷◌, ◌++◌, contains, is_unique, ok, arith,
}
use agent_verification_proto.Trust.Models.{all_non_empty, non_empty}
use agent_verification_proto.Trust.Verifier.{base_verified_properties, from_keys, without}

contains-without_same : (x : String) (xs : List String) → contains x (without x xs) ≡ false
contains-without_same x [] = refl
contains-without_same x (y ∷ ys) = ground (arith, contains-without_same x ys)

contains-without_other :
    (x value : String) (xs : List String)
    → contains x xs ≡ false
    → contains x (without value xs) ≡ false
contains-without_other x value [] h = refl
contains-without_other x value (y ∷ ys) h = ground (arith, contains-without_other x value ys)

is_unique-without :
    (value : String) (xs : List String) → is_unique xs ≡ true → is_unique (without value xs) ≡ true
is_unique-without value [] h = refl
is_unique-without value (y ∷ ys) h =
    ground (arith, is_unique-without value ys, contains-without_other y value ys)

pub is_unique-from_keys : (xs : List String) → is_unique (from_keys xs) ≡ true
unfolding from_keys
is_unique-from_keys [] = refl
is_unique-from_keys (x ∷ xs) = ground (
  arith,
  is_unique-from_keys xs,
  is_unique-without x (from_keys xs),
  contains-without_same x (from_keys xs),
)

all_non_empty-without :
    (value : String) (xs : List String) (maximum : ℕ)
    → all_non_empty xs maximum ≡ ok tt
    → all_non_empty (without value xs) maximum ≡ ok tt
all_non_empty-without value [] maximum h = refl
all_non_empty-without value (x ∷ xs) maximum h =
    ground (arith, all_non_empty-without value xs maximum)

pub all_non_empty-from_keys :
    (xs : List String) (maximum : ℕ)
    → all_non_empty xs maximum ≡ ok tt
    → all_non_empty (from_keys xs) maximum ≡ ok tt
unfolding from_keys
all_non_empty-from_keys [] maximum h = refl
all_non_empty-from_keys (x ∷ xs) maximum h =
    ground
      (arith, all_non_empty-from_keys xs maximum, all_non_empty-without x (from_keys xs) maximum)

pub all_non_empty-append :
    (xs ys : List String) (maximum : ℕ)
    → all_non_empty xs maximum ≡ ok tt
    → all_non_empty ys maximum ≡ ok tt
    → all_non_empty (xs ++ ys) maximum ≡ ok tt
all_non_empty-append [] ys maximum h k = k
all_non_empty-append (x ∷ xs) ys maximum h k = ground (arith, all_non_empty-append xs ys maximum)

pub all_non_empty-base : all_non_empty base_verified_properties 256 ≡ ok tt
unfolding non_empty
all_non_empty-base = refl
