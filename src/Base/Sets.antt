-- ===== src/Base/Sets.antt =====
-- `sorted(set(texts))`: insertion into a strictly sorted list of texts.
use Prim.Native.Nat.{Ordering}
use Prim.Native.String.compare
use Prim.Native.String.{String, compare}
use mathlib.Core.Path.{◌≡◌, refl}
use mathlib.Core.Bool.{true, false}
use mathlib.Core.List.{List, [], ◌∷◌}
use native.Mathlib.Omega.{arith}
use text.Mathlib.Text.{◌==◌}
use text.Mathlib.TextEquality.{eq_iff}
use text.Mathlib.TextPositions.{compare_refl}
use agent_verification_proto.Base.Tests.{if◌then◌else◌}
use agent_verification_proto.Base.Lists.{All, contains, is_unique}

unfoldable pub insert_sorted : String → List String → List String
insert_sorted x [] = x ∷ []
insert_sorted x (y ∷ ys) =
    let rest = insert_sorted x ys in
    elim (compare x y) [ Ordering.lt ↦ x ∷ y ∷ ys | Ordering.eq ↦ y ∷ ys | Ordering.gt ↦ y ∷ rest ]

unfoldable pub sorted_set : List String → List String
unfolding insert_sorted
sorted_set [] = []
sorted_set (x ∷ xs) = insert_sorted x (sorted_set xs)

abbrev pub Before : String → String → Type 0
Before x y = compare x y ≡ Ordering.lt

pub Before-trans : (x y z : String) → Before x y → Before y z → Before x z
Before-trans String.[] String.[] z p q = q
Before-trans String.[] (String.◌∷◌ d t) String.[] p q = cc (compare.cons-nil d t)
Before-trans String.[] (String.◌∷◌ d t) (String.◌∷◌ e u) p q = compare.nil-cons e u
Before-trans (String.◌∷◌ c s) String.[] z p q = cc (compare.cons-nil c s)
Before-trans (String.◌∷◌ c s) (String.◌∷◌ d t) String.[] p q = cc (compare.cons-nil d t)
Before-trans (String.◌∷◌ c s) (String.◌∷◌ d t) (String.◌∷◌ e u) p q = ground (
  arith,
  compare.cons-cons c d s t,
  compare.cons-cons d e t u,
  compare.cons-cons c e s u,
  Before-trans s t u,
)

pub Before-flip : (x y : String) → compare x y ≡ Ordering.gt → Before y x
Before-flip String.[] String.[] p = cc
Before-flip String.[] (String.◌∷◌ d t) p = cc (compare.nil-cons d t)
Before-flip (String.◌∷◌ c s) String.[] p = compare.nil-cons c s
Before-flip (String.◌∷◌ c s) (String.◌∷◌ d t) p =
    ground (arith, compare.cons-cons c d s t, compare.cons-cons d c t s, Before-flip s t)

abbrev Below : String → List String → Type 0
Below x ys = All (Before x) ys

abbrev IsSorted : List String → Type 0
IsSorted [] = Unit
IsSorted (x ∷ xs) = Below x xs × IsSorted xs

Below-trans : (x y : String) (zs : List String) → Before x y → Below y zs → Below x zs
Below-trans x y [] p h = tt
Below-trans x y (z ∷ zs) p h = (Before-trans x y z p h.0, Below-trans x y zs p h.1)

Below-insert_sorted :
    (x y : String) (ys : List String) → Before x y → Below x ys → Below x (insert_sorted y ys)
unfolding insert_sorted
Below-insert_sorted x y [] p h = (p, tt)
Below-insert_sorted x y (z ∷ zs) p h = ground (arith, Below-insert_sorted x y zs)

insert_sorted-IsSorted :
    (x : String) (ys : List String) → IsSorted ys → IsSorted (insert_sorted x ys)
unfolding insert_sorted
insert_sorted-IsSorted x [] h = (tt, tt)
insert_sorted-IsSorted x (y ∷ ys) h = ground (
  arith,
  insert_sorted-IsSorted x ys,
  Below-trans x y ys,
  Before-flip x y,
  Below-insert_sorted y x ys,
)

sorted_set-IsSorted : (xs : List String) → IsSorted (sorted_set xs)
unfolding sorted_set
sorted_set-IsSorted [] = tt
sorted_set-IsSorted (x ∷ xs) = insert_sorted-IsSorted x (sorted_set xs) (sorted_set-IsSorted xs)

not-contains_of_Below : (x : String) (ys : List String) → Below x ys → contains x ys ≡ false
not-contains_of_Below x [] h = refl
not-contains_of_Below x (y ∷ ys) h =
    ground (arith, not-contains_of_Below x ys, eq_iff y x, eq_iff x y, compare_refl x)

is_unique_of_IsSorted : (xs : List String) → IsSorted xs → is_unique xs ≡ true
is_unique_of_IsSorted [] h = refl
is_unique_of_IsSorted (x ∷ xs) h =
    ground (arith, not-contains_of_Below x xs, is_unique_of_IsSorted xs)

-- A sorted set holds no text twice.
pub is_unique-sorted_set : (xs : List String) → is_unique (sorted_set xs) ≡ true
is_unique-sorted_set xs = is_unique_of_IsSorted (sorted_set xs) (sorted_set-IsSorted xs)

contains-insert_sorted :
    (x y : String) (ys : List String)
    → contains y (insert_sorted x ys) ≡ (if x == y then true else contains y ys)
unfolding insert_sorted
contains-insert_sorted x y [] = ground (arith, eq_iff x y)
contains-insert_sorted x y (z ∷ zs) =
    ground (arith, contains-insert_sorted x y zs, eq_iff x z, eq_iff z y, eq_iff x y)

-- It holds exactly the given texts.
pub contains-sorted_set :
    (y : String) (xs : List String) → contains y (sorted_set xs) ≡ contains y xs
unfolding sorted_set
contains-sorted_set y [] = refl
contains-sorted_set y (x ∷ xs) =
    ground (arith, contains-insert_sorted x y (sorted_set xs), contains-sorted_set y xs)
