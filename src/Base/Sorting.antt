-- ===== src/Base/Sorting.antt =====
-- Python's `sorted` with a key that is a text: insertion that keeps the order of equal keys.
use Prim.Native.Nat.{Ordering}
use Prim.Native.String.{String, compare}
use mathlib.Core.Bool.{Bool, true, false}
use mathlib.Core.List.{List, [], ◌∷◌}
use mathlib.Core.Path.{◌≡◌, refl}
use mathlib.Core.Bool.{◌||◌}
use mathlib.Core.List.{map}
use native.Mathlib.Omega.{arith}
use text.Mathlib.Text.{◌==◌}
use agent_verification_proto.Base.Lists.{All, contains}
use agent_verification_proto.Base.Tests.{if◌then◌else◌}

-- `x > y` on str
abbrev pub is_after : String → String → Bool
is_after x y = elim (compare x y) [ Ordering.gt ↦ true | _ ↦ false ]

module _ {A : Type 0} (key : A → String) where
  unfoldable pub insert_by : A → List A → List A
  insert_by x [] = x ∷ []
  insert_by x (y ∷ ys) =
      let rest = insert_by x ys in if is_after (key x) (key y) then y ∷ rest else x ∷ y ∷ ys

  -- sorted(xs, key=key)
  unfoldable pub sort_by : List A → List A
  sort_by [] = []
  sort_by (x ∷ xs) = insert_by x (sort_by xs)

  module _ (P : A → Type 0) where
    insert_by-All : (x : A) (ys : List A) → P x → All P ys → All P (insert_by x ys)
    unfolding insert_by
    insert_by-All x [] p h = (p, tt)
    insert_by-All x (y ∷ ys) p h = ground (arith, insert_by-All x ys p h.1, p, h)

    pub sort_by-All : (xs : List A) → All P xs → All P (sort_by xs)
    unfolding sort_by
    sort_by-All [] h = tt
    sort_by-All (x ∷ xs) h = insert_by-All x (sort_by xs) h.0 (sort_by-All xs h.1)

  contains-insert_by :
      (k : String) (x : A) (ys : List A)
      → contains k (map key (insert_by x ys)) ≡ (key x == k || contains k (map key ys))
  unfolding insert_by
  contains-insert_by k x [] = refl
  contains-insert_by k x (y ∷ ys) = ground (arith, contains-insert_by k x ys)

  pub contains-sort_by :
      (k : String) (xs : List A) → contains k (map key (sort_by xs)) ≡ contains k (map key xs)
  unfolding sort_by
  contains-sort_by k [] = refl
  contains-sort_by k (x ∷ xs) =
      ground (arith, contains-insert_by k x (sort_by xs), contains-sort_by k xs)
