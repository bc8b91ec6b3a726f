-- ===== src/Base/Results.antt =====
-- Code that may raise. A method that changes its object and may raise returns the object beside
-- the result, since what was written before a raise stays written.
use mathlib.Core.Path.{◌≡◌, refl}
use mathlib.Core.Bool.{Bool, true, false}

pub data Result {ℓ κ} (E : Type ℓ) (A : Type κ) : Type (ℓ ⊔ κ) where
  ok : A → Result E A
  raise : E → Result E A

infixl 5 ◌>>=◌ ◌>>◌
abbrev pub ◌>>=◌ {ℓ κ μ} :
    {E : Type ℓ} {A : Type κ} {B : Type μ} → Result E A → (A → Result E B) → Result E B
ok a >>= f = f a
raise e >>= f = raise e

abbrev pub ◌>>◌ {ℓ κ} : {E : Type ℓ} {B : Type κ} → Result E (Unit {0}) → Result E B → Result E B
m >> k = m >>= λ _. k

-- `if test: raise e`
abbrev pub raise_if {ℓ} : {E : Type ℓ} → Bool → E → Result E (Unit {0})
raise_if true e = raise e
raise_if false e = ok tt

abbrev pub is_ok {ℓ κ} : {E : Type ℓ} {A : Type κ} → Result E A → Bool
is_ok (ok _) = true
is_ok (raise _) = false

-- A method: the new object is returned on the raising paths too.
abbrev pub Method {ℓ κ μ} : Type ℓ → Type κ → Type μ → Type (ℓ ⊔ κ ⊔ μ)
Method E S A = S → Result E A × S

-- The next step of a method, on the object that the step before left.
infixl 5 ◌>>>◌
abbrev pub ◌>>>◌ {ℓ κ μ ν} :
    {E : Type ℓ} {S : Type κ} {A : Type μ} {B : Type ν}
    → Result E A × S
    → (A → Method E S B)
    → Result E B × S
(ok a, s) >>> k = k a s
(raise e, s) >>> k = (raise e, s)

-- A step that only computes leaves the object as it is.
pub object-then_pure {ℓ κ μ ν} :
    {E : Type ℓ} {S : Type κ} {A : Type μ} {B : Type ν} (m : Result E A × S) (k : A → Result E B)
    → (m >>> λ a. λ s. (k a, s)).1 ≡ m.1
object-then_pure (ok a, s) k = refl
object-then_pure (raise e, s) k = refl

-- What holds of a result, if there is one.
abbrev pub IsOk : {E A : Type 0} → (A → Type 0) → Result E A → Type 0
IsOk P (ok a) = P a
IsOk P (raise e) = Unit

module _ {E A B : Type 0} where
  pub IsOk-bind :
      (P : A → Type 0) (Q : B → Type 0) (m : Result E A) (k : A → Result E B)
      → IsOk P m
      → ((a : A) → P a → IsOk Q (k a))
      → IsOk Q (m >>= k)
  IsOk-bind P Q (ok a) k p q = q a p
  IsOk-bind P Q (raise e) k p q = tt

  pub IsOk-each :
      (Q : B → Type 0) (m : Result E A) (k : A → Result E B)
      → ((a : A) → IsOk Q (k a))
      → IsOk Q (m >>= k)
  IsOk-each Q (ok a) k q = q a
  IsOk-each Q (raise e) k q = tt

pub IsOk-weaken :
    {E A : Type 0} (P Q : A → Type 0) (m : Result E A) → ((a : A) → P a → Q a) → IsOk P m → IsOk Q m
IsOk-weaken P Q (ok a) f h = f a h
IsOk-weaken P Q (raise e) f h = tt

pub IsOk-check :
    {E B : Type 0} (Q : B → Type 0) (test : Bool) (e : E) (k : Result E B)
    → (test ≡ false → IsOk Q k)
    → IsOk Q (raise_if test e >> k)
IsOk-check Q true e k q = tt
IsOk-check Q false e k q = q refl
