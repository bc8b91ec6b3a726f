-- ===== src/Base/Integers.antt =====
-- Python's integers over the native numbers.
use Prim.Native.Nat.{ℕ, zero, suc}
use Prim.Native.String.{String}
use mathlib.Core.Bool.{Bool, true, false}
use agent_verification_proto.Base.Text.{◌<>◌, str}

-- `negsuc n` is -(n + 1).
pub data ℤ : Type 0 where
  pos : ℕ → ℤ
  negsuc : ℕ → ℤ

-- abs(n)
abbrev pub abs : ℤ → ℕ
abs (pos n) = n
abs (negsuc n) = suc n

-- str(n)
abbrev pub str_int : ℤ → String
str_int (pos n) = str n
str_int (negsuc n) = "-" <> str (suc n)

-- bool(n)
abbrev pub is_truthy_int : ℤ → Bool
is_truthy_int (pos zero) = false
is_truthy_int _ = true
