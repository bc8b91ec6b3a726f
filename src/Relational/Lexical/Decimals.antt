-- ===== src/Relational/Lexical/Decimals.antt =====
-- Decimal texts with a minus sign
use Prim.Native.String.append
use Prim.Native.String.compare
use Prim.Native.Char.{Char}
use text.Mathlib.Text.{is_eq}
use text.Mathlib.TextLemmas.{cons-append}
use agent_verification_proto.Base.{
  String, Bool, false, ◌≡◌, refl, ap, arith, ◌==◌, Bool-cases, inl, inr,
}
use agent_verification_proto.Base.Text.{◌<>◌}
use agent_verification_proto.Relational.Values.{compatibility_error, ColumnDefinition}
use agent_verification_proto.Base.{raise}
use agent_verification_proto.Relational.Lexical.{
  is_char, is_positive_digit, is_decimal_text, split_point, validate_decimal,
}

-- The text starts with a digit from 1 to 9.
abbrev pub starts_positive : String → Bool
starts_positive String.[] = false
starts_positive (String.◌∷◌ c s) = is_positive_digit c

signed_apart : (w : String) → (String.◌∷◌ "-" w == "0") ≡ false
signed_apart w = ap is_eq (compare.cons-cons "-" "0" w "")

is_decimal_text-signed :
    (c : Char) (s : String)
    → is_positive_digit c ≡ false
    → is_decimal_text (String.◌∷◌ "-" (String.◌∷◌ c s)) ≡ false
unfolding is_decimal_text split_point
is_decimal_text-signed c s h = elim (Bool-cases (is_char b'.' c)) [
  | inl point ↦ rw point refl
  | inr other ↦ rw other (ground (arith, h, signed_apart (String.◌∷◌ c (split_point s).0)))
]

is_decimal_text_minus : is_decimal_text "-" ≡ false
unfolding is_decimal_text split_point
is_decimal_text_minus = refl

-- A decimal text with a minus sign is refused, whatever the column's type, unless a digit from 1 to 9
-- comes right after the sign; so -0.50 and -.5 are refused.
pub validate_decimal-negative_fraction :
    (column : ColumnDefinition) (rest : String)
    → starts_positive rest ≡ false
    → validate_decimal column ("-" <> rest) ≡ raise compatibility_error
unfolding validate_decimal
validate_decimal-negative_fraction column String.[] h = rw is_decimal_text_minus refl
validate_decimal-negative_fraction column (String.◌∷◌ c s) h =
    rw
      (
        cons-append "-" "" (String.◌∷◌ c s),
        append.nil (String.◌∷◌ c s),
        is_decimal_text-signed c s h,
      )
      refl
