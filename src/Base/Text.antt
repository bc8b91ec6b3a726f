-- ===== src/Base/Text.antt =====
-- Python's `str` operations that the program uses: decimal printing, lower case, character classes.
use Prim.Native.Nat.{ℕ, zero, suc, ◌+◌, ◌-◌, ◌*◌, ◌/◌, ◌%◌, ◌<◌}
use Prim.Native.Char.{Char, code}
use Prim.Native.String.{String, char_at, count, ◌++◌ as ◌⧺◌}
use mathlib.Core.Path.{◌≡◌, refl, ap, sym, ◌∙◌}
use mathlib.Core.Logic.{inl, inr}
use mathlib.Core.Bool.{Bool, true, false, ◌&&◌, ◌||◌}
use mathlib.Core.Option.{Option, none, some}
use native.Mathlib.Omega.{arith}
use agent_verification_proto.Base.Tests.{ltb, leb, eqb, if◌then◌else◌, Bool-cases}

-- Concatenation of texts; `++` is kept for lists.
infixr 65 ◌<>◌
abbrev pub ◌<>◌ : String → String → String
s <> t = s ⧺ t

abbrev pub is_empty : String → Bool
is_empty String.[] = true
is_empty (String.◌∷◌ c s) = false

abbrev pub all_chars : (Char → Bool) → String → Bool
all_chars test String.[] = true
all_chars test (String.◌∷◌ c s) = test c && all_chars test s

abbrev pub is_between : ℕ → ℕ → Char → Bool
is_between lo hi c = leb lo (code c) && leb (code c) hi

abbrev pub is_digit : Char → Bool
is_digit = is_between b'0' b'9'

abbrev pub is_alnum : Char → Bool
is_alnum c = is_digit c || (is_between b'A' b'Z' c || is_between b'a' b'z' c)

-- [0-9a-f]
abbrev pub is_hex : Char → Bool
is_hex c = is_digit c || is_between b'a' b'f' c

-- The rest of a text behind a prefix.
abbrev pub strip_prefix : String → String → Option String
strip_prefix String.[] s = some s
strip_prefix (String.◌∷◌ c p) String.[] = none
strip_prefix (String.◌∷◌ c p) (String.◌∷◌ d s) =
    if eqb (code c) (code d) then strip_prefix p s else none

-- The pattern ^sha256:[0-9a-f]{64}$
unfoldable pub is_sha256 : String → Bool
is_sha256 s = elim (strip_prefix "sha256:" s) [
  | none ↦ false
  | some rest ↦ eqb (count rest) 64 && all_chars is_hex rest
]

-- str.lower() on an ASCII letter; the program lowers ASCII names only.
abbrev pub lower_char : Char → Char
lower_char c =
    if is_between b'A' b'Z' c then char_at "abcdefghijklmnopqrstuvwxyz" (code c - b'A') else c

unfoldable pub lower : String → String
lower String.[] = String.[]
lower (String.◌∷◌ c s) = String.◌∷◌ (lower_char c) (lower s)

abbrev pub digit : ℕ → Char
digit n = char_at "0123456789" n

-- Digits of `n`, most significant first, in front of `acc`. The fuel is more than `n`.
digits : ℕ → ℕ → String → String
digits zero n acc = acc
digits (suc fuel) n acc =
    let rest = digits fuel (n / 10) (String.◌∷◌ (digit (n % 10)) acc) in
    if ltb n 10 then String.◌∷◌ (digit n) acc else rest

-- str(n)
unfoldable pub str : ℕ → String
unfolding digits
str n = digits (suc n) n String.[]

-- The number that a text of digits stands for, behind a number that is read already.
value_from : ℕ → String → ℕ
value_from n String.[] = n
value_from n (String.◌∷◌ c s) = value_from (n * 10 + (code c - 48)) s

code-digit : (n : ℕ) → n < 10 → code (digit n) ≡ 48 + n
code-digit zero h = refl
code-digit (suc zero) h = refl
code-digit (suc (suc zero)) h = refl
code-digit (suc (suc (suc zero))) h = refl
code-digit (suc (suc (suc (suc zero)))) h = refl
code-digit (suc (suc (suc (suc (suc zero))))) h = refl
code-digit (suc (suc (suc (suc (suc (suc zero)))))) h = refl
code-digit (suc (suc (suc (suc (suc (suc (suc zero))))))) h = refl
code-digit (suc (suc (suc (suc (suc (suc (suc (suc zero)))))))) h = refl
code-digit (suc (suc (suc (suc (suc (suc (suc (suc (suc zero))))))))) h = refl
code-digit (suc (suc (suc (suc (suc (suc (suc (suc (suc (suc n)))))))))) h = absurd (omega arith)

value_from-digits :
    (fuel n : ℕ) (acc : String) → n < fuel → value_from 0 (digits fuel n acc) ≡ value_from n acc
unfolding digits value_from
value_from-digits zero n acc h = elim h [ ]
value_from-digits (suc fuel) n acc h = elim (Bool-cases (ltb n 10)) [
  | inl small ↦ rw small (ap (λ k. value_from k acc) (omega (arith, code-digit n (ground arith))))
  | inr big ↦ rw big (
      value_from-digits fuel (n / 10) (String.◌∷◌ (digit (n % 10)) acc) (ground arith)
      ∙ ap (λ k. value_from k acc) (omega (arith, code-digit (n % 10) (omega arith))))
]

-- Printing in decimals loses nothing.
value-str : (n : ℕ) → value_from 0 (str n) ≡ n
unfolding str value_from
value-str n = value_from-digits (suc n) n String.[] (omega arith)

pub str_injective : (m n : ℕ) → str m ≡ str n → m ≡ n
str_injective m n e = sym (value-str m) ∙ ap (value_from 0) e ∙ value-str n

str_example : str 1207 ≡ "1207"
unfolding str
str_example = refl
