-- ===== src/Relational/Lexical.antt =====
-- relational.py: the canonical texts of the value types. What Python's date, time and datetime accept,
-- the round trip through Base64 and the encoding as UTF-8 are an interface.
pub mod Decimals
use Prim.Native.Char.{Char, code}
use Prim.Native.String.{count}
use agent_verification_proto.Base.{
  ℕ, zero, suc, ◌+◌, ◌-◌, String, Bool, true, false, not, ◌||◌, ◌&&◌, Option, none, some, List, [],
  ◌∷◌, ltb, leb, eqb, ◌==◌, is_none, if◌then◌else◌, Result, ok, raise, ◌>>=◌, ◌>>◌, raise_if,
}
use agent_verification_proto.Base.Text.{
  ◌<>◌, is_empty, strip_prefix, all_chars, is_between, is_digit, is_hex,
}
use agent_verification_proto.Relational.Values.{
  RelationalError, compatibility_error, ValueType, boolean, integer, decimal, text, binary, date,
  time_local, timestamp_local, timestamp_instant, uuid, type_value, ColumnType, ColumnDefinition,
  RawValue, absent, truth, chars, RelationalValue,
}

pub record Lexicon : Type 0 where
  -- date.fromisoformat(raw).year
  pub year_of : String → Option ℕ
  -- time.fromisoformat(raw) returns
  pub is_time : String → Bool
  -- datetime.fromisoformat(raw.replace("Z", "+00:00")).astimezone(utc) returns
  pub is_instant : String → Bool
  -- urlsafe_b64encode(urlsafe_b64decode(raw + padding)) without padding
  pub recode : String → Option String
  -- raw.encode("utf-8") returns
  pub is_encodable : String → Bool

-- The rest of a text behind characters that pass these tests.
unfoldable pub match_chars : List (Char → Bool) → String → Option String
match_chars [] s = some s
match_chars (test ∷ tests) String.[] = none
match_chars (test ∷ tests) (String.◌∷◌ c s) =
    let rest = match_chars tests s in if test c then rest else none

abbrev pub is_char : ℕ → Char → Bool
is_char n c = eqb (code c) n

abbrev pub is_positive_digit : Char → Bool
is_positive_digit = is_between b'1' b'9'

abbrev positive_text : String → Bool
positive_text String.[] = false
positive_text (String.◌∷◌ c s) = is_positive_digit c && all_chars is_digit s

abbrev unsigned : String → String
unsigned s = elim (strip_prefix "-" s) [ none ↦ s | some rest ↦ rest ]

-- _INTEGER_RE
unfoldable pub is_integer_text : String → Bool
is_integer_text raw = raw == "0" || (positive_text (unsigned raw) && leb (count (unsigned raw)) 65)

-- What stands before and behind the first full stop.
unfoldable pub split_point : String → String × Option String
split_point String.[] = ("", none)
split_point (String.◌∷◌ c s) =
    let (whole, fraction) = split_point s in
    if is_char b'.' c then ("", some s) else (String.◌∷◌ c whole, fraction)

abbrev is_whole : String → Bool
is_whole whole = whole == "0" || positive_text (unsigned whole)

abbrev is_fraction : Option String → Bool
is_fraction none = true
is_fraction (some fraction) = not (is_empty fraction) && all_chars is_digit fraction

-- _DECIMAL_RE
unfoldable pub is_decimal_text : String → Bool
is_decimal_text raw =
    let (whole, fraction) = split_point raw in is_whole whole && is_fraction fraction

abbrev pub or_empty : Option String → String
or_empty none = ""
or_empty (some s) = s

abbrev pub or_zero : Option ℕ → ℕ
or_zero none = 0
or_zero (some n) = n

-- len(Decimal(raw).as_tuple().digits): leading zeros do not count, and zero has one digit.
unfoldable pub significant : String → ℕ
significant String.[] = 1
significant (String.◌∷◌ c s) =
    let rest = significant s in if is_char b'0' c then rest else suc (count s)

-- _validate_decimal. A canonical text with a minus sign is never zero, so the last test of the code
-- passes.
unfoldable pub validate_decimal : ColumnDefinition → String → Result RelationalError (Unit {0})
validate_decimal column raw =
    let (whole, part) = split_point raw in
    let fraction = or_empty part in
    do
      raise_if (not (is_decimal_text raw)) compatibility_error
      raise_if (not (eqb (count fraction) (or_zero column.value_type.scale))) compatibility_error
      raise_if
          (ltb (or_zero column.value_type.precision)
            ((significant (unsigned whole <> fraction) - count fraction) + count fraction))
          compatibility_error
      ok tt

-- (?:[01][0-9]|2[0-3])
abbrev match_hour : String → Option String
match_hour s = elim (match_chars (is_between b'0' b'1' ∷ is_digit ∷ []) s) [
  | some rest ↦ some rest
  | none ↦ match_chars (is_char b'2' ∷ is_between b'0' b'3' ∷ []) s
]

-- (?:\.([0-9]{1,6}))?$: the fraction, if the rest of a text is one.
abbrev match_fraction : String → Option String
match_fraction String.[] = some ""
match_fraction (String.◌∷◌ c s) =
    if is_char b'.' c && (leb 1 (count s) && (leb (count s) 6 && all_chars is_digit s))
    then some s
    else none

abbrev match_minutes : Option String → Option String
match_minutes none = none
match_minutes (some s) =
    elim (match_chars
      (is_char b':'
        ∷ is_between b'0' b'5'
        ∷ is_digit
        ∷ is_char b':'
        ∷ is_between b'0' b'5'
        ∷ is_digit
        ∷ [])
      s) [ none ↦ none | some rest ↦ match_fraction rest ]

-- _TIME_RE, with the fraction that it captures.
unfoldable pub match_time : String → Option String
match_time raw = match_minutes (match_hour raw)

unfoldable pub take_chars : ℕ → String → String
take_chars zero s = ""
take_chars (suc n) String.[] = ""
take_chars (suc n) (String.◌∷◌ c s) = String.◌∷◌ c (take_chars n s)

abbrev is_date_text : List (Char → Bool)
is_date_text =
    is_positive_digit
    ∷ is_digit
    ∷ is_digit
    ∷ is_digit
    ∷ is_char b'-'
    ∷ is_digit
    ∷ is_digit
    ∷ is_char b'-'
    ∷ is_digit
    ∷ is_digit
    ∷ is_char b'T'
    ∷ []

-- _LOCAL_TS_RE: the date and the time of a text that matches.
unfoldable pub match_timestamp : String → Option (String × String)
match_timestamp raw = elim (match_chars is_date_text raw) [
  | none ↦ none
  | some rest ↦ elim (match_time rest) [ none ↦ none | some _ ↦ some (take_chars 10 raw, rest) ]
]

-- The text before a final Z.
unfoldable pub strip_zone : String → Option String
strip_zone String.[] = none
strip_zone (String.◌∷◌ c String.[]) = if is_char b'Z' c then some "" else none
strip_zone (String.◌∷◌ c s) = elim (strip_zone s) [
  | none ↦ none
  | some rest ↦ some (String.◌∷◌ c rest)
]

-- _LOCAL_TS_RE or _INSTANT_TS_RE
abbrev match_moment : Bool → String → Option (String × String)
match_moment false raw = match_timestamp raw
match_moment true raw = elim (strip_zone raw) [ none ↦ none | some rest ↦ match_timestamp rest ]

-- A match of the whole text
abbrev is_matched : Option String → Bool
is_matched none = false
is_matched (some rest) = is_empty rest

-- _UUID_RE
unfoldable pub is_uuid_text : String → Bool
is_uuid_text raw = is_matched (
    match_chars
      (is_hex
        ∷ is_hex
        ∷ is_hex
        ∷ is_hex
        ∷ is_hex
        ∷ is_hex
        ∷ is_hex
        ∷ is_hex
        ∷ is_char b'-'
        ∷ is_hex
        ∷ is_hex
        ∷ is_hex
        ∷ is_hex
        ∷ is_char b'-'
        ∷ is_hex
        ∷ is_hex
        ∷ is_hex
        ∷ is_hex
        ∷ is_char b'-'
        ∷ is_hex
        ∷ is_hex
        ∷ is_hex
        ∷ is_hex
        ∷ is_char b'-'
        ∷ is_hex
        ∷ is_hex
        ∷ is_hex
        ∷ is_hex
        ∷ is_hex
        ∷ is_hex
        ∷ is_hex
        ∷ is_hex
        ∷ is_hex
        ∷ is_hex
        ∷ is_hex
        ∷ is_hex
        ∷ [])
      raw)

module _ (lexicon : Lexicon) where
  -- A year of the portable range.
  abbrev is_portable_year : Option ℕ → Bool
  is_portable_year none = false
  is_portable_year (some year) = leb 1000 year && leb year 9999

  -- _validate_date
  unfoldable pub validate_date : String → Result RelationalError (Unit {0})
  validate_date raw = do
    raise_if (is_none (lexicon.year_of raw)) compatibility_error
    raise_if (not (eqb (count raw) 10) || not (is_portable_year (lexicon.year_of raw)))
        compatibility_error

  -- _validate_local_time
  unfoldable pub validate_local_time : String → ℕ → Result RelationalError (Unit {0})
  validate_local_time raw precision = elim (match_time raw) [
    | none ↦ raise compatibility_error
    | some fraction ↦ do
      raise_if (not (eqb (count fraction) precision)) compatibility_error
      raise_if (not (lexicon.is_time raw)) compatibility_error
  ]

  -- _validate_timestamp
  unfoldable pub validate_timestamp : String → ℕ → Bool → Result RelationalError (Unit {0})
  validate_timestamp raw precision instant = elim (match_moment instant raw) [
    | none ↦ raise compatibility_error
    | some (day, moment) ↦ do
      raise_if (not (is_portable_year (lexicon.year_of day))) compatibility_error
      validate_local_time moment precision
      raise_if (instant && not (lexicon.is_instant raw)) compatibility_error
  ]

  abbrev is_recoded : String → Option String → Bool
  is_recoded raw none = false
  is_recoded raw (some encoded) = encoded == raw

  abbrev has_padding : String → Bool
  has_padding String.[] = false
  has_padding (String.◌∷◌ c s) = is_char b'=' c || has_padding s

  -- _validate_binary
  unfoldable pub validate_binary : String → Result RelationalError (Unit {0})
  validate_binary raw = do
    raise_if (has_padding raw) compatibility_error
    raise_if (not (is_recoded raw (lexicon.recode raw))) compatibility_error

  -- The branches of _validate_value on a text.
  unfoldable pub validate_text :
      ColumnDefinition → ValueType → String → Result RelationalError (Unit {0})
  validate_text column boolean raw = raise compatibility_error
  validate_text column integer raw = raise_if (not (is_integer_text raw)) compatibility_error
  validate_text column decimal raw = validate_decimal column raw
  validate_text column text raw = raise_if (not (lexicon.is_encodable raw)) compatibility_error
  validate_text column binary raw = validate_binary raw
  validate_text column date raw = validate_date raw
  validate_text column time_local raw =
      validate_local_time raw (or_zero column.value_type.fractional_precision)
  validate_text column timestamp_local raw =
      validate_timestamp raw (or_zero column.value_type.fractional_precision) false
  validate_text column timestamp_instant raw =
      validate_timestamp raw (or_zero column.value_type.fractional_precision) true
  validate_text column uuid raw = raise_if (not (is_uuid_text raw)) compatibility_error

  abbrev validate_truth : ValueType → Result RelationalError (Unit {0})
  validate_truth boolean = ok tt
  validate_truth _ = raise compatibility_error

  abbrev validate_raw : ColumnDefinition → ValueType → RawValue → Result RelationalError (Unit {0})
  validate_raw column kind absent = raise_if (not column.nullable) compatibility_error
  validate_raw column kind (truth b) = validate_truth kind
  validate_raw column kind (chars raw) = validate_text column kind raw

  -- _validate_value
  unfoldable pub validate_value :
      ColumnDefinition → RelationalValue → Result RelationalError (Unit {0})
  validate_value column value = do
    raise_if (not (type_value value.kind == type_value column.value_type.kind)) compatibility_error
    validate_raw column value.kind value.value
