-- ===== src/Relational/Values.antt =====
-- relational.py: typed values, rows, images of a state, and what is raised.
use agent_verification_proto.Base.{
  ℕ, String, Bool, true, false, not, ◌||◌, ◌&&◌, Option, none, some, List, [], ◌∷◌, ltb, ◌==◌,
  is_some, if◌then◌else◌, Result, ok, raise, ◌>>=◌, ◌>>◌, raise_if,
}
use agent_verification_proto.Base.Dict.{Dict, lookup}
use agent_verification_proto.Base.Sorting.{sort_by}
use agent_verification_proto.Base.Integers.{pos}
use agent_verification_proto.Base.Json.{
  Value, null, bool, num, string, arr, obj, Items, cons, nil, Fields, field, end,
}

-- RelationalCompatibilityError, RelationalReferenceError, RelationalVisibilityError,
-- RelationalLifecycleError, RelationalError itself, and Python's KeyError.
pub data RelationalError : Type 0 where
  compatibility_error reference_error visibility_error lifecycle_error : RelationalError
  relational_error key_error : RelationalError

pub data ValueType : Type 0 where
  boolean integer decimal text binary date time_local timestamp_local timestamp_instant uuid :
      ValueType

-- ValueType.value
abbrev pub type_value : ValueType → String
type_value boolean = "boolean"
type_value integer = "integer"
type_value decimal = "decimal"
type_value text = "text"
type_value binary = "binary"
type_value date = "date"
type_value time_local = "time-local"
type_value timestamp_local = "timestamp-local"
type_value timestamp_instant = "timestamp-instant"
type_value uuid = "uuid"

abbrev pub is_decimal_type : ValueType → Bool
is_decimal_type decimal = true
is_decimal_type _ = false

abbrev pub is_temporal : ValueType → Bool
is_temporal time_local = true
is_temporal timestamp_local = true
is_temporal timestamp_instant = true
is_temporal _ = false

pub record ColumnType : Type 0 where
  pub kind : ValueType
  pub precision : Option ℕ
  pub scale : Option ℕ
  pub fractional_precision : Option ℕ

-- `self.precision is None or not 1 <= self.precision <= 65`
abbrev is_bad_precision : Option ℕ → Bool
is_bad_precision none = true
is_bad_precision (some p) = ltb p 1 || ltb 65 p

abbrev is_bad_scale : Option ℕ → Option ℕ → Bool
is_bad_scale none precision = true
is_bad_scale (some s) none = true
is_bad_scale (some s) (some p) = ltb 30 s || ltb p s

abbrev is_bad_fraction : Option ℕ → Bool
is_bad_fraction none = true
is_bad_fraction (some f) = ltb 6 f

-- ColumnType.__post_init__. The numbers are not negative.
unfoldable pub new_column_type : ColumnType → Result RelationalError ColumnType
new_column_type t = do
  raise_if (is_decimal_type t.kind && is_bad_precision t.precision) compatibility_error
  raise_if (is_decimal_type t.kind && is_bad_scale t.scale t.precision) compatibility_error
  raise_if (not (is_decimal_type t.kind) && (is_some t.precision || is_some t.scale))
      compatibility_error
  raise_if (is_temporal t.kind && is_bad_fraction t.fractional_precision) compatibility_error
  raise_if (not (is_temporal t.kind) && is_some t.fractional_precision) compatibility_error
  ok t

abbrev number : Option ℕ → Value
number none = null
number (some n) = num (pos n)

-- ColumnType.as_document
unfoldable pub type_document : ColumnType → Fields
type_document t = field "type" (string (type_value t.kind)) (
    if is_decimal_type t.kind
    then field "precision" (number t.precision) (field "scale" (number t.scale) end)
    else if is_temporal t.kind
    then field "fractionalPrecision" (number t.fractional_precision) end
    else end)

pub record ColumnDefinition : Type 0 where
  pub column_id : String
  pub value_type : ColumnType
  pub nullable : Bool

-- bool | str | None
pub data RawValue : Type 0 where
  absent : RawValue
  truth : Bool → RawValue
  chars : String → RawValue

pub record RelationalValue : Type 0 where
  pub kind : ValueType
  pub value : RawValue

abbrev raw_document : RawValue → Value
raw_document absent = null
raw_document (truth b) = bool b
raw_document (chars s) = string s

-- RelationalValue.as_document
unfoldable pub value_document : RelationalValue → Value
value_document v =
    obj (field "type" (string (type_value v.kind)) (field "value" (raw_document v.value) end))

-- The names of a row are distinct.
pub record RelationalRow : Type 0 where
  pub values : Dict RelationalValue
  pub key_columns : List String

-- The equality of two rows, which are frozen dataclasses of tuples.
-- value == other on bool | str | None
abbrev pub same_raw : RawValue → RawValue → Bool
same_raw absent absent = true
same_raw (truth true) (truth true) = true
same_raw (truth false) (truth false) = true
same_raw (chars s) (chars t) = s == t
same_raw _ _ = false

abbrev pub same_value : RelationalValue → RelationalValue → Bool
same_value v w = type_value v.kind == type_value w.kind && same_raw v.value w.value

-- old.values == new.values
unfoldable pub same_values : Dict RelationalValue → Dict RelationalValue → Bool
same_values [] [] = true
same_values [] (_ ∷ _) = false
same_values (_ ∷ _) [] = false
same_values ((a, v) ∷ rest) ((b, w) ∷ others) =
    a == b && (same_value v w && same_values rest others)

abbrev same_names : List String → List String → Bool
same_names [] [] = true
same_names [] (_ ∷ _) = false
same_names (_ ∷ _) [] = false
same_names (x ∷ xs) (y ∷ ys) = let rest = same_names xs ys in x == y && rest

abbrev same_row : RelationalRow → RelationalRow → Bool
same_row row other =
    same_values row.values other.values && same_names row.key_columns other.key_columns

abbrev pub same_rows : List RelationalRow → List RelationalRow → Bool
same_rows [] [] = true
same_rows [] (_ ∷ _) = false
same_rows (_ ∷ _) [] = false
same_rows (x ∷ xs) (y ∷ ys) = let rest = same_rows xs ys in same_row x y && rest

abbrev itself : String → String
itself x = x

-- sorted(names)
abbrev pub sorted : List String → List String
sorted names = sort_by itself names

abbrev pub column_of : String × RelationalValue → String
column_of (column, value) = column

-- RelationalRow.from_mapping
unfoldable pub from_mapping : Dict RelationalValue → List String → RelationalRow
from_mapping values key_columns = record {
  values = sort_by column_of values;
  key_columns = sorted key_columns;
}

unfoldable pub pick_columns :
    List String → Dict RelationalValue → Result RelationalError (Dict RelationalValue)
pick_columns [] values = ok []
pick_columns (column ∷ columns) values = elim (lookup column values) [
  | none ↦ raise key_error
  | some value ↦ do rest ← pick_columns columns values; ok ((column, value) ∷ rest)
]

abbrev pub document_of : Dict RelationalValue → Fields
document_of [] = end
document_of ((column, value) ∷ rest) = field column (value_document value) (document_of rest)

abbrev is_unbound : List String → Bool
is_unbound [] = true
is_unbound (_ ∷ _) = false

-- RelationalRow.key_document
unfoldable pub key_document : RelationalRow → Result RelationalError Fields
key_document row = do
  raise_if (is_unbound row.key_columns) compatibility_error
  key ← pick_columns row.key_columns row.values
  ok (document_of key)

-- A relation's identifier with its rows
abbrev pub State : Type 0
State = Dict (List RelationalRow)

pub record StateImage : Type 0 where
  pub manifest_digest : String
  pub relations : State

abbrev rows_document : List RelationalRow → Result RelationalError Items
rows_document [] = ok nil
rows_document (row ∷ rows) = do
  key ← key_document row
  rest ← rows_document rows
  ok (cons (obj (field "key" (obj key) (field "values" (obj (document_of row.values)) end))) rest)

abbrev relations_document : State → Result RelationalError Items
relations_document [] = ok nil
relations_document ((relation_id, rows) ∷ relations) = do
  documents ← rows_document rows
  rest ← relations_document relations
  ok (cons (obj (field "relationId" (string relation_id) (field "rows" (arr documents) end))) rest)

-- StateImage.as_document
unfoldable pub image_document : StateImage → Result RelationalError Fields
image_document image = do
  relations ← relations_document image.relations
  ok (
      field "apiVersion" (string "avp.relational/v0.1") (
        field "kind" (string "RelationalStateImage") (
          field "manifestDigest" (string image.manifest_digest)
            (field "relations" (arr relations) end))))

pub record RelationalSnapshot : Type 0 where
  pub snapshot_id : String
  pub environment_id : String
  pub resource_id : String
  pub resource_instance_id : String
  pub state : StateImage

module _ (digest : Value → String) where
  -- StateImage.digest
  unfoldable pub image_digest : StateImage → Result RelationalError String
  image_digest image = do document ← image_document image; ok (digest (obj document))
