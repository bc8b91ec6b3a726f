-- ===== src/Base/Json.antt =====
-- Values of the JSON shape that events, payloads and schemas carry.
use Prim.Native.String.{String}
use mathlib.Core.Bool.{Bool, true, false}
use mathlib.Core.Option.{Option, none, some}
use text.Mathlib.Text.{◌==◌}
use agent_verification_proto.Base.Tests.{if◌then◌else◌}
use agent_verification_proto.Base.Integers.{ℤ}

-- A float stands as the text that `repr` prints of it.
mutual
  pub data Value : Type 0 where
    null : Value
    bool : Bool → Value
    num : ℤ → Value
    float : (numeral : String) → Value
    string : String → Value
    arr : Items → Value
    obj : Fields → Value

  pub data Items : Type 0 where
    cons : (head : Value) (tail : Items) → Items
    nil : Items

  pub data Fields : Type 0 where
    field : (key : String) (held : Value) (others : Fields) → Fields
    end : Fields

-- payload.get(key)
unfoldable pub get : String → Fields → Option Value
get k end = none
get k (field j v fs) = if j == k then some v else get k fs

-- payload.get(key), where `None` and an absent key are told apart by nobody
abbrev pub or_none : Option Value → Option Value
or_none none = none
or_none (some null) = none
or_none (some v) = some v

-- isinstance(v, str)
abbrev pub as_string : Option Value → Option String
as_string (some (string s)) = some s
as_string _ = none

-- isinstance(v, dict)
abbrev pub as_fields : Option Value → Option Fields
as_fields (some (obj fs)) = some fs
as_fields _ = none

-- isinstance(v, list)
abbrev pub as_items : Option Value → Option Items
as_items (some (arr vs)) = some vs
as_items _ = none

abbrev pub is_absent : Option Value → Bool
is_absent none = true
is_absent (some _) = false
