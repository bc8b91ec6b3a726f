-- ===== src/Relational/Diff/Equality.antt =====
-- The equality of values in relational.py's diff
use agent_verification_proto.Base.{
  String, true, [], ◌∷◌, ◌≡◌, refl, sym, ap, ◌∙◌, ◌==◌, eq_iff, if◌then◌else◌, arith,
}
use agent_verification_proto.Base.Dict.{Dict}
use agent_verification_proto.Relational.Values.{
  ValueType, boolean, integer, decimal, text, binary, date, time_local, timestamp_local,
  timestamp_instant, uuid, type_value, RawValue, absent, truth, chars, RelationalValue, same_raw,
  same_values,
}

abbrev kind_named : String → ValueType
kind_named name =
    if name == "boolean"
    then boolean
    else if name == "integer"
    then integer
    else if name == "decimal"
    then decimal
    else if name == "text"
    then text
    else if name == "binary"
    then binary
    else if name == "date"
    then date
    else if name == "time-local"
    then time_local
    else if name == "timestamp-local"
    then timestamp_local
    else if name == "timestamp-instant"
    then timestamp_instant
    else uuid

kind_named-type_value : (k : ValueType) → kind_named (type_value k) ≡ k
kind_named-type_value boolean = refl
kind_named-type_value integer = refl
kind_named-type_value decimal = refl
kind_named-type_value text = refl
kind_named-type_value binary = refl
kind_named-type_value date = refl
kind_named-type_value time_local = refl
kind_named-type_value timestamp_local = refl
kind_named-type_value timestamp_instant = refl
kind_named-type_value uuid = refl

type_value_injective : (k l : ValueType) → (type_value k == type_value l) ≡ true → k ≡ l
type_value_injective k l h =
    sym (kind_named-type_value k)
    ∙ ap kind_named ((eq_iff (type_value k) (type_value l)).0 h)
    ∙ kind_named-type_value l

same_raw_sound : (v w : RawValue) → same_raw v w ≡ true → v ≡ w
same_raw_sound absent w h = ground (arith, h)
same_raw_sound (truth b) (truth c) h = ground (arith, h)
same_raw_sound (truth b) absent h = absurd (ground (arith, h))
same_raw_sound (truth b) (chars t) h = absurd (ground (arith, h))
same_raw_sound (chars s) (chars t) h = ap chars ((eq_iff s t).0 h)
same_raw_sound (chars s) absent h = absurd (ground (arith, h))
same_raw_sound (chars s) (truth c) h = absurd (ground (arith, h))

-- Values that the code takes to be the same are equal.
pub same_values_sound : (vs ws : Dict RelationalValue) → same_values vs ws ≡ true → vs ≡ ws
unfolding same_values
same_values_sound [] [] h = refl
same_values_sound [] (_ ∷ _) h = absurd (ground (arith, h))
same_values_sound (_ ∷ _) [] h = absurd (ground (arith, h))
same_values_sound ((a, v) ∷ vs) ((b, w) ∷ ws) h = cc (
  (eq_iff a b).0 (ground (arith, h)),
  type_value_injective v.kind w.kind (ground (arith, h)),
  same_raw_sound v.value w.value (ground (arith, h)),
  same_values_sound vs ws (ground (arith, h)),
)
