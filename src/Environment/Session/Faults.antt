-- ===== src/Environment/Session/Faults.antt =====
-- When an injected fault fires, and what the permissions stop before anything happens.
use agent_verification_proto.Base.{
  ℕ, ◌+◌, ◌≤◌, String, ◌≡◌, refl, Bool, false, is_some, List, [], ◌∷◌, eqb, ◌==◌, if◌then◌else◌,
  arith,
}
use agent_verification_proto.Base.Dict.{Dict}
use agent_verification_proto.Environment.Session.{FaultRule, apply_faults}

-- Whether each of a sequence of calls meets a fault.
unfoldable pub meets : List String → Dict FaultRule → List Bool
meets [] rules = []
meets (name ∷ names) rules =
    let (due, rest) = apply_faults name rules in is_some due ∷ meets names rest

-- The calls of `names` of which this is the one with number `occurrence` to the target; `seen` of
-- them were before.
abbrev pub is_occurrence : String → ℕ → ℕ → List String → List Bool
is_occurrence target occurrence seen [] = []
is_occurrence target occurrence seen (name ∷ names) =
    let now = seen + 1 in
    let hit = is_occurrence target occurrence now names in
    let miss = is_occurrence target occurrence seen names in
    if target == name then eqb now occurrence ∷ hit else false ∷ miss

abbrev never : List String → List Bool
never [] = []
never (_ ∷ names) = false ∷ never names

meets-never : (names : List String) → meets names [] ≡ never names
unfolding meets apply_faults
meets-never [] = refl
meets-never (name ∷ names) = ground (arith, meets-never names)

is_occurrence-never :
    (target : String) (occurrence seen : ℕ) (names : List String)
    → occurrence ≤ seen
    → is_occurrence target occurrence seen names ≡ never names
is_occurrence-never target occurrence seen [] h = refl
is_occurrence-never target occurrence seen (name ∷ names) h = ground (
  arith,
  is_occurrence-never target occurrence (seen + 1) names,
  is_occurrence-never target occurrence seen names,
)

-- The only fault of a session fires at exactly the call to its target that has the number of its
-- occurrence, counted from the calls that it has seen, and at no other call before or after.
pub fault_fires :
    (fault_id : String) (rule : FaultRule) (names : List String)
    → meets names ((fault_id, rule) ∷ [])
      ≡ is_occurrence rule.spec.target rule.spec.occurrence rule.calls_seen names
unfolding meets apply_faults
fault_fires fault_id rule [] = refl
fault_fires fault_id rule (name ∷ names) = ground (
  arith,
  fault_fires fault_id rule names,
  fault_fires fault_id (record rule { calls_seen = rule.calls_seen + 1 }) names,
  meets-never names,
  is_occurrence-never rule.spec.target rule.spec.occurrence (rule.calls_seen + 1) names,
)
