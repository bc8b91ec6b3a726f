-- ===== src/Environment/Values.antt =====
-- environment/models.py and environment/errors.py: what the Environment Adapter takes and returns.
use agent_verification_proto.Base.{
  ℕ, String, Bool, ◌||◌, ◌&&◌, Option, List, ltb, eqb, ◌==◌, Result, ok, ◌>>◌, raise_if,
}
use agent_verification_proto.Base.Text.{is_empty}
use agent_verification_proto.Base.Dict.{Dict}

pub data FaultPhase : Type 0 where
  scheduled activated observed cleared : FaultPhase

pub record FaultObservation : Type 0 where
  pub fault_id : String
  pub phase : FaultPhase
  pub kind : String
  pub target : String

-- What the adapter raises; `key_error` is a KeyError of the world.
pub data EnvironmentError : Type 0 where
  unknown_environment_handle unsupported_environment tool_permission_denied : EnvironmentError
  snapshot_not_found fault_injection_error value_error key_error : EnvironmentError
  tool_execution_error :
      (message : String) (observations : List FaultObservation) → EnvironmentError

pub record EnvironmentHandle : Type 0 where
  pub handle_id : String
  pub adapter_name : String
  pub adapter_version : String
  pub scenario_digest : String

pub record SnapshotRef : Type 0 where
  pub snapshot_id : String
  pub handle_id : String
  pub state_digest : String
  pub logical_time : ℕ
  pub consistency : String
  pub adapter_name : String

-- `stored.ref == ref`
abbrev pub same_ref : SnapshotRef → SnapshotRef → Bool
same_ref a b =
    a.snapshot_id == b.snapshot_id
    && (a.handle_id == b.handle_id
        && (a.state_digest == b.state_digest
            && (eqb a.logical_time b.logical_time
                && (a.consistency == b.consistency && a.adapter_name == b.adapter_name))))

pub record ResetResult : Type 0 where
  pub handle_id : String
  pub before_digest : String
  pub after_digest : String
  pub equivalent_to_initial : Bool

-- `equivalent` is the test by which STATE_EQUIVALENT or NON_EQUIVALENT is chosen.
pub data Equivalence : Type 0 where
  state_equivalent non_equivalent : Equivalence

pub record RestoreResult : Type 0 where
  pub snapshot_id : String
  pub before_digest : String
  pub after_digest : String
  pub equivalence : Equivalence

pub record ToolRequest : Type 0 where
  pub actor_id : String
  pub name : String
  pub arguments : Dict String

-- ToolRequest.__post_init__
unfoldable pub new_tool_request :
    String → String → Dict String → Result EnvironmentError ToolRequest
new_tool_request actor_id name arguments = do
  raise_if (is_empty actor_id || is_empty name) value_error
  ok (record { actor_id = actor_id; name = name; arguments = arguments })

-- `error` is parameters.get("error"). The visibility is left out: the adapter does not read it.
pub record FaultSpec : Type 0 where
  pub kind : String
  pub target : String
  pub occurrence : ℕ
  pub error : Option String

-- FaultSpec.__post_init__
unfoldable pub new_fault_spec :
    String → String → ℕ → Option String → Result EnvironmentError FaultSpec
new_fault_spec kind target occurrence error = do
  raise_if (is_empty kind || is_empty target) value_error
  raise_if (ltb occurrence 1) value_error
  ok (record { kind = kind; target = target; occurrence = occurrence; error = error })

pub record FaultHandle : Type 0 where
  pub fault_id : String
  pub handle_id : String
  pub kind : String
  pub target : String
