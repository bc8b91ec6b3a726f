-- ===== src/Environment/Session.antt =====
-- environment/in_memory.py, what the adapter does inside one session. `state_digest` is the digest
-- of a world's state, over canonical JSON and SHA-256.
pub mod Faults
pub mod Snapshots
use agent_verification_proto.Base.{
  ℕ, ◌+◌, String, Bool, true, false, not, Option, none, some, List, [], ◌∷◌, any, eqb, ◌==◌,
  contains, length, if◌then◌else◌, Result, ok, raise, Method,
}
use agent_verification_proto.Base.Text.{◌<>◌, str}
use agent_verification_proto.Base.Dict.{Dict, lookup, insert, erase}
use agent_verification_proto.Environment.World.{
  CommerceWorld, WorldState, OrderView, ToolValue, reset_world, restore_state, public_observation,
  call_tool,
}
use agent_verification_proto.Environment.World.Difference.{Change, semantic_diff}
use agent_verification_proto.Environment.Values.{
  FaultPhase, activated, observed, cleared, FaultObservation, EnvironmentError,
  tool_permission_denied, snapshot_not_found, fault_injection_error, key_error,
  tool_execution_error, EnvironmentHandle, SnapshotRef, same_ref, ResetResult, Equivalence,
  state_equivalent, non_equivalent, RestoreResult, ToolRequest, FaultSpec, FaultHandle,
}

pub record StoredSnapshot : Type 0 where
  pub ref : SnapshotRef
  pub state : WorldState

pub record FaultRule : Type 0 where
  pub handle : FaultHandle
  pub spec : FaultSpec
  pub calls_seen : ℕ

pub record Session : Type 0 where
  pub world : CommerceWorld
  pub scenario_digest : String
  pub initial_digest : String
  pub allowed_tools : Dict (List String)
  pub snapshots : Dict StoredSnapshot
  pub faults : Dict FaultRule

abbrev or_default : Option String → String
or_default none = "injected tool failure"
or_default (some error) = error

abbrev observation : FaultRule → FaultPhase → FaultObservation
observation rule phase = record {
  fault_id = rule.handle.fault_id;
  phase = phase;
  kind = rule.spec.kind;
  target = rule.spec.target;
}

-- The ToolExecutionError that a due rule raises.
abbrev fault_of : FaultRule → EnvironmentError
fault_of rule =
    tool_execution_error (or_default rule.spec.error)
      (observation rule activated ∷ observation rule observed ∷ observation rule cleared ∷ [])

-- _apply_fault_if_due: what is raised, if anything, and the rules afterwards. Rules behind the one
-- that is due do not count the call.
unfoldable pub apply_faults : String → Dict FaultRule → Option EnvironmentError × Dict FaultRule
apply_faults name [] = (none, [])
apply_faults name ((fault_id, rule) ∷ rules) =
    let (due, rest) = apply_faults name rules in
    let seen = rule.calls_seen + 1 in
    if not (rule.spec.target == name)
    then (due, (fault_id, rule) ∷ rest)
    else if eqb seen rule.spec.occurrence
    then (some (fault_of rule), rules)
    else (due, (fault_id, record rule { calls_seen = seen }) ∷ rest)

abbrev pub is_granted : Option (List String) → String → Bool
is_granted none name = false
is_granted (some allowed) name = contains name allowed

pub record ToolResult : Type 0 where
  pub request : ToolRequest
  pub value : ToolValue
  pub before_digest : String
  pub after_digest : String
  pub changes : List Change

unfoldable pub observe_session : String → Session → Result EnvironmentError (List OrderView)
observe_session actor_id s = elim (lookup actor_id s.allowed_tools) [
  | none ↦ raise tool_permission_denied
  | some _ ↦ ok (public_observation s.world.state)
]

abbrev some_tool : String → Dict (List String) → Bool
some_tool target [] = false
some_tool target ((actor, allowed) ∷ rest) =
    if contains target allowed then true else some_tool target rest

-- inject_fault. The identifier is a fresh one of uuid4.
unfoldable pub inject_session :
    EnvironmentHandle → FaultSpec → String → Method EnvironmentError Session FaultHandle
inject_session handle fault fault_id s =
    let made : FaultHandle = record {
      fault_id = fault_id;
      handle_id = handle.handle_id;
      kind = fault.kind;
      target = fault.target;
    } in
    if not (fault.kind == "tool.error")
    then (raise fault_injection_error, s)
    else if not (some_tool fault.target s.allowed_tools)
    then (raise fault_injection_error, s)
    else (
      ok made,
      record s {
        faults = insert fault_id (record { handle = made; spec = fault; calls_seen = 0 }) s.faults;
      },
    )

unfoldable pub clear_session :
    EnvironmentHandle → FaultHandle → Method EnvironmentError Session (Unit {0})
clear_session handle fault s =
    if not (fault.handle_id == handle.handle_id)
    then (raise fault_injection_error, s)
    else (ok tt, record s { faults = erase fault.fault_id s.faults })

-- _snapshot, behind the lookup
abbrev check_stored : SnapshotRef → Option StoredSnapshot → Result EnvironmentError StoredSnapshot
check_stored ref none = raise snapshot_not_found
check_stored ref (some stored) =
    if same_ref stored.ref ref then ok stored else raise snapshot_not_found

-- _snapshot
unfoldable pub find_snapshot :
    EnvironmentHandle → SnapshotRef → Session → Result EnvironmentError StoredSnapshot
find_snapshot handle ref s =
    if not (ref.handle_id == handle.handle_id)
    then raise snapshot_not_found
    else check_stored ref (lookup ref.snapshot_id s.snapshots)

module _ (state_digest : WorldState → String) where
  unfoldable pub reset_session : EnvironmentHandle → Method EnvironmentError Session ResetResult
  reset_session handle s =
      let after = reset_world s.world in
      (
        ok (record {
          handle_id = handle.handle_id;
          before_digest = state_digest s.world.state;
          after_digest = state_digest after.state;
          equivalent_to_initial = state_digest after.state == s.initial_digest;
        }),
        record s { world = after; faults = [] },
      )

  abbrev tool_outcome :
      ToolRequest
      → Option ToolValue × CommerceWorld
      → Session
      → Result EnvironmentError ToolResult × Session
  tool_outcome request (none, after) s = (raise key_error, record s { world = after })
  tool_outcome request (some value, after) s = (
    ok (record {
      request = request;
      value = value;
      before_digest = state_digest s.world.state;
      after_digest = state_digest after.state;
      changes = semantic_diff s.world.state after.state;
    }),
    record s { world = after },
  )

  abbrev execute_unless :
      ToolRequest
      → Option EnvironmentError × Dict FaultRule
      → Method EnvironmentError Session ToolResult
  execute_unless request (some fault, rules) s = (raise fault, record s { faults = rules })
  execute_unless request (none, rules) s =
      tool_outcome request (call_tool request.name request.arguments s.world)
        (record s { faults = rules })

  -- execute. An empty list of changes is the diff that is not there.
  unfoldable pub execute_session : ToolRequest → Method EnvironmentError Session ToolResult
  execute_session request s =
      if not (is_granted (lookup request.actor_id s.allowed_tools) request.name)
      then (raise tool_permission_denied, s)
      else execute_unless request (apply_faults request.name s.faults) s

  unfoldable pub snapshot_ref : EnvironmentHandle → Session → SnapshotRef
  snapshot_ref handle s = record {
    snapshot_id = "snap_" <> str (length s.snapshots + 1);
    handle_id = handle.handle_id;
    state_digest = state_digest s.world.state;
    logical_time = s.world.logical_time;
    consistency = "application-consistent";
    adapter_name = "commerce-reference";
  }

  unfoldable pub snapshot_session : EnvironmentHandle → Method EnvironmentError Session SnapshotRef
  snapshot_session handle s =
      let ref = snapshot_ref handle s in
      (
        ok ref,
        record s {
          snapshots =
              insert ref.snapshot_id (record { ref = ref; state = s.world.state }) s.snapshots;
        },
      )

  abbrev restore_found :
      SnapshotRef
      → Result EnvironmentError StoredSnapshot
      → Method EnvironmentError Session RestoreResult
  restore_found ref (raise e) s = (raise e, s)
  restore_found ref (ok stored) s =
      let after = restore_state stored.state stored.ref.logical_time s.world in
      (
        ok (record {
          snapshot_id = ref.snapshot_id;
          before_digest = state_digest s.world.state;
          after_digest = state_digest after.state;
          equivalence =
              if state_digest after.state == ref.state_digest
              then state_equivalent
              else non_equivalent;
        }),
        record s { world = after },
      )

  unfoldable pub restore_session :
      EnvironmentHandle → SnapshotRef → Method EnvironmentError Session RestoreResult
  restore_session handle ref s = restore_found ref (find_snapshot handle ref s) s
