-- ===== src/Environment/Adapter.antt =====
-- environment/in_memory.py, InMemoryCommerceAdapter: the sessions behind their handles.
pub mod Isolation
pub mod Restoring
pub mod Numbering
pub mod Roundtrip
use Prim.Native.Char.{code}
use agent_verification_proto.Base.{
  ℕ, String, Bool, true, false, not, ◌||◌, Option, none, some, List, [], ◌∷◌, eqb, ◌==◌, is_some,
  if◌then◌else◌, Result, ok, raise, Method, ◌>>=◌, ◌>>◌, raise_if,
}
use agent_verification_proto.Base.Text.{◌<>◌, strip_prefix}
use agent_verification_proto.Base.Dict.{Dict, lookup, insert, erase}
use agent_verification_proto.Environment.World.{
  WorldState, new_world, OrderView, Projected, project_state,
}
use agent_verification_proto.Environment.Values.{
  EnvironmentError, unknown_environment_handle, unsupported_environment, key_error,
  EnvironmentHandle, SnapshotRef, ResetResult, RestoreResult, ToolRequest, FaultSpec, FaultHandle,
}
use agent_verification_proto.Environment.Session.{
  Session, ToolResult, observe_session, inject_session, clear_session, reset_session,
  execute_session, snapshot_session, restore_session,
}

-- What the adapter reads of a ScenarioInstance: `environment.ref`, the digest, the identifiers of the
-- actors, and `capabilities[actor].include`.
pub record ScenarioInstance : Type 0 where
  pub environment_ref : Option String
  pub instance_digest : String
  pub actors : List String
  pub includes : Dict (List String)

-- text.rsplit("/", 1)[-1]: `best` is what follows the last slash so far.
abbrev last_segment : String → String → String
last_segment best String.[] = best
last_segment best (String.◌∷◌ c rest) =
    if eqb (code c) b'/' then last_segment rest rest else last_segment best rest

-- A value that starts with "mcp://" has a slash.
abbrev pub tool_names : List String → List String
tool_names [] = []
tool_names (item ∷ items) =
    let rest = tool_names items in
    if is_some (strip_prefix "mcp://" item) then last_segment item item ∷ rest else rest

abbrev included : Option (List String) → List String
included none = []
included (some items) = items

-- The loop of `_resolve_allowed_tools`.
abbrev resolve_actors : Dict (List String) → Dict (List String) → List String → Dict (List String)
resolve_actors includes resolved [] = resolved
resolve_actors includes resolved (actor ∷ actors) =
    resolve_actors includes (insert actor (tool_names (included (lookup actor includes))) resolved)
      actors

unfoldable pub resolve_allowed_tools : ScenarioInstance → Dict (List String)
resolve_allowed_tools scenario = resolve_actors scenario.includes [] scenario.actors

pub record InMemoryCommerceAdapter : Type 0 where
  pub sessions : Dict Session

unfoldable pub new_adapter : InMemoryCommerceAdapter
new_adapter = record { sessions = [] }

abbrev pub is_supported : Option String → Bool
is_supported none = false
is_supported (some reference) = reference == "env://commerce-reference@0.2.0"

-- _session, behind the lookup
abbrev check_session : EnvironmentHandle → Option Session → Result EnvironmentError Session
check_session handle none = raise unknown_environment_handle
check_session handle (some s) = do
  raise_if
      (not (handle.adapter_name == "commerce-reference") || not (handle.adapter_version == "0.2.0"))
      unknown_environment_handle
  raise_if (not (handle.scenario_digest == s.scenario_digest)) unknown_environment_handle
  ok s

-- _session
unfoldable pub find_session :
    EnvironmentHandle → InMemoryCommerceAdapter → Result EnvironmentError Session
find_session handle a = check_session handle (lookup handle.handle_id a.sessions)

abbrev within :
    {R : Type 0}
    → EnvironmentHandle
    → Method EnvironmentError Session R
    → Result EnvironmentError Session
    → Method EnvironmentError InMemoryCommerceAdapter R
within handle method (raise e) a = (raise e, a)
within handle method (ok s) a =
    let (result, after) = method s in
    (result, record a { sessions = insert handle.handle_id after a.sessions })

-- A method of the adapter that looks its session up and works inside it.
unfoldable pub in_session :
    {R : Type 0}
    → EnvironmentHandle
    → Method EnvironmentError Session R
    → Method EnvironmentError InMemoryCommerceAdapter R
in_session handle method a = within handle method (find_session handle a) a

abbrev pub release_found :
    EnvironmentHandle
    → Result EnvironmentError Session
    → Method EnvironmentError InMemoryCommerceAdapter (Unit {0})
release_found handle (raise e) a = (raise e, a)
release_found handle (ok _) a = (ok tt, record a { sessions = erase handle.handle_id a.sessions })

unfoldable pub release_environment :
    EnvironmentHandle → Method EnvironmentError InMemoryCommerceAdapter (Unit {0})
release_environment handle a = release_found handle (find_session handle a) a

unfoldable pub logical_time :
    EnvironmentHandle → InMemoryCommerceAdapter → Result EnvironmentError ℕ
logical_time handle a = do s ← find_session handle a; ok s.world.logical_time

unfoldable pub observe :
    EnvironmentHandle → String → InMemoryCommerceAdapter → Result EnvironmentError (List OrderView)
observe handle actor_id a = do s ← find_session handle a; observe_session actor_id s

abbrev or_key_error : Option Projected → Result EnvironmentError Projected
or_key_error none = raise key_error
or_key_error (some projected) = ok projected

unfoldable pub project :
    EnvironmentHandle → String → InMemoryCommerceAdapter → Result EnvironmentError Projected
project handle projection_id a = do
  s ← find_session handle a
  or_key_error (project_state s.world.state projection_id)

module _ (state_digest : WorldState → String) where
  unfoldable pub new_session : ScenarioInstance → Session
  new_session scenario = record {
    world = new_world;
    scenario_digest = scenario.instance_digest;
    initial_digest = state_digest new_world.state;
    allowed_tools = resolve_allowed_tools scenario;
    snapshots = [];
    faults = [];
  }

  -- provision. `fresh` is uuid4().hex[:16].
  unfoldable pub provision_environment :
      ScenarioInstance → String → Method EnvironmentError InMemoryCommerceAdapter EnvironmentHandle
  provision_environment scenario fresh a =
      let handle : EnvironmentHandle = record {
        handle_id = "env_" <> fresh;
        adapter_name = "commerce-reference";
        adapter_version = "0.2.0";
        scenario_digest = scenario.instance_digest;
      } in
      if not (is_supported scenario.environment_ref) then (raise unsupported_environment, a) else (
        ok handle,
        record a { sessions = insert handle.handle_id (new_session scenario) a.sessions },
      )

  unfoldable pub reset :
      EnvironmentHandle → Method EnvironmentError InMemoryCommerceAdapter ResetResult
  reset handle = in_session handle (reset_session state_digest handle)

  unfoldable pub execute :
      EnvironmentHandle → ToolRequest → Method EnvironmentError InMemoryCommerceAdapter ToolResult
  execute handle request = in_session handle (execute_session state_digest request)

  unfoldable pub snapshot :
      EnvironmentHandle → Method EnvironmentError InMemoryCommerceAdapter SnapshotRef
  snapshot handle = in_session handle (snapshot_session state_digest handle)

  unfoldable pub restore :
      EnvironmentHandle
      → SnapshotRef
      → Method EnvironmentError InMemoryCommerceAdapter RestoreResult
  restore handle ref = in_session handle (restore_session state_digest handle ref)

unfoldable pub inject_fault :
    EnvironmentHandle
    → FaultSpec
    → String
    → Method EnvironmentError InMemoryCommerceAdapter FaultHandle
inject_fault handle fault fresh =
    in_session handle (inject_session handle fault ("fault_" <> fresh))

unfoldable pub clear_fault :
    EnvironmentHandle → FaultHandle → Method EnvironmentError InMemoryCommerceAdapter (Unit {0})
clear_fault handle fault = in_session handle (clear_session handle fault)
