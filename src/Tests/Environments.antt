-- ===== src/Tests/Environments.antt =====
-- One commerce environment with an actor that may create refunds.
use agent_verification_proto.Base.{
  String, ◌≡◌, refl, true, false, none, some, List, [], ◌∷◌, ok, raise, length,
}
use agent_verification_proto.Base.Text.{str}
use agent_verification_proto.Base.Dict.{lookup, insert}
use agent_verification_proto.Environment.World.{WorldState, initial, new_world}
use agent_verification_proto.Base.Sets.{sorted_set, insert_sorted}
use agent_verification_proto.Environment.World.Difference.{semantic_diff}
use agent_verification_proto.Environment.Values.{
  tool_permission_denied, EnvironmentHandle, SnapshotRef, ToolRequest,
}
use agent_verification_proto.Environment.Session.{
  FaultRule, Session, apply_faults, is_granted, snapshot_session, snapshot_ref,
}
use agent_verification_proto.Environment.Session.Faults.{meets, is_occurrence, fault_fires}
use agent_verification_proto.Environment.Adapter.{
  ScenarioInstance, InMemoryCommerceAdapter, resolve_allowed_tools, new_adapter, new_session,
  find_session, in_session, provision_environment, execute, snapshot,
}
use agent_verification_proto.Environment.Adapter.Isolation.{
  Step, provisioning, resetting, executing, perform, run, run_isolated, execute_denied,
}
use agent_verification_proto.Environment.Adapter.Roundtrip.{IsRestored, restore-snapshot}

-- A digest that tells states by the number of their refunds.
abbrev count_digest : WorldState → String
count_digest state = str (length state.refunds)

abbrev scenario : ScenarioInstance
scenario = record {
  environment_ref = some "env://commerce-reference@0.2.0";
  instance_digest = "sha256:1";
  actors = "subject" ∷ [];
  includes = ("subject", "mcp://commerce/refund.create" ∷ "file:///etc" ∷ []) ∷ [];
}

abbrev handle : EnvironmentHandle
handle = record {
  handle_id = "env_1";
  adapter_name = "commerce-reference";
  adapter_version = "0.2.0";
  scenario_digest = "sha256:1";
}

abbrev refunding : ToolRequest
refunding = record {
  actor_id = "subject";
  name = "refund.create";
  arguments = ("order_id", "ord_1") ∷ [];
}

abbrev deleting : ToolRequest
deleting = record {
  actor_id = "subject";
  name = "customer.delete";
  arguments = ("customer_id", "cust_1") ∷ [];
}

abbrev provisioned : InMemoryCommerceAdapter
provisioned = run count_digest (provisioning scenario "1" ∷ []) new_adapter

abbrev opened : Session
opened = record {
  world = record { logical_time = 0; state = initial };
  scenario_digest = "sha256:1";
  initial_digest = "0";
  allowed_tools = ("subject", "refund.create" ∷ []) ∷ [];
  snapshots = [];
  faults = [];
}

opens : find_session handle provisioned ≡ ok opened
unfolding run perform provision_environment new_session resolve_allowed_tools new_adapter
    find_session lookup insert new_world str
opens = refl

denied : is_granted (lookup "subject" opened.allowed_tools) "customer.delete" ≡ false
unfolding lookup
denied = refl

execute_denied_example :
    execute count_digest handle deleting provisioned ≡ (raise tool_permission_denied, provisioned)
execute_denied_example = execute_denied count_digest handle deleting provisioned opened opens denied

run_isolated_example :
    lookup "env_1" (run count_digest (provisioning scenario "2" ∷ []) provisioned).sessions
    ≡ lookup "env_1" provisioned.sessions
run_isolated_example =
    run_isolated count_digest (provisioning scenario "2" ∷ []) provisioned "env_1" refl

abbrev rule : FaultRule
rule = record {
  handle = record {
    fault_id = "fault_1";
    handle_id = "env_1";
    kind = "tool.error";
    target = "refund.create";
  };
  spec = record { kind = "tool.error"; target = "refund.create"; occurrence = 2; error = none };
  calls_seen = 0;
}

abbrev calls : List String
calls = "refund.create" ∷ "order.get" ∷ "refund.create" ∷ "refund.create" ∷ []

fires_once : meets calls (("fault_1", rule) ∷ []) ≡ false ∷ false ∷ true ∷ false ∷ []
unfolding meets apply_faults
fires_once = refl

fault_fires_example : meets calls (("fault_1", rule) ∷ []) ≡ is_occurrence "refund.create" 2 0 calls
fault_fires_example = fault_fires "fault_1" rule calls

abbrev first_ref : SnapshotRef
first_ref = record {
  snapshot_id = "snap_1";
  handle_id = "env_1";
  state_digest = "0";
  logical_time = 0;
  consistency = "application-consistent";
  adapter_name = "commerce-reference";
}

takes : (snapshot count_digest handle provisioned).0 ≡ ok first_ref
unfolding snapshot in_session snapshot_session snapshot_ref run perform provision_environment
    new_session resolve_allowed_tools new_adapter find_session lookup insert new_world str
takes = refl

abbrev later : List Step
later =
    executing handle refunding
    ∷ executing handle refunding
    ∷ resetting handle
    ∷ provisioning scenario "2"
    ∷ []

restore-snapshot_example :
    (s : Session) × (find_session handle provisioned ≡ ok s)
    × IsRestored count_digest handle first_ref s
        (run count_digest later (snapshot count_digest handle provisioned).1)
restore-snapshot_example =
    restore-snapshot count_digest (provisioning scenario "1" ∷ []) later handle first_ref takes refl

nothing_changed : semantic_diff initial initial ≡ []
unfolding semantic_diff lookup sorted_set insert_sorted
nothing_changed = refl
