-- ===== src/Tests/Composition.antt =====
-- A Fabric of a required and an optional resource, of which the optional one fails to restore.
use agent_verification_proto.Base.{
  String, ◌≡◌, refl, Bool, true, false, none, some, List, [], ◌∷◌, all, ok, raise,
}
use agent_verification_proto.Base.Text.{str}
use agent_verification_proto.Base.Dict.{lookup, insert}
use agent_verification_proto.Fabric.Contract.{
  RestoreEquivalence, state_equivalent, non_equivalent, Participation, required, optional, state,
  FabricOperation, reset, snapshot, restore, succeeded, failed, ResourceCapabilityDeclaration,
  FabricOperationResult,
}
use agent_verification_proto.Fabric.Resource.{
  compatibility_error, reference_error, InMemoryFabricResource, provision, operate,
  restore_resource, release_resource, execute,
}
use agent_verification_proto.Fabric.Composition.{
  EnvironmentFabric, ready, validate_required_capabilities, provision_all, provision_fabric,
}
use agent_verification_proto.Fabric.Composition.Provisioning.{
  is_met, AllProvisioned, provision_fabric_completes,
}
use agent_verification_proto.Fabric.Execution.{
  turn, execute_all, aggregate_fidelity, conclude, execute_composite, release_all, release_fabric,
}
use agent_verification_proto.Fabric.Execution.Outcome.{IsComposite, execute_composite-IsComposite}
use agent_verification_proto.Fabric.Execution.Fidelity.{IsAggregate, execute_composite-fidelity}
use agent_verification_proto.Fabric.Execution.Cleanup.{
  IsCleanup, release_fabric-IsCleanup, IsClosed, release_fabric-IsClosed,
}

abbrev snapshots : ResourceCapabilityDeclaration
snapshots = record {
  capability_id = "state.snapshot";
  profile = "avp.fabric/state-v0.1";
  revision = "1";
  participation = required;
}

abbrev member : String → Participation → List FabricOperation → Bool → InMemoryFabricResource
member id participation faults provisioned = record {
  descriptor = record {
    resource_id = id;
    environment_id = "env_1";
    resource_kind = state;
    participation = participation;
    capabilities = snapshots ∷ [];
    identity_artifacts = [];
  };
  restore_fidelity = state_equivalent;
  fail_operations = faults;
  broken_snapshot_behavior = false;
  released = false;
  provisioned = provisioned;
  state = 2;
  provision_side_effects = 0;
  subject_side_effects = 0;
  operation_effects = 0;
}

abbrev composed : String → Bool → EnvironmentFabric
composed wanted provisioned = record {
  environment_id = "env_1";
  scenario_instance_digest = "sha256:0";
  resources =
      member "store" required [] provisioned
      ∷ member "browser" optional (restore ∷ []) provisioned
      ∷ [];
  requirements = record { resource_id = wanted; declaration = snapshots } ∷ [];
  subject_capabilities = "orders.read" ∷ [];
  is_ready = provisioned;
  released = false;
  operation_sequence = 0;
}

abbrev running : EnvironmentFabric
running = composed "store" true

missing_refused : (provision_fabric (composed "clock" false)).0 ≡ raise compatibility_error
unfolding provision_fabric validate_required_capabilities lookup insert
missing_refused = refl

provisioned : (provision_fabric (composed "store" false)).0 ≡ ok tt
unfolding provision_fabric validate_required_capabilities provision_all provision lookup insert
provisioned = refl

provision_fabric_completes_example :
    (all (is_met (composed "store" false).resources) (composed "store" false).requirements ≡ true)
    × (ready (provision_fabric (composed "store" false)).1 ≡ true)
    × AllProvisioned
        (composed "store" false).resources
        (provision_fabric (composed "store" false)).1.resources
provision_fabric_completes_example = provision_fabric_completes (composed "store" false) provisioned

abbrev restored : FabricOperationResult
restored = record {
  operation_id = "fabric-op-1";
  operation = restore;
  environment_id = "env_1";
  status = succeeded;
  resource_results =
      record {
        resource_id = "store";
        participation = required;
        status = succeeded;
        restore_fidelity = some state_equivalent;
        failure_code = none;
      }
      ∷ record {
        resource_id = "browser";
        participation = optional;
        status = failed;
        restore_fidelity = some non_equivalent;
        failure_code = some "OPERATION_FAILED";
      }
      ∷ [];
  aggregate_restore_fidelity = some state_equivalent;
}

restores : (execute_composite restore [] running).0 ≡ ok restored
unfolding execute_composite execute_all turn execute operate restore_resource conclude
    aggregate_fidelity str
restores = refl

execute_composite-IsComposite_example :
    IsComposite restore [] running (execute_composite restore [] running).1 restored
execute_composite-IsComposite_example =
    execute_composite-IsComposite restore [] running restored restores

execute_composite-fidelity_example :
    (fidelity : RestoreEquivalence) × (restored.aggregate_restore_fidelity ≡ some fidelity)
    × IsAggregate restored.resource_results fidelity
execute_composite-fidelity_example = execute_composite-fidelity [] running restored restores

release_fabric-IsCleanup_example :
    IsCleanup running (release_fabric running).1 (release_fabric running).0
release_fabric-IsCleanup_example = release_fabric-IsCleanup running refl

releases : (release_fabric running).0.status ≡ succeeded
unfolding release_fabric release_all release_resource
releases = refl

release_fabric-IsClosed_example : IsClosed (release_fabric running).1
release_fabric-IsClosed_example = release_fabric-IsClosed running releases

abbrev faulty : InMemoryFabricResource
faulty = member "store" required (reset ∷ []) true

fault_reported :
    (execute reset faulty).0
    ≡ ok (record {
      resource_id = "store";
      participation = required;
      status = failed;
      restore_fidelity = none;
      failure_code = some "OPERATION_FAILED";
    })
unfolding execute operate
fault_reported = refl

abbrev unprovisioned : InMemoryFabricResource
unprovisioned = member "store" required [] false

snapshot_refused : (execute snapshot unprovisioned).0 ≡ raise reference_error
unfolding execute
snapshot_refused = refl
