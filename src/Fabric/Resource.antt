-- ===== src/Fabric/Resource.antt =====
-- fabric/runtime.py, InMemoryFabricResource: the deterministic resource with its fault controls.
pub mod Effects
use agent_verification_proto.Base.{
  ℕ, ◌+◌, String, Bool, true, false, not, Option, none, some, List, if◌then◌else◌, Result, ok,
  raise, Method,
}
use agent_verification_proto.Fabric.Contract.{
  RestoreEquivalence, non_equivalent, FabricOperation, reset, snapshot, restore, release,
  OperationStatus, succeeded, failed, is_failed, is_among, EnvironmentResourceDescriptor,
  ResourceOperationResult,
}

pub data FabricError : Type 0 where
  fabric_error compatibility_error reference_error authorization_error : FabricError

pub record InMemoryFabricResource : Type 0 where
  pub descriptor : EnvironmentResourceDescriptor
  pub restore_fidelity : RestoreEquivalence
  pub fail_operations : List FabricOperation
  pub broken_snapshot_behavior : Bool
  pub released : Bool
  pub provisioned : Bool
  pub state : ℕ
  pub provision_side_effects : ℕ
  pub subject_side_effects : ℕ
  pub operation_effects : ℕ

unfoldable pub new_resource :
    EnvironmentResourceDescriptor
    → RestoreEquivalence
    → List FabricOperation
    → Bool
    → InMemoryFabricResource
new_resource descriptor restore_fidelity fail_operations broken_snapshot_behavior = record {
  descriptor = descriptor;
  restore_fidelity = restore_fidelity;
  fail_operations = fail_operations;
  broken_snapshot_behavior = broken_snapshot_behavior;
  released = false;
  provisioned = false;
  state = 0;
  provision_side_effects = 0;
  subject_side_effects = 0;
  operation_effects = 0;
}

-- A result of the resource, with its identity and participation.
abbrev pub result_of :
    InMemoryFabricResource
    → OperationStatus
    → Option RestoreEquivalence
    → Option String
    → ResourceOperationResult
result_of r status fidelity code = record {
  resource_id = r.descriptor.resource_id;
  participation = r.descriptor.participation;
  status = status;
  restore_fidelity = fidelity;
  failure_code = code;
}

-- _assert_live_reference and _assert_usable
abbrev pub is_usable : InMemoryFabricResource → Bool
is_usable r = if r.released then false else r.provisioned

unfoldable pub provision : Method FabricError InMemoryFabricResource (Unit {0})
provision r =
    if r.released
    then (raise reference_error, r)
    else if not r.provisioned
    then (
      ok tt,
      record r { provisioned = true; provision_side_effects = r.provision_side_effects + 1 },
    )
    else (ok tt, r)

unfoldable pub mutate : Method FabricError InMemoryFabricResource (Unit {0})
mutate r = if not (is_usable r) then (raise reference_error, r) else (
  ok tt,
  record r { state = r.state + 1; subject_side_effects = r.subject_side_effects + 1 },
)

unfoldable pub take_snapshot : InMemoryFabricResource → Result FabricError ℕ
take_snapshot r =
    if not (is_usable r)
    then raise reference_error
    else if r.broken_snapshot_behavior
    then ok (r.state + 1)
    else ok r.state

abbrev assign : Option ℕ → ℕ → ℕ
assign none old = old
assign (some new_state) old = new_state

-- _operation
unfoldable pub operate :
    FabricOperation → Option ℕ → Method FabricError InMemoryFabricResource ResourceOperationResult
operate operation new_state r =
    if not (is_usable r)
    then (raise reference_error, r)
    else if is_among operation r.fail_operations
    then (ok (result_of r failed none (some "OPERATION_FAILED")), r)
    else (
      ok (result_of r succeeded none none),
      record r { operation_effects = r.operation_effects + 1; state = assign new_state r.state },
    )

abbrev restored :
    Result FabricError ResourceOperationResult
    → InMemoryFabricResource
    → Result FabricError ResourceOperationResult
restored (raise e) r = raise e
restored (ok result) r =
    if is_failed result.status
    then ok (result_of r failed (some non_equivalent) result.failure_code)
    else ok (result_of r succeeded (some r.restore_fidelity) none)

unfoldable pub restore_resource : Method FabricError InMemoryFabricResource ResourceOperationResult
unfolding operate
restore_resource r = let (result, after) = operate restore none r in (restored result after, after)

unfoldable pub release_resource : Method FabricError InMemoryFabricResource ResourceOperationResult
release_resource r =
    if r.released
    then (ok (result_of r succeeded none none), r)
    else if is_among release r.fail_operations
    then (ok (result_of r failed none (some "CLEANUP_FAILED")), r)
    else (
      ok (result_of r succeeded none none),
      record r {
        operation_effects = r.operation_effects + 1;
        released = true;
        provisioned = false;
      },
    )

-- The SNAPSHOT branch of `execute`. The value of `snapshot()` is dropped, and it cannot raise there.
abbrev execute_snapshot : Method FabricError InMemoryFabricResource ResourceOperationResult
execute_snapshot r =
    if not (is_usable r)
    then (raise reference_error, r)
    else if is_among snapshot r.fail_operations
    then (ok (result_of r failed none (some "OPERATION_FAILED")), r)
    else (
      ok (result_of r succeeded none none),
      record r { operation_effects = r.operation_effects + 1 },
    )

-- The last `raise` of `execute` is for a value that is no member of the enum.
unfoldable pub execute :
    FabricOperation → Method FabricError InMemoryFabricResource ResourceOperationResult
unfolding operate restore_resource release_resource
execute reset r = operate reset (some 0) r
execute restore r = restore_resource r
execute snapshot r = execute_snapshot r
execute release r = release_resource r
