-- ===== src/Fabric/Execution.antt =====
-- fabric/runtime.py, EnvironmentFabric: `execute_composite` and `release`.
pub mod Outcome
pub mod Fidelity
pub mod Cleanup
use agent_verification_proto.Base.{
  ℕ, ◌+◌, String, Bool, true, false, not, ◌&&◌, ◌||◌, Option, none, some, List, [], ◌∷◌, map, any,
  ltb, ◌==◌, contains, is_none, if◌then◌else◌, Result, ok, raise, Method, ◌>>=◌, ◌>>◌, raise_if,
}
use agent_verification_proto.Base.Text.{◌<>◌, str, is_empty}
use agent_verification_proto.Fabric.Contract.{
  RestoreEquivalence, exact, state_equivalent, non_equivalent, FabricOperation, release,
  OperationStatus, succeeded, failed, not_participating, is_required, is_succeeded, is_failed,
  is_restore, ResourceOperationResult, FabricOperationResult,
}
use agent_verification_proto.Fabric.Resource.{
  FabricError, fabric_error, compatibility_error, reference_error, InMemoryFabricResource,
  result_of, execute, release_resource,
}
use agent_verification_proto.Fabric.Composition.{EnvironmentFabric, assert_ready}

-- What one turn of the loop of `execute_composite` does with a resource.
unfoldable pub turn :
    FabricOperation
    → List String
    → Method FabricError InMemoryFabricResource ResourceOperationResult
turn operation omitted r =
    if contains r.descriptor.resource_id omitted
    then (if is_required r.descriptor.participation
        then (raise compatibility_error, r)
        else (ok (result_of r not_participating none none), r))
    else execute operation r

-- The loop: what ran before a raise stays done.
unfoldable pub execute_all :
    FabricOperation
    → List String
    → List InMemoryFabricResource
    → Result FabricError (List ResourceOperationResult) × List InMemoryFabricResource
execute_all operation omitted [] = (ok [], [])
execute_all operation omitted (r ∷ rs) =
    let (result, after) = turn operation omitted r in
    let (rest, others) = execute_all operation omitted rs in
    elim result [
      | raise e ↦ (raise e, after ∷ rs)
      | ok first ↦ ((do results ← rest; ok (first ∷ results)), after ∷ others)
    ]

abbrev required_failed : List ResourceOperationResult → Bool
required_failed = any (λ r. is_required r.participation && not (is_succeeded r.status))

-- _FIDELITY_RANK
abbrev pub rank : RestoreEquivalence → ℕ
rank non_equivalent = 0
rank state_equivalent = 1
rank exact = 2

abbrev required_fidelities : List ResourceOperationResult → List (Option RestoreEquivalence)
required_fidelities [] = []
required_fidelities (r ∷ rs) =
    if is_required r.participation && is_succeeded r.status
    then r.restore_fidelity ∷ required_fidelities rs
    else required_fidelities rs

-- min(fidelities, key=rank): the first of the least. `least` is the least so far.
abbrev least_from :
    RestoreEquivalence → List (Option RestoreEquivalence) → Option RestoreEquivalence
least_from least [] = some least
least_from least (none ∷ rest) = none
least_from least (some fidelity ∷ rest) =
    least_from (if ltb (rank fidelity) (rank least) then fidelity else least) rest

-- `none` where the code raises: no fidelity, or one that is missing.
abbrev least_fidelity : List (Option RestoreEquivalence) → Option RestoreEquivalence
least_fidelity [] = none
least_fidelity (none ∷ rest) = none
least_fidelity (some fidelity ∷ rest) = least_from fidelity rest

abbrev or_missing : Option RestoreEquivalence → Result FabricError (Option RestoreEquivalence)
or_missing none = raise fabric_error
or_missing (some fidelity) = ok (some fidelity)

unfoldable pub aggregate_fidelity :
    FabricOperation → List ResourceOperationResult → Result FabricError (Option RestoreEquivalence)
aggregate_fidelity operation results =
    if not (is_restore operation)
    then ok none
    else if required_failed results
    then ok (some non_equivalent)
    else or_missing (least_fidelity (required_fidelities results))

abbrev status_of : Bool → OperationStatus
status_of true = failed
status_of false = succeeded

-- The last part of `execute_composite`, behind the loop.
unfoldable pub conclude :
    FabricOperation
    → Result FabricError (List ResourceOperationResult)
    → Method FabricError EnvironmentFabric FabricOperationResult
unfolding aggregate_fidelity
conclude operation (raise e) f = (raise e, f)
conclude operation (ok results) f = elim (aggregate_fidelity operation results) [
  | raise e ↦ (raise e, f)
  | ok fidelity ↦ (
    ok (record {
      operation_id = "fabric-op-" <> str (f.operation_sequence + 1);
      operation = operation;
      environment_id = f.environment_id;
      status = status_of (required_failed results);
      resource_results = results;
      aggregate_restore_fidelity = fidelity;
    }),
    record f { operation_sequence = f.operation_sequence + 1 },
  )
]

abbrev run_loop :
    FabricOperation → List String → Method FabricError EnvironmentFabric FabricOperationResult
run_loop operation omitted f =
    let (results, resources) = execute_all operation omitted f.resources in
    conclude operation results (record f { resources = resources })

abbrev execute_if :
    FabricOperation
    → List String
    → Result FabricError (Unit {0})
    → Method FabricError EnvironmentFabric FabricOperationResult
execute_if operation omitted (raise e) f = (raise e, f)
execute_if operation omitted (ok _) f = run_loop operation omitted f

-- EnvironmentFabric.execute_composite
unfoldable pub execute_composite :
    FabricOperation → List String → Method FabricError EnvironmentFabric FabricOperationResult
execute_composite operation omitted f = execute_if operation omitted (assert_ready f) f

abbrev released_result : InMemoryFabricResource → ResourceOperationResult
released_result r = result_of r succeeded none none

-- tuple(item.release() for item in resources). A resource never raises in `release`.
unfoldable pub release_all :
    List InMemoryFabricResource → List ResourceOperationResult × List InMemoryFabricResource
release_all [] = ([], [])
release_all (r ∷ rs) =
    let (result, after) = release_resource r in
    let (rest, others) = release_all rs in
    (elim result [ raise e ↦ rest | ok first ↦ first ∷ rest ], after ∷ others)

abbrev required_release_failed : List ResourceOperationResult → Bool
required_release_failed = any (λ r. is_required r.participation && is_failed r.status)

-- The result of `release` with the next operation identifier.
abbrev release_result :
    EnvironmentFabric → OperationStatus → List ResourceOperationResult → FabricOperationResult
release_result f status results = record {
  operation_id = "fabric-op-" <> str (f.operation_sequence + 1);
  operation = release;
  environment_id = f.environment_id;
  status = status;
  resource_results = results;
  aggregate_restore_fidelity = none;
}

unfoldable pub release_fabric : EnvironmentFabric → FabricOperationResult × EnvironmentFabric
release_fabric f =
    let (results, resources) = release_all f.resources in
    let bad = required_release_failed results in
    if f.released
    then (
      release_result f succeeded (map released_result f.resources),
      record f { operation_sequence = f.operation_sequence + 1 },
    )
    else if bad
    then (
      release_result f failed results,
      record f { operation_sequence = f.operation_sequence + 1; resources = resources },
    )
    else (
      release_result f succeeded results,
      record f {
        operation_sequence = f.operation_sequence + 1;
        resources = resources;
        is_ready = false;
        released = true;
      },
    )
