-- ===== src/Fabric/Resource/Effects.antt =====
-- What one operation of a resource reports and changes.
use agent_verification_proto.Base.{◌≡◌, ◌⊎◌, true, false, none, ok, raise, arith}
use agent_verification_proto.Fabric.Contract.{
  FabricOperation, reset, snapshot, restore, release, succeeded, failed, is_among,
  ResourceOperationResult,
}
use agent_verification_proto.Fabric.Resource.{
  FabricError, reference_error, InMemoryFabricResource, is_usable, execute,
}

-- What an operation that completes reports.
pub record IsReported (operation : FabricOperation) (r after : InMemoryFabricResource)
    (result : ResourceOperationResult) : Type 0 where
  pub named : result.resource_id ≡ r.descriptor.resource_id
  pub role : result.participation ≡ r.descriptor.participation
  pub outcome :
      ((result.status ≡ succeeded) × (result.failure_code ≡ none))
      ⊎ ((result.status ≡ failed) × (is_among operation r.fail_operations ≡ true) × (after ≡ r))
  pub same_descriptor : after.descriptor ≡ r.descriptor

-- An operation that completes reports its resource's identity and participation. It is a success
-- without a failure code, or a failure that is one of the constructed faults and leaves the resource
-- as it was. The descriptor stays in either case.
execute-IsReported :
    (operation : FabricOperation) (r : InMemoryFabricResource) (result : ResourceOperationResult)
    → (execute operation r).0 ≡ ok result
    → IsReported operation r (execute operation r).1 result
unfolding execute
execute-IsReported reset r result h = ground arith
execute-IsReported snapshot r result h = ground arith
execute-IsReported restore r result h = ground arith
execute-IsReported release r result h = ground arith

-- An operation raises exactly on a resource that is not usable, except that `release` never does;
-- then nothing changes.
pub execute_raise :
    (operation : FabricOperation) (r : InMemoryFabricResource) (e : FabricError)
    → (execute operation r).0 ≡ raise e
    → (e ≡ reference_error) × (is_usable r ≡ false) × ((execute operation r).1 ≡ r)
unfolding execute
execute_raise reset r e h = ground arith
execute_raise snapshot r e h = ground arith
execute_raise restore r e h = ground arith
execute_raise release r e h = ground arith
