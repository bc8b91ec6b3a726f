-- ===== src/Fabric/Execution/Outcome.antt =====
-- What a composite operation reports: one result for each resource, and a failure exactly when a
-- required resource did not succeed.
use agent_verification_proto.Base.{
  ◌+◌, String, ◌≡◌, refl, ◌⊎◌, true, false, not, ◌&&◌, none, List, [], ◌∷◌, any, contains, Result,
  ok, raise, if◌then◌else◌, arith,
}
use agent_verification_proto.Base.Text.{◌<>◌, str}
use agent_verification_proto.Fabric.Contract.{
  FabricOperation, succeeded, failed, not_participating, is_required, is_succeeded,
  ResourceOperationResult, FabricOperationResult,
}
use agent_verification_proto.Fabric.Resource.{
  FabricError, result_of, InMemoryFabricResource, execute,
}
use agent_verification_proto.Fabric.Composition.{EnvironmentFabric, assert_ready, ready}
use agent_verification_proto.Fabric.Execution.{
  turn, execute_all, required_failed, status_of, conclude, aggregate_fidelity, run_loop, execute_if,
  execute_composite,
}

-- One resource before and after a completed composite operation, and its result: left out as an
-- optional resource with nothing done, or executed.
abbrev pub IsTurn :
    FabricOperation
    → List String
    → InMemoryFabricResource
    → InMemoryFabricResource
    → ResourceOperationResult
    → Type 0
IsTurn operation omitted before after result =
    ((contains before.descriptor.resource_id omitted ≡ true)
      × (is_required before.descriptor.participation ≡ false)
      × (result ≡ result_of before not_participating none none)
      × (after ≡ before))
    ⊎ ((contains before.descriptor.resource_id omitted ≡ false)
        × ((execute operation before).0 ≡ ok result)
        × (after ≡ (execute operation before).1))

abbrev pub AreTurns :
    FabricOperation
    → List String
    → List InMemoryFabricResource
    → List InMemoryFabricResource
    → List ResourceOperationResult
    → Type 0
AreTurns operation omitted [] [] [] = Unit
AreTurns operation omitted (r ∷ rs) (s ∷ ss) (x ∷ xs) =
    IsTurn operation omitted r s x × AreTurns operation omitted rs ss xs
AreTurns operation omitted _ _ _ = ⊥

turn-IsTurn :
    (operation : FabricOperation) (omitted : List String) (r : InMemoryFabricResource)
    (result : ResourceOperationResult)
    → (turn operation omitted r).0 ≡ ok result
    → IsTurn operation omitted r (turn operation omitted r).1 result
unfolding turn
turn-IsTurn operation omitted r result h = ground arith

execute_all-AreTurns :
    (operation : FabricOperation) (omitted : List String) (rs : List InMemoryFabricResource)
    (results : List ResourceOperationResult)
    → (execute_all operation omitted rs).0 ≡ ok results
    → AreTurns operation omitted rs (execute_all operation omitted rs).1 results
unfolding execute_all
execute_all-AreTurns operation omitted [] results h = ground arith
execute_all-AreTurns operation omitted (r ∷ rs) [] h = ground arith
execute_all-AreTurns operation omitted (r ∷ rs) (x ∷ xs) h =
    ground (arith, turn-IsTurn operation omitted r x, execute_all-AreTurns operation omitted rs xs)

-- What a completed composite operation reports of itself.
pub record IsComposite (operation : FabricOperation) (omitted : List String)
    (before after : EnvironmentFabric) (result : FabricOperationResult) : Type 0 where
  pub was_ready : ready before ≡ true
  pub turns : AreTurns operation omitted before.resources after.resources result.resource_results
  pub verdict : result.status ≡ (
      if any
        (λ r. is_required r.participation && not (is_succeeded r.status))
        result.resource_results
      then failed
      else succeeded)
  pub identified : result.operation_id ≡ "fabric-op-" <> str (before.operation_sequence + 1)
  pub counted : after.operation_sequence ≡ before.operation_sequence + 1
  pub kind : result.operation ≡ operation
  pub still_ready : ready after ≡ true

conclude-ok :
    (operation : FabricOperation) (made : Result FabricError (List ResourceOperationResult))
    (f : EnvironmentFabric) (result : FabricOperationResult)
    → (conclude operation made f).0 ≡ ok result
    → (made ≡ ok result.resource_results)
      × ((conclude operation made f).1.resources ≡ f.resources)
      × (result.status ≡ status_of (required_failed result.resource_results))
      × (result.operation_id ≡ "fabric-op-" <> str (f.operation_sequence + 1))
      × ((conclude operation made f).1.operation_sequence ≡ f.operation_sequence + 1)
      × (result.operation ≡ operation)
      × (ready (conclude operation made f).1 ≡ ready f)
      × (aggregate_fidelity operation result.resource_results
          ≡ ok result.aggregate_restore_fidelity)
unfolding conclude ready
conclude-ok operation (raise e) f result h = cc
conclude-ok operation (ok results) f result h = ground arith

loop-IsComposite :
    (operation : FabricOperation) (omitted : List String) (f : EnvironmentFabric)
    (result : FabricOperationResult)
    → ready f ≡ true
    → (run_loop operation omitted f).0 ≡ ok result
    → IsComposite operation omitted f (run_loop operation omitted f).1 result
unfolding ready
loop-IsComposite operation omitted f result is_ready h =
    let made = (execute_all operation omitted f.resources).0 in
    let looped = (record f { resources = (execute_all operation omitted f.resources).1 }) in
    ground (
      arith,
      conclude-ok operation made looped result h,
      execute_all-AreTurns operation omitted f.resources result.resource_results,
    )

if-IsComposite :
    (checked : Result FabricError (Unit {0})) (operation : FabricOperation) (omitted : List String)
    (f : EnvironmentFabric) (result : FabricOperationResult)
    → (checked ≡ ok tt → ready f ≡ true)
    → (execute_if operation omitted checked f).0 ≡ ok result
    → IsComposite operation omitted f (execute_if operation omitted checked f).1 result
if-IsComposite (raise e) operation omitted f result rule h = cc
if-IsComposite (ok tt) operation omitted f result rule h =
    loop-IsComposite operation omitted f result (rule refl) h

pub assert_ready-ready : (f : EnvironmentFabric) → assert_ready f ≡ ok tt → ready f ≡ true
unfolding ready
assert_ready-ready f h = ground arith

-- A composite operation that completes ran on a ready Fabric and reports each resource once, in
-- order: left out, optional and untouched, or executed. It is FAILED exactly when a required
-- resource did not succeed, its identifier carries the next number, and the Fabric stays ready.
pub execute_composite-IsComposite :
    (operation : FabricOperation) (omitted : List String) (f : EnvironmentFabric)
    (result : FabricOperationResult)
    → (execute_composite operation omitted f).0 ≡ ok result
    → IsComposite operation omitted f (execute_composite operation omitted f).1 result
unfolding execute_composite
execute_composite-IsComposite operation omitted f result h =
    if-IsComposite (assert_ready f) operation omitted f result (assert_ready-ready f) h

loop-aggregate :
    (operation : FabricOperation) (omitted : List String) (f : EnvironmentFabric)
    (result : FabricOperationResult)
    → (run_loop operation omitted f).0 ≡ ok result
    → aggregate_fidelity operation result.resource_results ≡ ok result.aggregate_restore_fidelity
loop-aggregate operation omitted f result h =
    let made = (execute_all operation omitted f.resources).0 in
    let looped = (record f { resources = (execute_all operation omitted f.resources).1 }) in
    ground (arith, conclude-ok operation made looped result h)

if-aggregate :
    (checked : Result FabricError (Unit {0})) (operation : FabricOperation) (omitted : List String)
    (f : EnvironmentFabric) (result : FabricOperationResult)
    → (execute_if operation omitted checked f).0 ≡ ok result
    → aggregate_fidelity operation result.resource_results ≡ ok result.aggregate_restore_fidelity
if-aggregate (raise e) operation omitted f result h = cc
if-aggregate (ok tt) operation omitted f result h = loop-aggregate operation omitted f result h

pub execute_composite-aggregate :
    (operation : FabricOperation) (omitted : List String) (f : EnvironmentFabric)
    (result : FabricOperationResult)
    → (execute_composite operation omitted f).0 ≡ ok result
    → aggregate_fidelity operation result.resource_results ≡ ok result.aggregate_restore_fidelity
unfolding execute_composite
execute_composite-aggregate operation omitted f = if-aggregate (assert_ready f) operation omitted f
