-- ===== src/Fabric/Execution/Cleanup.antt =====
-- The release of a Fabric: what it leaves behind, on success and on failure, and a second release.
use agent_verification_proto.Base.{
  ◌+◌, String, ◌≡◌, refl, Bool, true, false, not, ◌&&◌, ◌||◌, List, [], ◌∷◌, map, all, raise,
  if◌then◌else◌, arith,
}
use agent_verification_proto.Fabric.Contract.{
  FabricOperation, succeeded, failed, is_required, is_succeeded, FabricOperationResult,
}
use agent_verification_proto.Fabric.Resource.{
  reference_error, InMemoryFabricResource, release_resource,
}
use agent_verification_proto.Fabric.Composition.{
  EnvironmentFabric, ready, manifest, provision_fabric, subject_call, control_snapshot,
}
use agent_verification_proto.Fabric.Composition.Identity.{resource_ids}
use agent_verification_proto.Fabric.Execution.{
  execute_composite, release_all, required_release_failed, release_fabric, released_result,
}

abbrev pub is_clean : List InMemoryFabricResource → Bool
is_clean = all (λ r. not (is_required r.descriptor.participation) || r.released)

release_all-clean :
    (rs : List InMemoryFabricResource)
    → (is_clean (release_all rs).1 ≡ not (required_release_failed (release_all rs).0))
unfolding release_all release_resource
release_all-clean [] = refl
release_all-clean (r ∷ rs) = ground (arith, release_all-clean rs)

release_all-ids :
    (rs : List InMemoryFabricResource)
    → (map (λ r. r.resource_id) (release_all rs).0 ≡ resource_ids rs)
unfolding release_all release_resource
release_all-ids [] = refl
release_all-ids (r ∷ rs) = ground (arith, release_all-ids rs)

released_ids :
    (rs : List InMemoryFabricResource)
    → map (λ r. r.resource_id) (map released_result rs) ≡ resource_ids rs
released_ids [] = refl
released_ids (r ∷ rs) = ground (arith, released_ids rs)

-- A release before the first successful one.
pub record IsCleanup (before after : EnvironmentFabric) (result : FabricOperationResult)
    : Type 0 where
  pub reported : map (λ r. r.resource_id) result.resource_results ≡ resource_ids before.resources
  pub verdict : result.status ≡ (if is_clean after.resources then succeeded else failed)
  pub released : after.released ≡ is_clean after.resources
  pub readiness : ready after ≡ (ready before && not (is_clean after.resources))
  pub counted : after.operation_sequence ≡ before.operation_sequence + 1

-- Releasing a Fabric that is not released reports each resource, and succeeds exactly when no
-- required resource stays unreleased; only then the Fabric is released and no longer ready, and
-- after a failure it can be released again.
pub release_fabric-IsCleanup :
    (f : EnvironmentFabric)
    → f.released ≡ false
    → IsCleanup f (release_fabric f).1 (release_fabric f).0
unfolding release_fabric ready
release_fabric-IsCleanup f h =
    ground (arith, release_all-clean f.resources, release_all-ids f.resources)

released_successes :
    (rs : List InMemoryFabricResource)
    → all (λ r. is_succeeded r.status) (map released_result rs) ≡ true
released_successes [] = refl
released_successes (r ∷ rs) = released_successes rs

release_fabric-closes :
    (f : EnvironmentFabric)
    → (release_fabric f).0.status ≡ succeeded
    → (release_fabric f).1.released ≡ true
unfolding release_fabric
release_fabric-closes f h = ground arith

release_fabric-again :
    (f : EnvironmentFabric)
    → f.released ≡ true
    → ((release_fabric f).0.status ≡ succeeded)
      × (all (λ r. is_succeeded r.status) (release_fabric f).0.resource_results ≡ true)
      × ((release_fabric f).1 ≡ record f { operation_sequence = f.operation_sequence + 1 })
unfolding release_fabric
release_fabric-again f h = ground (arith, released_successes f.resources)

-- A release is idempotent: after one that succeeds, a further release reports a success for each
-- resource and changes nothing but the number of the operation.
pub release_fabric-twice :
    (f : EnvironmentFabric)
    → (release_fabric f).0.status ≡ succeeded
    → (((release_fabric (release_fabric f).1).0).status ≡ succeeded)
      × (all (λ r. is_succeeded r.status) (release_fabric (release_fabric f).1).0.resource_results
          ≡ true)
      × ((release_fabric (release_fabric f).1).1 ≡ record (release_fabric f).1 {
        operation_sequence = (release_fabric f).1.operation_sequence + 1;
      })
release_fabric-twice f h = release_fabric-again _ (release_fabric-closes f h)

-- What a released Fabric does with every other call.
pub record IsClosed (f : EnvironmentFabric) : Type 0 where
  pub manifested : manifest f ≡ raise reference_error
  pub provisioned : provision_fabric f ≡ (raise reference_error, f)
  pub called : (operation : String) → subject_call operation f ≡ raise reference_error
  pub inspected : (id : String) → control_snapshot id f ≡ raise reference_error
  pub executed :
      (operation : FabricOperation) (omitted : List String)
      → execute_composite operation omitted f ≡ (raise reference_error, f)

released-IsClosed : (f : EnvironmentFabric) → f.released ≡ true → IsClosed f
unfolding manifest provision_fabric subject_call control_snapshot execute_composite
released-IsClosed f h = record {
  manifested = ground arith;
  provisioned = ground arith;
  called = λ operation. ground arith;
  inspected = λ id. ground arith;
  executed = λ operation omitted. ground arith;
}

-- After a release that succeeds every other call of the Fabric raises a reference error and changes
-- nothing.
pub release_fabric-IsClosed :
    (f : EnvironmentFabric)
    → (release_fabric f).0.status ≡ succeeded
    → IsClosed (release_fabric f).1
release_fabric-IsClosed f h = released-IsClosed _ (release_fabric-closes f h)
