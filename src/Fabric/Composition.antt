-- ===== src/Fabric/Composition.antt =====
-- fabric/runtime.py, EnvironmentFabric: the coordinator. A resource object stands in the tuple of
-- resources only once, since its identifier does, so the tuple holds the resources' states.
pub mod Identity
pub mod Provisioning
use agent_verification_proto.Base.{
  ℕ, ◌+◌, String, Bool, true, false, not, ◌&&◌, ◌||◌, Option, none, some, List, [], ◌∷◌, map, any,
  ltb, ◌==◌, contains, is_none, if◌then◌else◌, Result, ok, raise, Method, ◌>>=◌, ◌>>◌, raise_if,
}
use agent_verification_proto.Base.Text.{◌<>◌, str, is_empty}
use agent_verification_proto.Base.Dict.{Dict, lookup, insert}
use agent_verification_proto.Fabric.Contract.{
  RestoreEquivalence, exact, state_equivalent, non_equivalent, FabricOperation, release,
  OperationStatus, succeeded, failed, not_participating, is_required, is_succeeded, is_failed,
  is_restore, same_identity, ResourceCapabilityDeclaration, EnvironmentResourceDescriptor,
  EnvironmentFabricManifest, ResourceOperationResult, FabricOperationResult,
}
use agent_verification_proto.Fabric.Resource.{
  FabricError, fabric_error, compatibility_error, reference_error, authorization_error,
  InMemoryFabricResource, result_of, provision, take_snapshot, execute, release_resource,
}

pub record CapabilityRequirement : Type 0 where
  pub resource_id : String
  pub declaration : ResourceCapabilityDeclaration

pub record EnvironmentFabric : Type 0 where
  pub environment_id : String
  pub scenario_instance_digest : String
  pub resources : List InMemoryFabricResource
  pub requirements : List CapabilityRequirement
  pub subject_capabilities : List String
  pub is_ready : Bool
  pub released : Bool
  pub operation_sequence : ℕ

abbrev pub is_nil {ℓ} : {A : Type ℓ} → List A → Bool
is_nil [] = true
is_nil (_ ∷ _) = false

-- The loop of `_validate_composition_identity`: `seen` is `resource_ids`.
unfoldable pub validate_resources :
    String → List String → List InMemoryFabricResource → Result FabricError (Unit {0})
validate_resources environment_id seen [] = ok tt
validate_resources environment_id seen (r ∷ rs) = do
  raise_if (not (r.descriptor.environment_id == environment_id)) compatibility_error
  raise_if (contains r.descriptor.resource_id seen) compatibility_error
  validate_resources environment_id (r.descriptor.resource_id ∷ seen) rs

-- EnvironmentFabric.__init__
unfoldable pub new_fabric :
    String
    → String
    → List InMemoryFabricResource
    → List CapabilityRequirement
    → List String
    → Result FabricError EnvironmentFabric
unfolding validate_resources
new_fabric environment_id scenario_instance_digest resources requirements subject_capabilities = do
  raise_if (is_empty environment_id || is_nil resources) compatibility_error
  validate_resources environment_id [] resources
  ok (record {
    environment_id = environment_id;
    scenario_instance_digest = scenario_instance_digest;
    resources = resources;
    requirements = requirements;
    subject_capabilities = subject_capabilities;
    is_ready = false;
    released = false;
    operation_sequence = 0;
  })

-- The property `ready`.
unfoldable pub ready : EnvironmentFabric → Bool
ready f = f.is_ready && not f.released

abbrev pub assert_live : EnvironmentFabric → Result FabricError (Unit {0})
assert_live f = raise_if f.released reference_error

abbrev pub assert_ready : EnvironmentFabric → Result FabricError (Unit {0})
assert_ready f = do assert_live f; raise_if (not f.is_ready) reference_error

unfoldable pub manifest : EnvironmentFabric → Result FabricError EnvironmentFabricManifest
manifest f = do
  assert_live f
  ok (record {
    environment_id = f.environment_id;
    scenario_instance_digest = f.scenario_instance_digest;
    resources = map (λ r. r.descriptor) f.resources;
  })

-- {item.descriptor.resource_id: item for item in resources}
abbrev by_id :
    Dict InMemoryFabricResource → List InMemoryFabricResource → Dict InMemoryFabricResource
by_id index [] = index
by_id index (r ∷ rs) = by_id (insert r.descriptor.resource_id r index) rs

-- One turn of `_validate_required_capabilities`.
abbrev check_found :
    ResourceCapabilityDeclaration → Option InMemoryFabricResource → Result FabricError (Unit {0})
check_found wanted none = raise_if (is_required wanted.participation) compatibility_error
check_found wanted (some r) =
    raise_if
      (not (any (λ actual. same_identity actual wanted) r.descriptor.capabilities)
        && is_required wanted.participation)
      compatibility_error

abbrev check_requirements :
    Dict InMemoryFabricResource → List CapabilityRequirement → Result FabricError (Unit {0})
check_requirements index [] = ok tt
check_requirements index (requirement ∷ requirements) = do
  check_found requirement.declaration (lookup requirement.resource_id index)
  check_requirements index requirements

unfoldable pub validate_required_capabilities : EnvironmentFabric → Result FabricError (Unit {0})
validate_required_capabilities f = check_requirements (by_id [] f.resources) f.requirements

-- The loop of `provision`; it stops at the first resource that raises.
unfoldable pub provision_all :
    List InMemoryFabricResource → Result FabricError (Unit {0}) × List InMemoryFabricResource
provision_all [] = (ok tt, [])
provision_all (r ∷ rs) =
    let (result, after) = provision r in
    let (rest, others) = provision_all rs in
    elim result [ raise e ↦ (raise e, after ∷ rs) | ok _ ↦ (rest, after ∷ others) ]

abbrev provision_loop :
    Result FabricError (Unit {0}) × List InMemoryFabricResource
    → Method FabricError EnvironmentFabric (Unit {0})
provision_loop (raise e, resources) f = (raise e, record f { resources = resources })
provision_loop (ok _, resources) f = (ok tt, record f { resources = resources; is_ready = true })

abbrev provision_checked :
    Result FabricError (Unit {0}) → Method FabricError EnvironmentFabric (Unit {0})
provision_checked (raise e) f = (raise e, f)
provision_checked (ok _) f = provision_loop (provision_all f.resources) f

-- EnvironmentFabric.provision
unfoldable pub provision_fabric : Method FabricError EnvironmentFabric (Unit {0})
provision_fabric f = provision_checked (do assert_live f; validate_required_capabilities f) f

unfoldable pub subject_call : String → EnvironmentFabric → Result FabricError String
subject_call operation f = do
  assert_ready f
  raise_if (not (contains operation f.subject_capabilities)) authorization_error
  ok operation

-- _resource
abbrev find_resource :
    String → List InMemoryFabricResource → Result FabricError InMemoryFabricResource
find_resource id [] = raise reference_error
find_resource id (r ∷ rs) = if r.descriptor.resource_id == id then ok r else find_resource id rs

unfoldable pub control_snapshot : String → EnvironmentFabric → Result FabricError ℕ
control_snapshot id f = do assert_ready f; found ← find_resource id f.resources; take_snapshot found
