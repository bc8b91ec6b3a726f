-- ===== src/Fabric/Composition/Provisioning.antt =====
-- What provisioning checks before it touches a resource, and what it leaves behind.
use agent_verification_proto.Base.{
  ◌+◌, String, ◌≡◌, refl, ◌⊎◌, inl, Bool, true, not, ◌&&◌, ◌||◌, Option, none, some, List, [], ◌∷◌,
  any, all, ◌==◌, Result, ok, raise, is_ok, if◌then◌else◌, ◌≢◌, arith,
}
use agent_verification_proto.Base.Dict.{Dict, lookup, insert, lookup-insert}
use agent_verification_proto.Fabric.Contract.{is_required, same_identity}
use agent_verification_proto.Fabric.Resource.{
  FabricError, compatibility_error, reference_error, InMemoryFabricResource, is_usable, provision,
}
use agent_verification_proto.Fabric.Composition.{
  CapabilityRequirement, EnvironmentFabric, by_id, check_found, check_requirements,
  validate_required_capabilities, provision_all, provision_loop, provision_checked,
  provision_fabric, ready,
}

-- A resource of the list has the required identifier and declares the required capability.
abbrev pub is_met : List InMemoryFabricResource → CapabilityRequirement → Bool
is_met rs requirement =
    not (is_required requirement.declaration.participation)
    || any
        (λ r.
          r.descriptor.resource_id == requirement.resource_id
          && any (λ actual. same_identity actual requirement.declaration) r.descriptor.capabilities)
        rs

-- A resource found through the index stood in it before or is one of the list.
lookup-by_id :
    (P : InMemoryFabricResource → Bool) (index : Dict InMemoryFabricResource)
    (rs : List InMemoryFabricResource) (id : String) (r : InMemoryFabricResource)
    → lookup id (by_id index rs) ≡ some r
    → P r ≡ true
    → (lookup id index ≡ some r) ⊎ (any (λ x. x.descriptor.resource_id == id && P x) rs ≡ true)
lookup-by_id P index [] id r h p = inl h
lookup-by_id P index (x ∷ rs) id r h p = ground (
  arith,
  lookup-by_id P (insert x.descriptor.resource_id x index) rs id r h p,
  lookup-insert x.descriptor.resource_id id x index,
)

found-is_met :
    (rs : List InMemoryFabricResource) (q : CapabilityRequirement)
    (found : Option InMemoryFabricResource)
    → lookup q.resource_id (by_id [] rs) ≡ found
    → is_ok (check_found q.declaration found) ≡ true
    → is_met rs q ≡ true
unfolding lookup
found-is_met rs q none e h = ground arith
found-is_met rs q (some r) e h = ground (
  arith,
  lookup-by_id (λ x. any (λ actual. same_identity actual q.declaration) x.descriptor.capabilities)
      [] rs q.resource_id r e,
)

check_requirements-is_met :
    (rs : List InMemoryFabricResource) (requirements : List CapabilityRequirement)
    → check_requirements (by_id [] rs) requirements ≡ ok tt
    → all (is_met rs) requirements ≡ true
check_requirements-is_met rs [] h = refl
check_requirements-is_met rs (q ∷ qs) h = ground (
  arith,
  found-is_met rs q (lookup q.resource_id (by_id [] rs)) refl,
  check_requirements-is_met rs qs,
)

provision_all-raise :
    (rs : List InMemoryFabricResource) (e : FabricError)
    → (provision_all rs).0 ≡ raise e
    → e ≡ reference_error
unfolding provision_all provision
provision_all-raise [] e h = cc
provision_all-raise (r ∷ rs) e h = ground (arith, provision_all-raise rs e)

incompatible_loop :
    (looped : Result FabricError (Unit {0}) × List InMemoryFabricResource) (f : EnvironmentFabric)
    → ((e : FabricError) → looped.0 ≡ raise e → e ≡ reference_error)
    → (provision_loop looped f).0 ≢ raise compatibility_error
incompatible_loop (raise e, resources) f only h = ground (arith, only e)
incompatible_loop (ok _, resources) f only h = cc

incompatible_checked :
    (checked : Result FabricError (Unit {0})) (f : EnvironmentFabric)
    → (provision_checked checked f).0 ≡ raise compatibility_error
    → (provision_checked checked f).1 ≡ f
incompatible_checked (raise e) f h = refl
incompatible_checked (ok _) f h =
    absurd (incompatible_loop (provision_all f.resources) f (provision_all-raise f.resources) h)

-- A refusal for a missing resource or capability has touched nothing: no resource has had a
-- provisioning side effect.
pub provision_fabric_incompatible :
    (f : EnvironmentFabric)
    → (provision_fabric f).0 ≡ raise compatibility_error
    → (provision_fabric f).1 ≡ f
unfolding provision_fabric
provision_fabric_incompatible f h = incompatible_checked _ f h

-- One resource before and after a provisioning that completes.
pub record IsProvisioned (before after : InMemoryFabricResource) : Type 0 where
  pub usable : is_usable after ≡ true
  pub same_descriptor : after.descriptor ≡ before.descriptor
  pub same_state : after.state ≡ before.state
  pub counted : after.provision_side_effects ≡ (
      if before.provisioned
      then before.provision_side_effects
      else before.provision_side_effects + 1)

abbrev pub AllProvisioned : List InMemoryFabricResource → List InMemoryFabricResource → Type 0
AllProvisioned [] [] = Unit
AllProvisioned (r ∷ rs) (s ∷ ss) = IsProvisioned r s × AllProvisioned rs ss
AllProvisioned _ _ = ⊥

provision-IsProvisioned :
    (r : InMemoryFabricResource) → (provision r).0 ≡ ok tt → IsProvisioned r (provision r).1
unfolding provision
provision-IsProvisioned r h = ground arith

provision_all-AllProvisioned :
    (rs : List InMemoryFabricResource)
    → (provision_all rs).0 ≡ ok tt
    → AllProvisioned rs (provision_all rs).1
unfolding provision_all
provision_all-AllProvisioned [] h = tt
provision_all-AllProvisioned (r ∷ rs) h =
    ground (arith, provision-IsProvisioned r, provision_all-AllProvisioned rs)

-- Provisioning that completes has checked every required capability against the resources, and
-- leaves the Fabric ready and each resource usable, with one side effect where it had none before.
pub provision_fabric_completes :
    (f : EnvironmentFabric)
    → (provision_fabric f).0 ≡ ok tt
    → (all (is_met f.resources) f.requirements ≡ true)
      × (ready (provision_fabric f).1 ≡ true)
      × AllProvisioned f.resources (provision_fabric f).1.resources
unfolding provision_fabric validate_required_capabilities ready
provision_fabric_completes f h = ground (
  arith,
  check_requirements-is_met f.resources f.requirements,
  provision_all-AllProvisioned f.resources,
)
