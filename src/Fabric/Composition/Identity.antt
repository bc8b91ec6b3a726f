-- ===== src/Fabric/Composition/Identity.antt =====
-- Which compositions the constructor accepts.
use agent_verification_proto.Base.{
  String, ◌≡◌, refl, Bool, true, not, ◌&&◌, List, [], ◌∷◌, map, all, contains, is_unique, ◌==◌,
  eq_iff, is_ok, arith,
}
use agent_verification_proto.Base.Text.{is_empty}
use agent_verification_proto.Fabric.Resource.{InMemoryFabricResource}
use agent_verification_proto.Fabric.Composition.{
  CapabilityRequirement, is_nil, validate_resources, new_fabric,
}

abbrev pub resource_ids : List InMemoryFabricResource → List String
resource_ids = map (λ r. r.descriptor.resource_id)

-- Every resource says that it belongs to the environment.
abbrev pub all_local : String → List InMemoryFabricResource → Bool
all_local environment_id = all (λ r. r.descriptor.environment_id == environment_id)

abbrev fresh : List String → List String → Bool
fresh seen = all (λ id. not (contains id seen))

fresh-nil : (ids : List String) → fresh [] ids ≡ true
fresh-nil [] = refl
fresh-nil (id ∷ ids) = fresh-nil ids

fresh-cons :
    (x : String) (seen ids : List String)
    → fresh (x ∷ seen) ids ≡ (not (contains x ids) && fresh seen ids)
fresh-cons x seen [] = refl
fresh-cons x seen (id ∷ ids) = ground (arith, fresh-cons x seen ids, eq_iff x id, eq_iff id x)

is_ok-validate_resources :
    (environment_id : String) (seen : List String) (rs : List InMemoryFabricResource)
    → is_ok (validate_resources environment_id seen rs) ≡ (
        all_local environment_id rs
        && (fresh seen (resource_ids rs) && is_unique (resource_ids rs)))
unfolding validate_resources
is_ok-validate_resources environment_id seen [] = refl
is_ok-validate_resources environment_id seen (r ∷ rs) = ground (
  arith,
  is_ok-validate_resources environment_id (r.descriptor.resource_id ∷ seen) rs,
  fresh-cons r.descriptor.resource_id seen (resource_ids rs),
)

-- The constructor accepts exactly a named environment with at least one resource, all of them its
-- own and no two of one identifier.
pub is_ok-new_fabric :
    (environment_id digest : String) (rs : List InMemoryFabricResource)
    (requirements : List CapabilityRequirement) (capabilities : List String)
    → is_ok (new_fabric environment_id digest rs requirements capabilities) ≡ (
        not (is_empty environment_id)
        && (not (is_nil rs) && (all_local environment_id rs && is_unique (resource_ids rs))))
unfolding new_fabric
is_ok-new_fabric environment_id digest rs requirements capabilities =
    ground (arith, is_ok-validate_resources environment_id [] rs, fresh-nil (resource_ids rs))
