-- ===== src/Fabric/Execution/Fidelity.antt =====
-- The restore fidelity that a composite operation claims.
use agent_verification_proto.Base.{
  String, ◌≡◌, refl, ◌⊎◌, inl, inr, Bool, true, false, not, ◌&&◌, ◌||◌, Option, none, some, List,
  [], ◌∷◌, any, all, leb, ◌≢◌, ok, arith, Bool-cases,
}
use agent_verification_proto.Fabric.Contract.{
  RestoreEquivalence, non_equivalent, restore, is_required, is_succeeded, ResourceOperationResult,
  FabricOperationResult,
}
use agent_verification_proto.Fabric.Composition.{EnvironmentFabric}
use agent_verification_proto.Fabric.Execution.{
  rank, required_failed, required_fidelities, least_from, least_fidelity, or_missing,
  aggregate_fidelity, execute_composite,
}
use agent_verification_proto.Fabric.Execution.Outcome.{execute_composite-aggregate}

abbrev pub reaches : RestoreEquivalence → Option RestoreEquivalence → Bool
reaches fidelity none = false
reaches fidelity (some actual) = leb (rank fidelity) (rank actual)

abbrev pub attains : RestoreEquivalence → Option RestoreEquivalence → Bool
attains fidelity none = false
attains fidelity (some actual) = leb (rank actual) (rank fidelity)

-- Every required resource succeeded with this fidelity or a better one.
abbrev pub none_worse : RestoreEquivalence → List ResourceOperationResult → Bool
none_worse fidelity = all (λ r.
    not (is_required r.participation)
    || (is_succeeded r.status && reaches fidelity r.restore_fidelity))

-- Some required resource succeeded with this fidelity and no better one.
abbrev pub one_as_bad : RestoreEquivalence → List ResourceOperationResult → Bool
one_as_bad fidelity = any (λ r.
    is_required r.participation && (is_succeeded r.status && attains fidelity r.restore_fidelity))

least_from-reaches :
    (least : RestoreEquivalence) (rest : List (Option RestoreEquivalence))
    (fidelity : RestoreEquivalence)
    → least_from least rest ≡ some fidelity
    → (leb (rank fidelity) (rank least) ≡ true) × (all (reaches fidelity) rest ≡ true)
least_from-reaches least [] fidelity h = ground arith
least_from-reaches least (none ∷ rest) fidelity h = ground arith
least_from-reaches least (some x ∷ rest) fidelity h =
    ground (arith, least_from-reaches least rest fidelity, least_from-reaches x rest fidelity)

least_from-attains :
    (least : RestoreEquivalence) (rest : List (Option RestoreEquivalence))
    (fidelity : RestoreEquivalence)
    → least_from least rest ≡ some fidelity
    → (leb (rank least) (rank fidelity) || any (attains fidelity) rest) ≡ true
least_from-attains least [] fidelity h = ground arith
least_from-attains least (none ∷ rest) fidelity h = ground arith
least_from-attains least (some x ∷ rest) fidelity h =
    ground (arith, least_from-attains least rest fidelity, least_from-attains x rest fidelity)

least_fidelity-bounds :
    (fidelities : List (Option RestoreEquivalence)) (fidelity : RestoreEquivalence)
    → least_fidelity fidelities ≡ some fidelity
    → (all (reaches fidelity) fidelities ≡ true) × (any (attains fidelity) fidelities ≡ true)
least_fidelity-bounds [] fidelity h = ground arith
least_fidelity-bounds (none ∷ rest) fidelity h = ground arith
least_fidelity-bounds (some x ∷ rest) fidelity h =
    ground (arith, least_from-reaches x rest fidelity h, least_from-attains x rest fidelity h)

none_worse-required :
    (fidelity : RestoreEquivalence) (results : List ResourceOperationResult)
    → required_failed results ≡ false
    → all (reaches fidelity) (required_fidelities results) ≡ true
    → none_worse fidelity results ≡ true
none_worse-required fidelity [] h p = refl
none_worse-required fidelity (r ∷ rs) h p = ground (arith, none_worse-required fidelity rs)

one_as_bad-required :
    (fidelity : RestoreEquivalence) (results : List ResourceOperationResult)
    → any (attains fidelity) (required_fidelities results) ≡ true
    → one_as_bad fidelity results ≡ true
one_as_bad-required fidelity [] h = ground arith
one_as_bad-required fidelity (r ∷ rs) h = ground (arith, one_as_bad-required fidelity rs)

-- The fidelity is NON_EQUIVALENT for a required failure, and else the worst of the required ones.
abbrev pub IsAggregate : List ResourceOperationResult → RestoreEquivalence → Type 0
IsAggregate results fidelity =
    ((required_failed results ≡ true) × (fidelity ≡ non_equivalent))
    ⊎ ((none_worse fidelity results ≡ true) × (one_as_bad fidelity results ≡ true))

missing-least :
    (found : Option RestoreEquivalence) (fidelity : RestoreEquivalence)
    → or_missing found ≡ ok (some fidelity)
    → found ≡ some fidelity
missing-least none fidelity h = ground arith
missing-least (some x) fidelity h = ground arith

aggregate_fidelity-IsAggregate :
    (results : List ResourceOperationResult) (fidelity : RestoreEquivalence)
    → aggregate_fidelity restore results ≡ ok (some fidelity)
    → IsAggregate results fidelity
unfolding aggregate_fidelity
aggregate_fidelity-IsAggregate results fidelity h = elim (Bool-cases (required_failed results)) [
  | inl failed ↦ ground arith
  | inr fine ↦ ground (
    arith,
    missing-least (least_fidelity (required_fidelities results)) fidelity,
    least_fidelity-bounds (required_fidelities results) fidelity,
    none_worse-required fidelity results fine,
    one_as_bad-required fidelity results,
  )
]

missing-none : (found : Option RestoreEquivalence) → or_missing found ≢ ok none
missing-none none h = ground arith
missing-none (some x) h = ground arith

aggregate-none :
    (results : List ResourceOperationResult) → aggregate_fidelity restore results ≢ ok none
unfolding aggregate_fidelity
aggregate-none results h =
    ground (arith, missing-none (least_fidelity (required_fidelities results)))

claimed :
    (results : List ResourceOperationResult) (fidelity : Option RestoreEquivalence)
    → aggregate_fidelity restore results ≡ ok fidelity
    → (value : RestoreEquivalence) × (fidelity ≡ some value) × IsAggregate results value
claimed results none h = absurd (aggregate-none results h)
claimed results (some value) h = (value, refl, aggregate_fidelity-IsAggregate results value h)

-- A composite restore that completes claims a fidelity, and never more than its resources reached:
-- NON_EQUIVALENT when a required resource failed, and otherwise one that every required resource
-- reached and that some required resource did not exceed.
pub execute_composite-fidelity :
    (omitted : List String) (f : EnvironmentFabric) (result : FabricOperationResult)
    → (execute_composite restore omitted f).0 ≡ ok result
    → (fidelity : RestoreEquivalence) × (result.aggregate_restore_fidelity ≡ some fidelity)
      × IsAggregate result.resource_results fidelity
execute_composite-fidelity omitted f result h =
    claimed result.resource_results result.aggregate_restore_fidelity
      (execute_composite-aggregate restore omitted f result h)
