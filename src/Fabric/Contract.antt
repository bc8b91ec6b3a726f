-- ===== src/Fabric/Contract.antt =====
-- fabric/models.py, and RestoreEquivalence of environment/models.py.
use agent_verification_proto.Base.{
  ℕ, String, Bool, true, false, Option, none, some, List, [], ◌∷◌, ◌&&◌, ◌==◌, eqb, any,
}
use agent_verification_proto.Base.Json.{string, arr, obj, Items, nil, cons, Fields, end, field}

pub data RestoreEquivalence : Type 0 where
  exact state_equivalent non_equivalent : RestoreEquivalence

pub data Participation : Type 0 where
  required optional : Participation

pub data ResourceKind : Type 0 where
  state browser network time compute : ResourceKind

pub data FabricOperation : Type 0 where
  reset snapshot restore release : FabricOperation

pub data OperationStatus : Type 0 where
  succeeded failed not_participating : OperationStatus

-- `participation is Participation.REQUIRED`
abbrev pub is_required : Participation → Bool
is_required required = true
is_required optional = false

abbrev pub is_succeeded : OperationStatus → Bool
is_succeeded succeeded = true
is_succeeded _ = false

abbrev pub is_failed : OperationStatus → Bool
is_failed failed = true
is_failed _ = false

abbrev pub is_restore : FabricOperation → Bool
is_restore restore = true
is_restore _ = false

abbrev position : FabricOperation → ℕ
position reset = 0
position snapshot = 1
position restore = 2
position release = 3

-- `operation in operations`
abbrev pub is_among : FabricOperation → List FabricOperation → Bool
is_among operation operations = any (λ other. eqb (position other) (position operation)) operations

pub record ArtifactIdentity : Type 0 where
  pub digest : String
  pub size : ℕ
  pub media_type : String

pub record ResourceCapabilityDeclaration : Type 0 where
  pub capability_id : String
  pub profile : String
  pub revision : String
  pub participation : Participation

-- Equality of two `semantic_identity` triples.
abbrev pub same_identity : ResourceCapabilityDeclaration → ResourceCapabilityDeclaration → Bool
same_identity a b =
    a.capability_id == b.capability_id && (a.profile == b.profile && a.revision == b.revision)

pub record EnvironmentResourceDescriptor : Type 0 where
  pub resource_id : String
  pub environment_id : String
  pub resource_kind : ResourceKind
  pub participation : Participation
  pub capabilities : List ResourceCapabilityDeclaration
  pub identity_artifacts : List ArtifactIdentity

pub record EnvironmentFabricManifest : Type 0 where
  pub environment_id : String
  pub scenario_instance_digest : String
  pub resources : List EnvironmentResourceDescriptor

pub record ResourceOperationResult : Type 0 where
  pub resource_id : String
  pub participation : Participation
  pub status : OperationStatus
  pub restore_fidelity : Option RestoreEquivalence
  pub failure_code : Option String

pub record FabricOperationResult : Type 0 where
  pub operation_id : String
  pub operation : FabricOperation
  pub environment_id : String
  pub status : OperationStatus
  pub resource_results : List ResourceOperationResult
  pub aggregate_restore_fidelity : Option RestoreEquivalence

abbrev pub equivalence_value : RestoreEquivalence → String
equivalence_value exact = "EXACT"
equivalence_value state_equivalent = "STATE_EQUIVALENT"
equivalence_value non_equivalent = "NON_EQUIVALENT"

abbrev pub participation_value : Participation → String
participation_value required = "REQUIRED"
participation_value optional = "OPTIONAL"

abbrev pub status_value : OperationStatus → String
status_value succeeded = "SUCCEEDED"
status_value failed = "FAILED"
status_value not_participating = "NOT_PARTICIPATING"

abbrev pub operation_value : FabricOperation → String
operation_value reset = "RESET"
operation_value snapshot = "SNAPSHOT"
operation_value restore = "RESTORE"
operation_value release = "RELEASE"

abbrev failure_fields : Option String → Fields
failure_fields none = end
failure_fields (some code) = field "failureCode" (string code) end

abbrev fidelity_fields : String → Option RestoreEquivalence → Fields → Fields
fidelity_fields key none rest = rest
fidelity_fields key (some fidelity) rest = field key (string (equivalence_value fidelity)) rest

-- ResourceOperationResult.to_dict
unfoldable pub resource_result_dict : ResourceOperationResult → Fields
resource_result_dict r = field "resourceId" (string r.resource_id) (
    field "participation" (string (participation_value r.participation)) (
      field "status" (string (status_value r.status))
        (fidelity_fields "restoreFidelity" r.restore_fidelity (failure_fields r.failure_code))))

abbrev result_items : List ResourceOperationResult → Items
result_items [] = nil
result_items (r ∷ rs) = cons (obj (resource_result_dict r)) (result_items rs)

-- FabricOperationResult.to_dict
unfoldable pub operation_result_dict : FabricOperationResult → Fields
unfolding resource_result_dict
operation_result_dict r = field "apiVersion" (string "avp.fabric/v0.1") (
    field "kind" (string "FabricOperationResult") (
      field "operationId" (string r.operation_id) (
        field "operation" (string (operation_value r.operation)) (
          field "environmentId" (string r.environment_id) (
            field "status" (string (status_value r.status)) (
              field "resourceResults" (arr (result_items r.resource_results))
                (fidelity_fields "aggregateRestoreFidelity" r.aggregate_restore_fidelity end)))))))
