-- ===== src/Relational/Resource.antt =====
-- relational.py, InMemoryRelationalResource. `digest` is SHA-256 over canonical JSON.
pub mod Roundtrip
pub mod Visibility
pub mod Uses
use agent_verification_proto.Base.{
  ℕ, zero, suc, ◌+◌, String, Bool, true, false, not, ◌||◌, ◌&&◌, Option, none, some, List, [], ◌∷◌,
  ◌++◌, map, all, any, ◌==◌, contains, length, if◌then◌else◌, Result, ok, raise, Method, ◌>>=◌,
  ◌>>◌, raise_if,
}
use agent_verification_proto.Base.Text.{◌<>◌, str, is_empty, is_sha256}
use agent_verification_proto.Base.Dict.{Dict, lookup, insert}
use agent_verification_proto.Base.Sorting.{sort_by}
use agent_verification_proto.Base.Json.{
  Value, string, arr, obj, Items, cons, nil, Fields, field, end,
}
use agent_verification_proto.Relational.Values.{
  same_rows, RelationalError, compatibility_error, reference_error, visibility_error,
  lifecycle_error, relational_error, RelationalValue, RelationalRow, sorted, from_mapping,
  pick_columns, document_of, State, StateImage, image_digest, RelationalSnapshot,
}
use agent_verification_proto.Relational.Lexical.{Lexicon}
use agent_verification_proto.Relational.Manifest.{
  RelationDefinition, ProjectionRelation, ProjectionDefinition, RelationalManifest, is_subset,
  validate_integrity, relation, projection, manifest_digest,
}
use agent_verification_proto.Relational.States.{item, validate_state, state_image_for}

pub data RestoreFidelity : Type 0 where
  state_equivalent non_equivalent : RestoreFidelity

pub record PendingMutation : Type 0 where
  pub relation_id : String
  pub replacement : List RelationalRow
  pub settled : Bool
  pub committed : Bool

pub record RelationalResource : Type 0 where
  pub environment_id : String
  pub resource_id : String
  pub resource_instance_id : String
  pub manifest : RelationalManifest
  pub manifest_digest : String
  pub execution_input_identity : String
  pub bound_execution_identity : String
  pub private_columns : List (String × String)
  pub logical_binding_valid : Bool
  pub quiescing : Bool
  pub released : Bool
  pub pending : List PendingMutation
  pub baseline : State
  pub baseline_digest : String
  pub state : State
  pub snapshot_sequence : ℕ

-- _require_digest
abbrev require_digest : String → Result RelationalError (Unit {0})
require_digest value = raise_if (not (is_sha256 value)) compatibility_error

-- _ensure_live
unfoldable pub ensure_live : RelationalResource → Result RelationalError (Unit {0})
ensure_live r = do
  raise_if r.released reference_error
  raise_if (not r.logical_binding_valid) compatibility_error
  raise_if (not (r.execution_input_identity == r.bound_execution_identity)) compatibility_error

unfoldable pub state_image : RelationalResource → Result RelationalError StateImage
state_image r = ensure_live r >> state_image_for r.manifest_digest r.manifest r.state

-- {column_id: values[column_id].as_document() for column_id in sorted(columns)}
abbrev columns_document : List String → RelationalRow → Result RelationalError Value
columns_document columns row = do
  picked ← pick_columns (sorted columns) row.values
  ok (obj (document_of picked))

-- The inner loop of `project`.
unfoldable pub project_rows :
    RelationDefinition → List String → List RelationalRow → Result RelationalError Items
project_rows definition columns [] = ok nil
project_rows definition columns (row ∷ rows) = do
  key ← columns_document definition.row_key row
  values ← columns_document columns row
  rest ← project_rows definition columns rows
  ok (cons (obj (field "key" key (field "values" values end))) rest)

abbrev project_selected :
    RelationalManifest → State → ProjectionRelation → Result RelationalError Value
project_selected m state selected = do
  definition ← relation selected.relation_id m
  raise_if (not (is_subset definition.row_key selected.columns)) compatibility_error
  rows ← item definition.relation_id state
  projected ← project_rows definition selected.columns rows
  ok (obj (field "relationId" (string definition.relation_id) (field "rows" (arr projected) end)))

-- The outer loop of `project`.
unfoldable pub project_relations :
    RelationalManifest → State → List ProjectionRelation → Result RelationalError Items
project_relations m state [] = ok nil
project_relations m state (selected ∷ rest) = do
  document ← project_selected m state selected
  documents ← project_relations m state rest
  ok (cons document documents)

-- `project` behind the test that the resource is live.
unfoldable pub project_state :
    String → RelationalManifest → String → State → Result RelationalError Fields
project_state projection_id m manifest_digest state = do
  found ← projection projection_id m
  relations ← project_relations m state (sort_by (λ s. s.relation_id) found.relations)
  ok (
      field "apiVersion" (string "avp.relational/v0.1") (
        field "kind" (string "RelationalProjection") (
          field "manifestDigest" (string manifest_digest)
            (field "projectionId" (string projection_id) (field "relations" (arr relations) end)))))

unfoldable pub project : String → RelationalResource → Result RelationalError Fields
project projection_id r =
    ensure_live r >> project_state projection_id r.manifest r.manifest_digest r.state

-- A mutation that is given to `settle_subject_mutation`: one that `begin_subject_mutation` of this
-- resource returned, which is the object at a place of the list, or an object of another resource.
pub data MutationHandle : Type 0 where
  own : (place : ℕ) → MutationHandle
  foreign : PendingMutation → MutationHandle

abbrev same_flag : Bool → Bool → Bool
same_flag true b = b
same_flag false b = not b

-- The equality of two mutations, which are dataclasses
abbrev pub same_mutation : PendingMutation → PendingMutation → Bool
same_mutation p q =
    p.relation_id == q.relation_id
    && same_rows p.replacement q.replacement
    && same_flag p.settled q.settled
    && same_flag p.committed q.committed

unfoldable pub nth_pending : ℕ → List PendingMutation → Option PendingMutation
nth_pending n [] = none
nth_pending zero (p ∷ ps) = some p
nth_pending (suc n) (p ∷ ps) = nth_pending n ps

unfoldable pub set_pending : ℕ → PendingMutation → List PendingMutation → List PendingMutation
set_pending n q [] = []
set_pending zero q (p ∷ ps) = q ∷ ps
set_pending (suc n) q (p ∷ ps) = p ∷ set_pending n q ps

abbrev settle_found :
    ℕ → Bool → Option PendingMutation → Method RelationalError RelationalResource (Unit {0})
settle_found n commit none r = (raise lifecycle_error, r)
settle_found n commit (some p) r =
    if p.settled
    then (raise lifecycle_error, r)
    else if commit
    then (
      ok tt,
      record r {
        state = insert p.relation_id p.replacement r.state;
        pending = set_pending n (record p { settled = true; committed = true }) r.pending;
      },
    )
    else (ok tt, record r { pending = set_pending n (record p { settled = true }) r.pending })

-- A foreign object passes `pending not in self._pending` by its equality to a mutation of the list.
-- Its own flags are not the resource's.
abbrev settle_foreign :
    PendingMutation → Bool → Method RelationalError RelationalResource (Unit {0})
settle_foreign p commit r =
    if not (any (same_mutation p) r.pending) || p.settled
    then (raise lifecycle_error, r)
    else if commit
    then (ok tt, record r { state = insert p.relation_id p.replacement r.state })
    else (ok tt, r)

abbrev settle_handle : MutationHandle → Bool → Method RelationalError RelationalResource (Unit {0})
settle_handle (own place) commit r = settle_found place commit (nth_pending place r.pending) r
settle_handle (foreign p) commit r = settle_foreign p commit r

-- A method that first asks whether the resource is live.
abbrev pub if_live :
    {R : Type 0}
    → Result RelationalError (Unit {0})
    → Method RelationalError RelationalResource R
    → Method RelationalError RelationalResource R
if_live (raise e) method r = (raise e, r)
if_live (ok _) method r = method r

unfoldable pub settle_subject_mutation :
    MutationHandle → Bool → Method RelationalError RelationalResource (Unit {0})
settle_subject_mutation handle commit r = if_live (ensure_live r) (settle_handle handle commit) r

unfoldable pub enter_quiescing : Method RelationalError RelationalResource (Unit {0})
enter_quiescing r = if_live (ensure_live r) (λ r. (ok tt, record r { quiescing = true })) r

unfoldable pub settlement_complete : RelationalResource → Bool
settlement_complete r = all (λ p. p.settled) r.pending

unfoldable pub final_projection : String → RelationalResource → Result RelationalError Fields
final_projection projection_id r = do
  ensure_live r
  raise_if (not r.quiescing || not (settlement_complete r)) lifecycle_error
  project projection_id r

abbrev with_image :
    {R : Type 0}
    → Result RelationalError StateImage
    → (StateImage → Method RelationalError RelationalResource R)
    → Method RelationalError RelationalResource R
with_image (raise e) method r = (raise e, r)
with_image (ok image) method r = method image r

abbrev taken : StateImage → Method RelationalError RelationalResource RelationalSnapshot
taken image r = (
  ok (record {
    snapshot_id = "relational-snapshot-" <> str (r.snapshot_sequence + 1);
    environment_id = r.environment_id;
    resource_id = r.resource_id;
    resource_instance_id = r.resource_instance_id;
    state = image;
  }),
  record r { snapshot_sequence = r.snapshot_sequence + 1 },
)

unfoldable pub snapshot : Method RelationalError RelationalResource RelationalSnapshot
snapshot r = with_image (state_image r) taken r

-- _validate_snapshot_owner
unfoldable pub validate_snapshot_owner :
    RelationalSnapshot → RelationalResource → Result RelationalError (Unit {0})
validate_snapshot_owner s r = do
  raise_if
      (not (s.environment_id == r.environment_id)
        || (not (s.resource_id == r.resource_id)
            || not (s.resource_instance_id == r.resource_instance_id)))
      reference_error
  raise_if (not (s.state.manifest_digest == r.manifest_digest)) reference_error

unfoldable pub set_logical_binding_valid : Bool → RelationalResource → RelationalResource
set_logical_binding_valid valid r = record r { logical_binding_valid = valid }

abbrev if_digest :
    Result RelationalError (Unit {0})
    → String
    → Method RelationalError RelationalResource (Unit {0})
if_digest (raise e) identity r = (raise e, r)
if_digest (ok _) identity r = (ok tt, record r { execution_input_identity = identity })

unfoldable pub set_execution_input_identity :
    String → Method RelationalError RelationalResource (Unit {0})
set_execution_input_identity identity r = if_digest (require_digest identity) identity r

unfoldable pub release : RelationalResource → RelationalResource
release r = record r { released = true }

-- The columns of one relation among the authorized pairs.
unfoldable pub selected_columns : String → List (String × String) → List String
selected_columns relation_id [] = []
selected_columns relation_id ((r, column) ∷ pairs) =
    let rest = selected_columns relation_id pairs in
    if r == relation_id then (if contains column rest then rest else column ∷ rest) else rest

abbrev pub is_pair : String × String → String × String → Bool
is_pair (r, c) (s, d) = r == s && c == d

unfoldable pub view_rows :
    List String → List RelationalRow → Result RelationalError (List RelationalRow)
view_rows columns [] = ok []
view_rows columns (row ∷ rows) = do
  picked ← pick_columns columns row.values
  rest ← view_rows columns rows
  ok (from_mapping picked [] ∷ rest)

abbrev view_relation : String → List String → State → State → Result RelationalError State
view_relation relation_id [] state rest = ok rest
view_relation relation_id (c ∷ cs) state rest = do
  rows ← item relation_id state
  shown ← view_rows (c ∷ cs) rows
  ok ((relation_id, shown) ∷ rest)

unfoldable pub view_relations :
    List RelationDefinition → List (String × String) → State → Result RelationalError State
view_relations [] allowed state = ok []
view_relations (r ∷ rs) allowed state = do
  rest ← view_relations rs allowed state
  view_relation r.relation_id (selected_columns r.relation_id allowed) state rest

-- subject_view
unfoldable pub subject_view :
    List (String × String) → RelationalResource → Result RelationalError State
subject_view authorized r = do
  ensure_live r
  raise_if (any (λ p. any (is_pair p) authorized) r.private_columns) visibility_error
  view_relations r.manifest.relations authorized r.state

module _ (lexicon : Lexicon) (canonical : Value → String) (digest : Value → String) where
  -- What `__init__` is given.
  pub record Arguments : Type 0 where
    pub environment_id : String
    pub resource_id : String
    pub resource_instance_id : String
    pub manifest : RelationalManifest
    pub manifest_artifact_digest : String
    pub baseline : State
    pub baseline_artifact_digest : String
    pub execution_input_identity : String
    pub evaluator_private_columns : List (String × String)

  -- __init__
  unfoldable pub new_resource : Arguments → Result RelationalError RelationalResource
  new_resource a = do
    validate_integrity a.manifest
    require_digest a.manifest_artifact_digest
    require_digest a.baseline_artifact_digest
    require_digest a.execution_input_identity
    raise_if (is_empty a.resource_instance_id) compatibility_error
    computed ← manifest_digest digest a.manifest
    raise_if (not (computed == a.manifest_artifact_digest)) compatibility_error
    validated ← validate_state lexicon canonical a.manifest a.baseline
    image ← state_image_for computed a.manifest validated
    observed ← image_digest digest image
    raise_if (not (observed == a.baseline_artifact_digest)) compatibility_error
    ok (record {
      environment_id = a.environment_id;
      resource_id = a.resource_id;
      resource_instance_id = a.resource_instance_id;
      manifest = a.manifest;
      manifest_digest = computed;
      execution_input_identity = a.execution_input_identity;
      bound_execution_identity = a.execution_input_identity;
      private_columns = a.evaluator_private_columns;
      logical_binding_valid = true;
      quiescing = false;
      released = false;
      pending = [];
      baseline = validated;
      baseline_digest = observed;
      state = validated;
      snapshot_sequence = 0;
    })

  abbrev append_pending :
      String
      → Result RelationalError (List RelationalRow)
      → Method RelationalError RelationalResource ℕ
  append_pending relation_id (raise e) r = (raise e, r)
  append_pending relation_id (ok rows) r = (
    ok (length r.pending),
    record r {
      pending =
          r.pending
          ++ record {
            relation_id = relation_id;
            replacement = rows;
            settled = false;
            committed = false;
          }
            ∷ [];
    },
  )

  abbrev replacement_for :
      String → List RelationalRow → RelationalResource → Result RelationalError (List RelationalRow)
  replacement_for relation_id rows r = do
    validated ← validate_state lexicon canonical r.manifest (insert relation_id rows r.state)
    item relation_id validated

  abbrev begin_live : String → List RelationalRow → Method RelationalError RelationalResource ℕ
  begin_live relation_id rows r =
      if r.quiescing
      then (raise lifecycle_error, r)
      else append_pending relation_id (replacement_for relation_id rows r) r

  -- begin_subject_mutation returns the place of the mutation.
  unfoldable pub begin_subject_mutation :
      String → List RelationalRow → Method RelationalError RelationalResource ℕ
  begin_subject_mutation relation_id rows r =
      if_live (ensure_live r) (begin_live relation_id rows) r

  abbrev observed_baseline : StateImage → RelationalResource → Result RelationalError StateImage
  observed_baseline image r = do
    observed ← image_digest digest image
    raise_if (not (observed == r.baseline_digest)) relational_error
    ok image

  abbrev reset_live : Method RelationalError RelationalResource StateImage
  reset_live r =
      let after = record r { state = r.baseline } in
      ((do image ← state_image after; observed_baseline image after), after)

  unfoldable pub reset : Method RelationalError RelationalResource StateImage
  reset r = if_live (ensure_live r) reset_live r

  abbrev fidelity : RelationalSnapshot → StateImage → Result RelationalError RestoreFidelity
  fidelity s image = do
    observed ← image_digest digest image
    wanted ← image_digest digest s.state
    ok (if observed == wanted then state_equivalent else non_equivalent)

  abbrev restore_validated :
      RelationalSnapshot
      → Result RelationalError State
      → Method RelationalError RelationalResource RestoreFidelity
  restore_validated s (raise e) r = (raise e, r)
  restore_validated s (ok candidate) r =
      let after = record r { state = candidate } in
      ((do image ← state_image after; fidelity s image), after)

  abbrev restore_live :
      RelationalSnapshot → Method RelationalError RelationalResource RestoreFidelity
  restore_live s r =
      restore_validated s
        (do
          validate_snapshot_owner s r
          validate_state lexicon canonical r.manifest s.state.relations)
        r

  unfoldable pub restore :
      RelationalSnapshot → Method RelationalError RelationalResource RestoreFidelity
  restore s r = if_live (ensure_live r) (restore_live s) r
