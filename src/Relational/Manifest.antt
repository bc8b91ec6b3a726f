-- ===== src/Relational/Manifest.antt =====
-- relational.py: the Manifest with its relations and projections, and what makes it whole.
use Prim.Native.Char.{Char, code}
use Prim.Native.String.{count}
use agent_verification_proto.Base.{
  String, Bool, true, false, not, ◌||◌, ◌&&◌, Option, none, some, List, [], ◌∷◌, leb, eqb, ◌==◌,
  map, all, contains, is_unique, if◌then◌else◌, Result, ok, raise, ◌>>=◌, ◌>>◌, raise_if,
}
use agent_verification_proto.Base.Text.{all_chars, is_between, is_digit}
use agent_verification_proto.Base.Sorting.{sort_by}
use agent_verification_proto.Base.Json.{
  Value, bool, string, arr, obj, Items, cons, nil, Fields, field, end,
}
use agent_verification_proto.Relational.Values.{
  RelationalError, compatibility_error, ColumnDefinition, type_document, sorted,
}

pub record RelationDefinition : Type 0 where
  pub relation_id : String
  pub columns : List ColumnDefinition
  pub row_key : List String

pub record ProjectionRelation : Type 0 where
  pub relation_id : String
  pub columns : List String

pub record ProjectionDefinition : Type 0 where
  pub projection_id : String
  pub relations : List ProjectionRelation

pub record RelationalManifest : Type 0 where
  pub relations : List RelationDefinition
  pub projections : List ProjectionDefinition

abbrev is_nil : {A : Type 0} → List A → Bool
is_nil [] = true
is_nil (_ ∷ _) = false

abbrev pub column_ids : List ColumnDefinition → List String
column_ids columns = map (λ c. c.column_id) columns

abbrev pub relation_ids : List RelationDefinition → List String
relation_ids relations = map (λ r. r.relation_id) relations

abbrev projection_ids : List ProjectionDefinition → List String
projection_ids projections = map (λ p. p.projection_id) projections

abbrev selected_ids : List ProjectionRelation → List String
selected_ids relations = map (λ r. r.relation_id) relations

-- set(names).issubset(others)
abbrev pub is_subset : List String → List String → Bool
is_subset names others = all (λ name. contains name others) names

-- RelationDefinition.__post_init__
unfoldable pub new_relation : RelationDefinition → Result RelationalError RelationDefinition
new_relation r = do
  raise_if (is_nil r.row_key) compatibility_error
  raise_if (not (is_unique (column_ids r.columns))) compatibility_error
  raise_if (not (is_unique r.row_key)) compatibility_error
  raise_if (not (is_subset r.row_key (column_ids r.columns))) compatibility_error
  ok r

abbrev is_lower : Char → Bool
is_lower = is_between b'a' b'z'

abbrev is_identifier_char : Char → Bool
is_identifier_char c =
    is_lower c || (is_digit c || (eqb (code c) b'.' || (eqb (code c) b'_' || eqb (code c) b'-')))

-- _IDENTIFIER_RE
unfoldable pub is_identifier : String → Bool
is_identifier String.[] = false
is_identifier (String.◌∷◌ c s) = is_lower c && (leb (count s) 127 && all_chars is_identifier_char s)

-- The body of the loop over the relations in validate_integrity.
unfoldable pub validate_relation : RelationDefinition → Result RelationalError (Unit {0})
validate_relation r = do
  raise_if (is_nil r.columns) compatibility_error
  raise_if (not (is_unique (column_ids r.columns))) compatibility_error
  raise_if (not (all is_identifier (column_ids r.columns))) compatibility_error
  raise_if (not (is_unique r.row_key)) compatibility_error
  raise_if (not (is_subset r.row_key (column_ids r.columns))) compatibility_error

-- for item in items: check(item)
unfoldable pub check_each :
    {A : Type 0}
    → (A → Result RelationalError (Unit {0}))
    → List A
    → Result RelationalError (Unit {0})
check_each check [] = ok tt
check_each check (item ∷ items) = check item >> check_each check items

-- relation_by_id.get(relation_id): the identifiers are distinct by then.
abbrev pub find_relation : String → List RelationDefinition → Option RelationDefinition
find_relation relation_id [] = none
find_relation relation_id (r ∷ rs) =
    if r.relation_id == relation_id then some r else find_relation relation_id rs

abbrev check_selected :
    ProjectionRelation → Option RelationDefinition → Result RelationalError (Unit {0})
check_selected selected none = raise compatibility_error
check_selected selected (some r) = do
  raise_if (is_nil selected.columns) compatibility_error
  raise_if (not (is_unique selected.columns)) compatibility_error
  raise_if (not (is_subset selected.columns (column_ids r.columns))) compatibility_error
  raise_if (not (is_subset r.row_key selected.columns)) compatibility_error

abbrev validate_selected :
    List RelationDefinition → ProjectionRelation → Result RelationalError (Unit {0})
validate_selected relations selected =
    check_selected selected (find_relation selected.relation_id relations)

-- The body of the loop over the projections.
unfoldable pub validate_projection :
    List RelationDefinition → ProjectionDefinition → Result RelationalError (Unit {0})
validate_projection relations p = do
  raise_if (is_nil p.relations) compatibility_error
  raise_if (not (is_unique (selected_ids p.relations))) compatibility_error
  check_each (validate_selected relations) p.relations

unfoldable pub validate_integrity : RelationalManifest → Result RelationalError (Unit {0})
validate_integrity m = do
  raise_if (is_nil m.relations) compatibility_error
  raise_if (not (is_unique (relation_ids m.relations))) compatibility_error
  raise_if (not (all is_identifier (relation_ids m.relations))) compatibility_error
  check_each validate_relation m.relations
  raise_if (not (is_unique (projection_ids m.projections))) compatibility_error
  raise_if (not (all is_identifier (projection_ids m.projections))) compatibility_error
  check_each (validate_projection m.relations) m.projections

abbrev or_unknown : {A : Type 0} → Option A → Result RelationalError A
or_unknown none = raise compatibility_error
or_unknown (some a) = ok a

abbrev pub find_projection : String → List ProjectionDefinition → Option ProjectionDefinition
find_projection projection_id [] = none
find_projection projection_id (p ∷ ps) =
    if p.projection_id == projection_id then some p else find_projection projection_id ps

-- RelationalManifest.relation
unfoldable pub relation : String → RelationalManifest → Result RelationalError RelationDefinition
relation relation_id m = or_unknown (find_relation relation_id m.relations)

-- RelationalManifest.projection
unfoldable pub projection :
    String → RelationalManifest → Result RelationalError ProjectionDefinition
projection projection_id m = or_unknown (find_projection projection_id m.projections)

abbrev each : {A : Type 0} → (A → Value) → List A → Items
each document [] = nil
each document (a ∷ rest) = cons (document a) (each document rest)

-- ColumnDefinition.as_document
unfoldable pub column_document : ColumnDefinition → Value
column_document c = obj (
    field "columnId" (string c.column_id) (
      field "nullable" (bool c.nullable)
        (field "valueType" (obj (type_document c.value_type)) end)))

-- RelationDefinition.as_document
unfoldable pub relation_document : RelationDefinition → Value
relation_document r = obj (
    field "relationId" (string r.relation_id) (
      field "columns" (arr (each column_document (sort_by (λ c. c.column_id) r.columns)))
        (field "rowKey" (arr (each string (sorted r.row_key))) end)))

-- ProjectionRelation.as_document
unfoldable pub selected_document : ProjectionRelation → Value
selected_document r = obj (
    field "relationId" (string r.relation_id)
      (field "columns" (arr (each string (sorted r.columns))) end))

-- ProjectionDefinition.as_document
unfoldable pub projection_document : ProjectionDefinition → Value
projection_document p = obj (
    field "projectionId" (string p.projection_id) (
      field "relations" (arr (each selected_document (sort_by (λ r. r.relation_id) p.relations)))
        end))

-- RelationalManifest.as_document
unfoldable pub manifest_document : RelationalManifest → Result RelationalError Fields
manifest_document m = do
  validate_integrity m
  ok (
      field "apiVersion" (string "avp.relational/v0.1") (
        field "kind" (string "RelationalStateManifest") (
          field "profile" (string "avp-relational-state-v0.1") (
            field "revision" (string "0.1") (
              field "canonicalRepresentation" (string "rfc8785-jcs") (
                field "relations"
                  (arr (each relation_document (sort_by (λ r. r.relation_id) m.relations)))
                  (field "projections"
                    (arr (each projection_document (sort_by (λ p. p.projection_id) m.projections)))
                    end)))))))

module _ (digest : Value → String) where
  -- RelationalManifest.digest
  unfoldable pub manifest_digest : RelationalManifest → Result RelationalError String
  manifest_digest m = do document ← manifest_document m; ok (digest (obj document))
