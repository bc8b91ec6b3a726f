-- ===== src/Relational/States.antt =====
-- relational.py: which states a Manifest admits, and their images. `canonical` is canonical_json.
use agent_verification_proto.Base.{
  String, Bool, not, ◌&&◌, Option, none, some, List, [], ◌∷◌, map, contains, Result, ok, raise,
  ◌>>=◌, ◌>>◌, raise_if,
}
use agent_verification_proto.Base.Dict.{Dict, lookup}
use agent_verification_proto.Base.Sorting.{sort_by}
use agent_verification_proto.Base.Json.{Value, obj}
use agent_verification_proto.Relational.Values.{
  RelationalError, compatibility_error, key_error, ColumnDefinition, RelationalValue, RelationalRow,
  from_mapping, key_document, State, StateImage,
}
use agent_verification_proto.Relational.Lexical.{Lexicon, validate_value}
use agent_verification_proto.Relational.Manifest.{
  RelationDefinition, RelationalManifest, column_ids, relation_ids, is_subset,
}

-- set(names) == set(others)
abbrev pub is_same_set : List String → List String → Bool
is_same_set names others = is_subset names others && is_subset others names

abbrev pub keys_of : {V : Type 0} → Dict V → List String
keys_of entries = map (λ e. e.0) entries

abbrev pub or_key_error : {V : Type 0} → Option V → Result RelationalError V
or_key_error none = raise key_error
or_key_error (some v) = ok v

-- entries[key]
abbrev pub item : {V : Type 0} → String → Dict V → Result RelationalError V
item key entries = or_key_error (lookup key entries)

module _ (lexicon : Lexicon) (canonical : Value → String) where
  unfoldable pub validate_columns :
      List ColumnDefinition → Dict RelationalValue → Result RelationalError (Unit {0})
  validate_columns [] values = ok tt
  validate_columns (column ∷ columns) values = do
    value ← item column.column_id values
    validate_value lexicon column value
    validate_columns columns values

  -- The body of the loop over the rows: the row's key, and the row bound to it.
  unfoldable pub bind_row :
      RelationDefinition
      → List String
      → RelationalRow
      → Result RelationalError (String × RelationalRow)
  bind_row r seen row = do
    raise_if (not (is_same_set (keys_of row.values) (column_ids r.columns))) compatibility_error
    validate_columns r.columns row.values
    key ← key_document (from_mapping row.values r.row_key)
    raise_if (contains (canonical (obj key)) seen) compatibility_error
    ok (canonical (obj key), from_mapping row.values r.row_key)

  unfoldable pub bind_rows :
      RelationDefinition
      → List String
      → List RelationalRow
      → Result RelationalError (Dict RelationalRow)
  bind_rows r seen [] = ok []
  bind_rows r seen (row ∷ rows) = do
    bound ← bind_row r seen row
    rest ← bind_rows r (bound.0 ∷ seen) rows
    ok (bound ∷ rest)

  -- The rows of one relation, in the order of their keys.
  unfoldable pub validate_rows :
      RelationDefinition → List RelationalRow → Result RelationalError (List RelationalRow)
  validate_rows r rows = do
    bound ← bind_rows r [] rows
    ok (map (λ b. b.1) (sort_by (λ b. b.0) bound))

  unfoldable pub validate_relations : List RelationDefinition → State → Result RelationalError State
  validate_relations [] state = ok []
  validate_relations (r ∷ rs) state = do
    rows ← item r.relation_id state
    validated ← validate_rows r rows
    rest ← validate_relations rs state
    ok ((r.relation_id, validated) ∷ rest)

  -- _validate_state_for_manifest
  unfoldable pub validate_state : RelationalManifest → State → Result RelationalError State
  validate_state m state = do
    raise_if (not (is_same_set (keys_of state) (relation_ids m.relations))) compatibility_error
    validate_relations m.relations state

unfoldable pub image_relations : List RelationDefinition → State → Result RelationalError State
image_relations [] state = ok []
image_relations (r ∷ rs) state = do
  rows ← item r.relation_id state
  rest ← image_relations rs state
  ok ((r.relation_id, rows) ∷ rest)

-- _state_image_for
unfoldable pub state_image_for :
    String → RelationalManifest → State → Result RelationalError StateImage
state_image_for manifest_digest m state = do
  relations ← image_relations (sort_by (λ r. r.relation_id) m.relations) state
  ok (record { manifest_digest = manifest_digest; relations = relations })
