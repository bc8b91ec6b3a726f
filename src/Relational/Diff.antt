-- ===== src/Relational/Diff.antt =====
-- relational.py, InMemoryRelationalResource.diff: what changed between two images of a state.
pub mod Completeness
pub mod Equality
pub mod Rows
use Prim.Native.String.{compare}
use agent_verification_proto.Base.{
  ℕ, String, Bool, true, false, not, ◌||◌, ◌&&◌, Option, none, some, List, [], ◌∷◌, ◌++◌, ◌==◌, map,
  if◌then◌else◌, Result, ok, raise, ◌>>=◌, ◌>>◌, raise_if,
}
use agent_verification_proto.Base.Dict.{Dict, lookup, insert}
use agent_verification_proto.Base.Sets.{sorted_set}
use agent_verification_proto.Base.Sorting.{sort_by}
use agent_verification_proto.Base.Json.{Value, obj}
use agent_verification_proto.Relational.Values.{
  RelationalError, compatibility_error, RawValue, absent, truth, chars, RelationalValue, type_value,
  RelationalRow, same_values, sorted, pick_columns, document_of, State, StateImage, image_digest,
}
use agent_verification_proto.Relational.Manifest.{
  RelationDefinition, RelationalManifest, relation_ids,
}
use agent_verification_proto.Relational.States.{is_same_set, keys_of, item}
use agent_verification_proto.Relational.Resource.{RelationalResource, ensure_live}

pub record DiffChange : Type 0 where
  pub relation_id : String
  pub change : String
  pub key : Dict RelationalValue
  pub before : Option (Dict RelationalValue)
  pub after : Option (Dict RelationalValue)

-- The scope is the full Manifest.
pub record RelationalDiff : Type 0 where
  pub manifest_digest : String
  pub before_digest : String
  pub after_digest : String
  pub changes : List DiffChange

abbrev is_absent_value : RawValue → Bool
is_absent_value absent = true
is_absent_value _ = false

-- The images are not both of this Manifest.
abbrev pub is_foreign : StateImage → StateImage → RelationalResource → Bool
is_foreign before after r =
    not (before.manifest_digest == r.manifest_digest)
    || not (after.manifest_digest == r.manifest_digest)

-- The images do not both cover the relations of the Manifest.
abbrev pub is_partial : StateImage → StateImage → RelationalResource → Bool
is_partial before after r =
    not (is_same_set (keys_of before.relations) (relation_ids r.manifest.relations))
    || not (is_same_set (keys_of after.relations) (relation_ids r.manifest.relations))

-- The typed key of a row
abbrev pub key_of :
    RelationDefinition → RelationalRow → Result RelationalError (Dict RelationalValue)
key_of r row = pick_columns (sorted r.row_key) row.values

-- _row_key_document: no part of a key is null.
unfoldable pub pick_key :
    List String → Dict RelationalValue → Result RelationalError (Dict RelationalValue)
pick_key [] values = ok []
pick_key (column ∷ columns) values = do
  value ← item column values
  raise_if (is_absent_value value.value) compatibility_error
  rest ← pick_key columns values
  ok ((column, value) ∷ rest)

abbrev pub changed :
    RelationDefinition
    → String
    → Dict RelationalValue
    → Option (Dict RelationalValue)
    → Option (Dict RelationalValue)
    → DiffChange
changed r change key before after = record {
  relation_id = r.relation_id;
  change = change;
  key = key;
  before = before;
  after = after;
}

-- The change of one key
abbrev pub row_change :
    RelationDefinition
    → Option RelationalRow
    → Option RelationalRow
    → Result RelationalError (List DiffChange)
row_change r none none = ok []
row_change r none (some new) = do
  key ← key_of r new
  ok (changed r "INSERT" key none (some new.values) ∷ [])
row_change r (some old) none = do
  key ← key_of r old
  ok (changed r "DELETE" key (some old.values) none ∷ [])
row_change r (some old) (some new) = do
  key ← key_of r old
  ok (
      if same_values old.values new.values
      then []
      else changed r "UPDATE" key (some old.values) (some new.values) ∷ [])

unfoldable pub key_changes :
    RelationDefinition
    → List String
    → Dict RelationalRow
    → Dict RelationalRow
    → Result RelationalError (List DiffChange)
key_changes r [] old_rows new_rows = ok []
key_changes r (key ∷ keys) old_rows new_rows = do
  here ← row_change r (lookup key old_rows) (lookup key new_rows)
  rest ← key_changes r keys old_rows new_rows
  ok (here ++ rest)

module _ (canonical : Value → String) where
  -- _row_key_bytes
  unfoldable pub row_key_bytes : RelationDefinition → RelationalRow → Result RelationalError String
  row_key_bytes r row = do
    key ← pick_key (sorted r.row_key) row.values
    ok (canonical (obj (document_of key)))

  -- {self._row_key_bytes(relation, row): row for row in rows}, over what is there already.
  unfoldable pub rows_by_key :
      RelationDefinition
      → List RelationalRow
      → Dict RelationalRow
      → Result RelationalError (Dict RelationalRow)
  rows_by_key r [] table = ok table
  rows_by_key r (row ∷ rows) table = do
    key ← row_key_bytes r row
    rows_by_key r rows (insert key row table)

  -- The rows of a relation by their keys
  abbrev pub table : RelationDefinition → State → Result RelationalError (Dict RelationalRow)
  table r state = do rows ← item r.relation_id state; rows_by_key r rows []

  -- The changes of one relation, in the order of the keys.
  unfoldable pub relation_changes :
      RelationDefinition → State → State → Result RelationalError (List DiffChange)
  relation_changes r before after = do
    old_rows ← table r before
    new_rows ← table r after
    key_changes r (sorted_set (keys_of old_rows ++ keys_of new_rows)) old_rows new_rows

  unfoldable pub all_changes :
      List RelationDefinition → State → State → Result RelationalError (List DiffChange)
  all_changes [] before after = ok []
  all_changes (r ∷ rs) before after = do
    here ← relation_changes r before after
    rest ← all_changes rs before after
    ok (here ++ rest)

  module _ (digest : Value → String) where
    unfoldable pub diff :
        StateImage → StateImage → RelationalResource → Result RelationalError RelationalDiff
    diff before after r = do
      ensure_live r
      raise_if (is_foreign before after r) compatibility_error
      raise_if (is_partial before after r) compatibility_error
      changes ←
          all_changes (sort_by (λ d. d.relation_id) r.manifest.relations) before.relations
            after.relations
      before_digest ← image_digest digest before
      after_digest ← image_digest digest after
      ok (record {
        manifest_digest = r.manifest_digest;
        before_digest = before_digest;
        after_digest = after_digest;
        changes = changes;
      })
