-- ===== src/Tests/Tables.antt =====
-- Runs of a relational resource with one relation of accounts.
use agent_verification_proto.Tests.Printing.{print}
use agent_verification_proto.Base.{
  String, true, false, none, some, [], ◌∷◌, ◌≡◌, refl, All, ok, raise,
}
use agent_verification_proto.Base.Text.{◌<>◌, str}
use agent_verification_proto.Base.Dict.{lookup, insert}
use agent_verification_proto.Base.Sets.{sorted_set, insert_sorted}
use agent_verification_proto.Base.Sorting.{sort_by, insert_by}
use agent_verification_proto.Relational.Values.{
  compatibility_error, text, decimal, ColumnType, ColumnDefinition, chars, RelationalValue,
  RelationalRow, same_values, from_mapping, pick_columns, value_document, key_document, State,
  StateImage, image_document, image_digest, RelationalSnapshot,
}
use agent_verification_proto.Relational.Lexical.{
  Lexicon, validate_value, validate_text, validate_decimal,
}
use agent_verification_proto.Relational.Lexical.Decimals.{validate_decimal-negative_fraction}
use agent_verification_proto.Relational.Manifest.{RelationDefinition, RelationalManifest}
use agent_verification_proto.Relational.States.{
  validate_columns, bind_row, bind_rows, validate_rows, validate_relations, validate_state,
  image_relations, state_image_for,
}
use agent_verification_proto.Relational.Resource.{
  RelationalResource, state_equivalent, ensure_live, final_projection, state_image, snapshot,
  restore, subject_view, view_rows, view_relations, selected_columns, settlement_complete,
  begin_subject_mutation, settle_subject_mutation, own, nth_pending, enter_quiescing,
}
use agent_verification_proto.Relational.Resource.Uses.{
  mutating, settling, entering, snapshotting, binding, resetting, step, run, final_projection-run,
  IsReleased, IsDead, run_released,
}
use agent_verification_proto.Relational.Resource.Visibility.{
  IsWithin, IsVisible, subject_view-IsWithin,
}
use agent_verification_proto.Relational.Resource.Roundtrip.{IsValid, relational_restore-snapshot}
use agent_verification_proto.Relational.Diff.{
  RelationalDiff, key_changes, row_key_bytes, pick_key, rows_by_key, relation_changes, all_changes,
  diff,
}
use agent_verification_proto.Relational.Diff.Rows.{HasSameRows, IsKeyed, diff-nil}

abbrev lexicon : Lexicon
lexicon = record {
  year_of = λ raw. some 2024;
  is_time = λ raw. true;
  is_instant = λ raw. true;
  recode = λ raw. some raw;
  is_encodable = λ raw. true;
}

abbrev text_type : ColumnType
text_type = record { kind = text; precision = none; scale = none; fractional_precision = none }

abbrev column : String → ColumnDefinition
column name = record { column_id = name; value_type = text_type; nullable = false }

abbrev accounts : RelationDefinition
accounts = record {
  relation_id = "accounts";
  columns = column "id" ∷ column "owner" ∷ [];
  row_key = "id" ∷ [];
}

abbrev manifest : RelationalManifest
manifest = record {
  relations = accounts ∷ [];
  projections =
      record {
        projection_id = "ledger";
        relations = record { relation_id = "accounts"; columns = "id" ∷ [] } ∷ [];
      }
      ∷ [];
}

abbrev word : String → RelationalValue
word s = record { kind = text; value = chars s }

abbrev account : String → String → RelationalRow
account id owner = record {
  values = ("id", word id) ∷ ("owner", word owner) ∷ [];
  key_columns = "id" ∷ [];
}

abbrev two_accounts : State
two_accounts = ("accounts", account "a1" "kim" ∷ account "a2" "lee" ∷ []) ∷ []

abbrev no_accounts : State
no_accounts = ("accounts", []) ∷ []

abbrev holding : State → RelationalResource
holding state = record {
  environment_id = "env";
  resource_id = "db";
  resource_instance_id = "db-1";
  manifest = manifest;
  manifest_digest = "m";
  execution_input_identity = "x";
  bound_execution_identity = "x";
  private_columns = ("accounts", "owner") ∷ [];
  logical_binding_valid = true;
  quiescing = false;
  released = false;
  pending = [];
  baseline = no_accounts;
  baseline_digest = "b";
  state = state;
  snapshot_sequence = 0;
}

abbrev image : StateImage
image = record { manifest_digest = "m"; relations = two_accounts }

abbrev taken : RelationalSnapshot
taken = record {
  snapshot_id = "relational-snapshot-1";
  environment_id = "env";
  resource_id = "db";
  resource_instance_id = "db-1";
  state = image;
}

valid : IsValid lexicon print print manifest two_accounts
unfolding validate_state validate_relations validate_rows bind_rows bind_row validate_columns
    validate_value validate_text from_mapping key_document pick_columns sort_by insert_by lookup
    print value_document
valid = refl

relational_restore-snapshot_example :
    restore lexicon print (λ value. "d") taken (holding no_accounts)
    ≡ (ok state_equivalent, holding two_accounts)
unfolding snapshot state_image state_image_for image_relations image_digest image_document
    ensure_live sort_by insert_by lookup key_document pick_columns str
relational_restore-snapshot_example =
    relational_restore-snapshot lexicon print (λ value. "d") (holding two_accounts)
      (holding no_accounts) taken "d" valid refl refl (refl, refl, refl, refl, refl) refl

abbrev quiet : RelationalResource
quiet = record (holding two_accounts) { quiescing = true }

final_projection-run_example :
    final_projection "ledger" (
      run lexicon print print
        (snapshotting ∷ mutating "accounts" [] ∷ settling (own 0) true ∷ entering ∷ [])
        quiet)
    ≡ final_projection "ledger" quiet
unfolding run step snapshot state_image state_image_for image_relations ensure_live
    begin_subject_mutation settle_subject_mutation nth_pending enter_quiescing settlement_complete
    sort_by insert_by lookup
final_projection-run_example =
    final_projection-run lexicon print print "ledger"
      (snapshotting ∷ mutating "accounts" [] ∷ settling (own 0) true ∷ entering ∷ []) quiet refl
      refl refl refl refl

abbrev gone : RelationalResource
gone = record (holding two_accounts) { released = true }

run_released_example :
    IsReleased lexicon print print gone
      (run lexicon print print (resetting ∷ binding true ∷ []) gone)
    × IsDead lexicon print print (run lexicon print print (resetting ∷ binding true ∷ []) gone)
run_released_example = run_released lexicon print print (resetting ∷ binding true ∷ []) gone refl

abbrev shown : String → RelationalRow
shown id = record { values = ("id", word id) ∷ []; key_columns = [] }

abbrev view : State
view = ("accounts", shown "a1" ∷ shown "a2" ∷ []) ∷ []

subject_view-IsWithin_example :
    IsWithin (IsVisible (("accounts", "id") ∷ []) (("accounts", "owner") ∷ [])) view
unfolding subject_view view_relations view_rows selected_columns ensure_live pick_columns
    from_mapping sort_by insert_by lookup
subject_view-IsWithin_example =
    subject_view-IsWithin (("accounts", "id") ∷ []) (holding two_accounts) view refl

abbrev unchanged : RelationalDiff
unchanged = record { manifest_digest = "m"; before_digest = "d"; after_digest = "d"; changes = [] }

keyed : All (IsKeyed print two_accounts) (accounts ∷ [])
unfolding row_key_bytes pick_key key_document pick_columns sort_by insert_by lookup print
    value_document
keyed = (refl, tt)

diff-nil_example : All (HasSameRows two_accounts two_accounts) (accounts ∷ [])
unfolding diff all_changes relation_changes rows_by_key row_key_bytes pick_key key_changes
    same_values image_digest image_document ensure_live key_document pick_columns sort_by insert_by
    sorted_set insert_sorted lookup insert print value_document
diff-nil_example =
    diff-nil print (λ value. "d") image image (holding two_accounts) unchanged keyed keyed refl refl

abbrev amount : ColumnDefinition
amount = record {
  column_id = "amount";
  value_type = record {
    kind = decimal;
    precision = some 5;
    scale = some 2;
    fractional_precision = none;
  };
  nullable = false;
}

validate_decimal-negative_fraction_example :
    validate_decimal amount ("-" <> "0.50") ≡ raise compatibility_error
validate_decimal-negative_fraction_example = validate_decimal-negative_fraction amount "0.50" refl
