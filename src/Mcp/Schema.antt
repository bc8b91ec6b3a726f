-- ===== src/Mcp/Schema.antt =====
-- mcp/gateway.py: what the gateway requires of a JSON Schema. The validator of jsonschema is a
-- parameter: `is_schema` for check_schema, and `conforms` for validate, which may also raise something
-- else than ValidationError.
pub mod Depth
use agent_verification_proto.Base.{
  ℕ, ◌+◌, String, Bool, true, false, not, ◌&&◌, Option, none, some, ltb, ◌==◌, is_some, Result, ok,
  raise, ◌>>=◌, ◌>>◌, raise_if,
}
use agent_verification_proto.Base.Text.{strip_prefix}
use agent_verification_proto.Base.Json.{
  Value, null, bool, num, float, string, arr, obj, Items, cons, nil, Fields, field, end, get,
  as_string,
}
use agent_verification_proto.Mcp.Values.{McpError, protocol_error}

-- _validate_schema_depth: a value at `depth` beneath the root.
unfoldable mutual
  pub validate_schema_depth : ℕ → ℕ → Value → Result McpError (Unit {0})
  validate_schema_depth limit depth (arr items) =
      raise_if (ltb limit depth) protocol_error >> validate_items_depth limit (depth + 1) items
  validate_schema_depth limit depth (obj fields) =
      raise_if (ltb limit depth) protocol_error >> validate_fields_depth limit (depth + 1) fields
  validate_schema_depth limit depth _ = raise_if (ltb limit depth) protocol_error

  pub validate_items_depth : ℕ → ℕ → Items → Result McpError (Unit {0})
  validate_items_depth limit depth nil = ok tt
  validate_items_depth limit depth (cons item items) =
      validate_schema_depth limit depth item >> validate_items_depth limit depth items

  pub validate_fields_depth : ℕ → ℕ → Fields → Result McpError (Unit {0})
  validate_fields_depth limit depth end = ok tt
  validate_fields_depth limit depth (field key item fields) =
      validate_schema_depth limit depth item >> validate_fields_depth limit depth fields

-- The test on `value.get("$ref")`.
abbrev pub is_external : Option String → Bool
is_external none = false
is_external (some ref) = not (is_some (strip_prefix "#" ref))

-- _reject_external_refs
unfoldable mutual
  pub reject_external_refs : Value → Result McpError (Unit {0})
  reject_external_refs (arr items) = reject_items_refs items
  reject_external_refs (obj fields) =
      raise_if (is_external (as_string (get "$ref" fields))) protocol_error
      >> reject_fields_refs fields
  reject_external_refs _ = ok tt

  pub reject_items_refs : Items → Result McpError (Unit {0})
  reject_items_refs nil = ok tt
  reject_items_refs (cons item items) = reject_external_refs item >> reject_items_refs items

  pub reject_fields_refs : Fields → Result McpError (Unit {0})
  reject_fields_refs end = ok tt
  reject_fields_refs (field key item fields) =
      reject_external_refs item >> reject_fields_refs fields

module _ (is_schema : Value → Bool) where
  -- _validate_schema
  unfoldable pub validate_schema : ℕ → Value → Result McpError (Unit {0})
  validate_schema limit schema = do
    validate_schema_depth limit 0 schema
    reject_external_refs schema
    raise_if (not (is_schema schema)) protocol_error

module _ (conforms : Value → Value → Result McpError Bool) where
  -- _validate_instance
  abbrev pub validate_instance : Value → Value → Result McpError (Unit {0})
  validate_instance value schema = do
    fits ← conforms schema value
    raise_if (not fits) protocol_error
