-- ===== src/Mcp/Schema/Depth.antt =====
-- The depth check of a schema against the nesting of the value.
use agent_verification_proto.Base.{
  ℕ, suc, ◌+◌, Bool, ◌&&◌, ◌≡◌, refl, ltb, leb, if◌then◌else◌, Result, ok, raise, ◌>>◌, is_ok,
  arith,
}
use agent_verification_proto.Base.Json.{
  Value, null, bool, num, float, string, arr, obj, Items, cons, nil, Fields, field, end,
}
use agent_verification_proto.Mcp.Values.{McpError}
use agent_verification_proto.Mcp.Schema.{
  validate_schema_depth, validate_items_depth, validate_fields_depth,
}

abbrev max : ℕ → ℕ → ℕ
max a b = if ltb a b then b else a

-- How deep the containers of a value are nested.
unfoldable mutual
  pub nesting : Value → ℕ
  nesting (arr items) = nesting_items items
  nesting (obj fields) = nesting_fields fields
  nesting _ = 0

  pub nesting_items : Items → ℕ
  nesting_items nil = 0
  nesting_items (cons item items) = max (suc (nesting item)) (nesting_items items)

  pub nesting_fields : Fields → ℕ
  nesting_fields end = 0
  nesting_fields (field key item fields) = max (suc (nesting item)) (nesting_fields fields)

is_ok-then : (m k : Result McpError (Unit {0})) → is_ok (m >> k) ≡ (is_ok m && is_ok k)
is_ok-then (ok _) k = refl
is_ok-then (raise e) k = refl

-- One more container: its own nesting `n` beside that of the ones behind it.
deepest :
    (here behind : Bool) (limit depth n others : ℕ)
    → here ≡ leb (depth + 1 + n) limit
    → (leb depth limit && behind) ≡ leb (depth + others) limit
    → (leb depth limit && (here && behind)) ≡ leb (depth + max (suc n) others) limit
deepest here behind limit depth n others p q = ground arith

mutual
  unfolding validate_schema_depth nesting

  depth_lem :
      (limit depth : ℕ) (v : Value)
      → is_ok (validate_schema_depth limit depth v) ≡ leb (depth + nesting v) limit
  depth_lem limit depth null = ground arith
  depth_lem limit depth (bool b) = ground arith
  depth_lem limit depth (num n) = ground arith
  depth_lem limit depth (float numeral) = ground arith
  depth_lem limit depth (string s) = ground arith
  depth_lem limit depth (arr items) = ground (arith, items_depth_lem limit depth items)
  depth_lem limit depth (obj fields) = ground (arith, fields_depth_lem limit depth fields)

  items_depth_lem :
      (limit depth : ℕ) (items : Items)
      → (leb depth limit && is_ok (validate_items_depth limit (depth + 1) items))
        ≡ leb (depth + nesting_items items) limit
  items_depth_lem limit depth nil = ground arith
  items_depth_lem limit depth (cons item items) =
      rw
        (is_ok-then (validate_schema_depth limit (depth + 1) item)
          (validate_items_depth limit (depth + 1) items))
        (deepest (is_ok (validate_schema_depth limit (depth + 1) item))
          (is_ok (validate_items_depth limit (depth + 1) items)) limit depth (nesting item)
          (nesting_items items) (depth_lem limit (depth + 1) item)
          (items_depth_lem limit depth items))

  fields_depth_lem :
      (limit depth : ℕ) (fields : Fields)
      → (leb depth limit && is_ok (validate_fields_depth limit (depth + 1) fields))
        ≡ leb (depth + nesting_fields fields) limit
  fields_depth_lem limit depth end = ground arith
  fields_depth_lem limit depth (field key item fields) =
      rw
        (is_ok-then (validate_schema_depth limit (depth + 1) item)
          (validate_fields_depth limit (depth + 1) fields))
        (deepest (is_ok (validate_schema_depth limit (depth + 1) item))
          (is_ok (validate_fields_depth limit (depth + 1) fields)) limit depth (nesting item)
          (nesting_fields fields) (depth_lem limit (depth + 1) item)
          (fields_depth_lem limit depth fields))

-- The depth check passes exactly when the containers of the schema are nested no deeper than the
-- limit.
pub is_ok-validate_schema_depth :
    (limit : ℕ) (schema : Value)
    → is_ok (validate_schema_depth limit 0 schema) ≡ leb (nesting schema) limit
is_ok-validate_schema_depth limit schema = ground (arith, depth_lem limit 0 schema)
