-- ===== src/Mcp/Tools.antt =====
-- mcp/gateway.py, _parse_tool: one entry of the `tools` of a server's answer.
use agent_verification_proto.Base.{
  ℕ, String, Bool, true, false, ◌||◌, Option, none, some, List, ◌==◌, if◌then◌else◌, Result, ok,
  raise, ◌>>=◌, ◌>>◌,
}
use agent_verification_proto.Base.Integers.{is_truthy_int}
use agent_verification_proto.Base.Json.{
  Value, null, bool, num, float, string, arr, obj, Items, cons, nil, Fields, field, end, get,
  or_none, as_string, as_fields,
}
use agent_verification_proto.Mcp.Values.{
  McpError, protocol_error, type_error, ToolDescriptor, new_tool, or_null,
}
use agent_verification_proto.Mcp.Schema.{validate_schema}
use agent_verification_proto.Mcp.Headers.{HeaderPath, header_paths}

abbrev is_zero_float : String → Bool
is_zero_float numeral = numeral == "0.0" || numeral == "-0.0"

-- bool(value)
abbrev is_truthy : Value → Bool
is_truthy null = false
is_truthy (bool b) = b
is_truthy (num n) = is_truthy_int n
is_truthy (float numeral) = if is_zero_float numeral then false else true
is_truthy (string String.[]) = false
is_truthy (arr nil) = false
is_truthy (obj end) = false
is_truthy _ = true

-- value or default
abbrev value_or : Value → Option Value → Value
value_or default none = default
value_or default (some v) = if is_truthy v then v else default

abbrev characters : String → Items
characters String.[] = nil
characters (String.◌∷◌ c s) = cons (string (String.◌∷◌ c String.[])) (characters s)

abbrev keys : Fields → Items
keys end = nil
keys (field key _ others) = cons (string key) (keys others)

-- tuple(value)
unfoldable pub tuple : Value → Result McpError Items
tuple (arr items) = ok items
tuple (obj fields) = ok (keys fields)
tuple (string s) = ok (characters s)
tuple _ = raise type_error

module _ (is_schema : Value → Bool) (max_schema_depth : ℕ) where
  abbrev validate_output : Option Value → Result McpError (Unit {0})
  validate_output none = ok tt
  validate_output (some schema) = validate_schema is_schema max_schema_depth schema

  abbrev describe_tool : String → Fields → Fields → Result McpError (Option ToolDescriptor)
  describe_tool name raw input_schema = do
    icons ← tuple (value_or (arr nil) (get "icons" raw))
    tool ← new_tool (record {
      name = name;
      title = or_null (get "title" raw);
      description = or_null (get "description" raw);
      icons = icons;
      input_schema = input_schema;
      output_schema = or_none (get "outputSchema" raw);
      annotations = value_or (obj end) (get "annotations" raw);
    })
    ok (some tool)

  -- `except MCPProtocolError: return None`
  abbrev unless_refused :
      Result McpError (List HeaderPath)
      → Result McpError (Option ToolDescriptor)
      → Result McpError (Option ToolDescriptor)
  unless_refused (raise protocol_error) described = ok none
  unless_refused (raise e) described = raise e
  unless_refused (ok _) described = described

  abbrev parse_named :
      Fields → Option String → Option Fields → Result McpError (Option ToolDescriptor)
  parse_named raw (some name) (some input_schema) = do
    validate_schema is_schema max_schema_depth (obj input_schema)
    validate_output (or_none (get "outputSchema" raw))
    unless_refused (header_paths input_schema) (describe_tool name raw input_schema)
  parse_named raw _ _ = raise protocol_error

  -- _parse_tool
  unfoldable pub parse_tool : Value → Result McpError (Option ToolDescriptor)
  parse_tool (obj raw) =
      parse_named raw (as_string (get "name" raw)) (as_fields (get "inputSchema" raw))
  parse_tool _ = raise protocol_error
