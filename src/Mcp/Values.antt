-- ===== src/Mcp/Values.antt =====
-- mcp/models.py and mcp/errors.py: the values of the gateway. `digest` is the SHA-256 of canonical
-- JSON, which raises on a text that UTF-8 cannot encode. `_freeze` and `_thaw` change the Python types of containers only.
use agent_verification_proto.Base.{
  ℕ, String, Bool, true, false, not, ◌||◌, ◌&&◌, Option, none, some, List, [], ◌∷◌, ltb, ◌==◌, map,
  is_some, is_none, is_unique, if◌then◌else◌, Result, ok, ◌>>◌, raise_if,
}
use agent_verification_proto.Base.Sorting.{is_after}
use agent_verification_proto.Base.Text.{is_empty}
use agent_verification_proto.Base.Json.{
  Value, null, string, arr, obj, Items, cons, nil, Fields, field, end,
}

-- MCPUpstreamError, MCPTransportError, MCPProtocolError, MCPPermissionDenied, MCPSchemaDriftError; the
-- ValueError of a constructor, Python's TypeError, the UnicodeEncodeError of a digest, and what the
-- validator of jsonschema raises beside ValidationError.
pub data McpError : Type 0 where
  upstream_error transport_error protocol_error permission_denied schema_drift_error : McpError
  value_error type_error encoding_error validator_error : McpError

pub record GatewayPolicy : Type 0 where
  pub allowed_tools : List String
  pub detect_schema_drift : Bool
  pub max_catalog_tools : ℕ
  pub max_catalog_pages : ℕ
  pub max_schema_depth : ℕ

-- MCPGatewayPolicy.__post_init__
unfoldable pub new_policy : List String → Bool → ℕ → ℕ → ℕ → Result McpError GatewayPolicy
new_policy allowed_tools detect tools pages depth = do
  raise_if (ltb tools 1 || (ltb pages 1 || ltb depth 1)) value_error
  ok (record {
    allowed_tools = allowed_tools;
    detect_schema_drift = detect;
    max_catalog_tools = tools;
    max_catalog_pages = pages;
    max_schema_depth = depth;
  })

pub record ServerDescription : Type 0 where
  pub supported_versions : List String
  pub server_name : String
  pub server_version : String
  pub capabilities : Fields

-- MCPServerDescription.__post_init__
unfoldable pub new_server_description :
    List String → String → String → Fields → Result McpError ServerDescription
new_server_description versions name version capabilities = do
  raise_if (is_empty name || is_empty version) value_error
  ok (record {
    supported_versions = versions;
    server_name = name;
    server_version = version;
    capabilities = capabilities;
  })

abbrev pub strings : List String → Items
strings [] = nil
strings (x ∷ xs) = cons (string x) (strings xs)

-- MCPServerDescription.to_dict
unfoldable pub server_dict : ServerDescription → Fields
server_dict s = field "supported_versions" (arr (strings s.supported_versions)) (
    field "server_name" (string s.server_name) (
      field "server_version" (string s.server_version)
        (field "capabilities" (obj s.capabilities) end)))

pub record ToolDescriptor : Type 0 where
  pub name : String
  pub title : Value
  pub description : Value
  pub icons : Items
  pub input_schema : Fields
  pub output_schema : Option Value
  pub annotations : Value

-- MCPToolDescriptor.__post_init__
unfoldable pub new_tool : ToolDescriptor → Result McpError ToolDescriptor
new_tool tool = do raise_if (is_empty tool.name) value_error; ok tool

abbrev pub or_null : Option Value → Value
or_null none = null
or_null (some v) = v

abbrev output_field : Option Value → Fields
output_field none = end
output_field (some schema) = field "outputSchema" schema end

-- MCPToolDescriptor.to_dict
unfoldable pub tool_dict : ToolDescriptor → Fields
tool_dict t = field "name" (string t.name) (
    field "title" t.title (
      field "description" t.description (
        field "icons" (arr t.icons) (
          field "inputSchema" (obj t.input_schema)
            (field "annotations" t.annotations (output_field t.output_schema))))))

abbrev tool_dicts : List ToolDescriptor → Items
tool_dicts [] = nil
tool_dicts (t ∷ ts) = cons (obj (tool_dict t)) (tool_dicts ts)

pub record ToolCatalog : Type 0 where
  pub tools : List ToolDescriptor
  pub page_digests : List String
  pub cache_scope : String
  pub min_ttl_ms : ℕ

-- One step of `sorted(tools, key=lambda item: item.name)`, which keeps the order of equal names.
unfoldable pub insert_tool : ToolDescriptor → List ToolDescriptor → List ToolDescriptor
insert_tool t [] = t ∷ []
insert_tool t (u ∷ us) =
    let rest = insert_tool t us in if is_after t.name u.name then u ∷ rest else t ∷ u ∷ us

unfoldable pub sort_tools : List ToolDescriptor → List ToolDescriptor
sort_tools [] = []
sort_tools (t ∷ ts) = insert_tool t (sort_tools ts)

abbrev pub tool_names : List ToolDescriptor → List String
tool_names tools = map (λ t. t.name) tools

-- MCPToolCatalog.__post_init__
unfoldable pub new_catalog :
    List ToolDescriptor → List String → String → ℕ → Result McpError ToolCatalog
new_catalog tools pages scope ttl = do
  raise_if (not (is_unique (tool_names (sort_tools tools)))) value_error
  raise_if (not (scope == "public" || scope == "private")) value_error
  ok (record {
    tools = sort_tools tools;
    page_digests = pages;
    cache_scope = scope;
    min_ttl_ms = ttl;
  })

-- MCPToolCatalog.by_name().get(name): the names of a catalog are unique.
abbrev pub find_tool : String → List ToolDescriptor → Option ToolDescriptor
find_tool name [] = none
find_tool name (t ∷ ts) = if t.name == name then some t else find_tool name ts

pub record GatewayDescription : Type 0 where
  pub gateway_name : String
  pub gateway_version : String
  pub protocol_version : String
  pub upstream_url_digest : String
  pub server_digest : String
  pub baseline_catalog_digest : String
  pub allowed_tools : List String

pub data CallOutcome : Type 0 where
  success tool_error upstream_failure : CallOutcome

-- `outcome is MCPCallOutcome.UPSTREAM_ERROR`
abbrev is_upstream_failure : CallOutcome → Bool
is_upstream_failure upstream_failure = true
is_upstream_failure _ = false

pub record CallRecord : Type 0 where
  pub correlation_id : String
  pub tool_name : String
  pub arguments_digest : String
  pub result_digest : Option String
  pub schema_digest : String
  pub catalog_digest : String
  pub outcome : CallOutcome

-- MCPCallRecord.__post_init__
unfoldable pub new_call_record : CallRecord → Result McpError CallRecord
new_call_record r = do
  raise_if (is_empty r.correlation_id || is_empty r.tool_name) value_error
  raise_if (is_upstream_failure r.outcome && is_some r.result_digest) value_error
  raise_if (not (is_upstream_failure r.outcome) && is_none r.result_digest) value_error
  ok r

module _ (digest : Value → Result McpError String) where
  -- MCPServerDescription.identity_digest
  abbrev pub server_identity : ServerDescription → Result McpError String
  server_identity server = digest (obj (server_dict server))

  -- MCPToolDescriptor.schema_digest
  unfoldable pub schema_digest : ToolDescriptor → Result McpError String
  schema_digest tool = digest (
      obj (
        field "inputSchema" (obj tool.input_schema)
          (field "outputSchema" (or_null tool.output_schema) end)))

  -- MCPToolCatalog.catalog_digest
  unfoldable pub catalog_digest : ToolCatalog → Result McpError String
  catalog_digest catalog = digest (obj (field "tools" (arr (tool_dicts catalog.tools)) end))
