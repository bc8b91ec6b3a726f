-- ===== src/Tests/Gateway.antt =====
-- Runs of the MCP gateway against a server with two tools on two pages.
use text.Mathlib.TextLemmas.{append_cancel_left}
use agent_verification_proto.Tests.Printing.{print}
use agent_verification_proto.Base.{
  ℕ, ◌+◌, String, Bool, true, false, Option, none, some, [], ◌∷◌, ◌≡◌, refl, leb, ◌≤◌, is_some, All,
  arith, ◌==◌, length, if◌then◌else◌, Result, ok, raise, is_ok,
}
use agent_verification_proto.Base.Text.{◌<>◌, lower}
use agent_verification_proto.Base.Dict.{insert}
use agent_verification_proto.Base.Integers.{ℤ, pos}
use agent_verification_proto.Base.Json.{
  Value, null, num, string, arr, obj, Items, cons, nil, Fields, field, end, get,
}
use agent_verification_proto.Mcp.Values.{
  McpError, upstream_error, type_error, encoding_error, server_dict, new_server_description,
  GatewayPolicy, ToolDescriptor, ToolCatalog, new_catalog, new_tool, insert_tool, sort_tools,
  new_call_record, schema_digest, catalog_digest,
}
use agent_verification_proto.Mcp.Schema.{
  validate_schema_depth, reject_external_refs, validate_schema,
}
use agent_verification_proto.Mcp.Headers.{
  header_paths, extract_mcp_headers, annotation, check_kind, is_token_rest, reject_unreachable,
  header_paths_in, add_headers, value_at, serialize,
}
use agent_verification_proto.Mcp.Encoding.{encode_mcp_header_value, ends_with, ends_blank}
use agent_verification_proto.Mcp.Tools.{parse_tool, tuple}
use agent_verification_proto.Mcp.Catalog.{
  Request, Transport, list_tools, list_pages, read_page, next_turn, add_tools,
}
use agent_verification_proto.Mcp.Server.{parse_server}
use agent_verification_proto.Mcp.Calls.{
  Call, ReadyCall, call_request, add_trace_headers, normalize_call_result, outcome_of,
}
use agent_verification_proto.Mcp.Gateway.{
  Gateway, owns_tool, find_baseline, open_gateway, describe, call_tool, ready_call, prepare,
  check_drift, settle, accept_result, check_structured,
}
use agent_verification_proto.Mcp.Schema.Depth.{nesting, is_ok-validate_schema_depth}
use agent_verification_proto.Mcp.Catalog.Pages.{logged, IsListing, list_tools_bounded}
use agent_verification_proto.Mcp.Catalog.Admission.{IsCatalog, list_tools-IsCatalog}
use agent_verification_proto.Mcp.Encoding.Injective.{encode_mcp_header_value-injective}
use agent_verification_proto.Mcp.Gateway.Recording.{settled, settle-settled}
use agent_verification_proto.Mcp.Gateway.Guarding.{IsGuarded, call_tool-IsGuarded}
use agent_verification_proto.Mcp.Gateway.Opening.{IsOpened, open_gateway-IsOpened}
use agent_verification_proto.Mcp.Gateway.Logs.{IsSound}
use agent_verification_proto.Mcp.Gateway.Sessions.{opening, calling, refreshing, run, run-IsSound}

abbrev is_object : Value → Bool
is_object (obj _) = true
is_object _ = false

-- Every object conforms.
abbrev accepts : Value → Value → Result McpError Bool
accepts schema value = ok (is_object value)

abbrev no_floats : String → Option ℤ
no_floats numeral = none

abbrev quoted : String → String
quoted s = "q" <> s

abbrev city_schema : Fields
city_schema = field "type" (string "object") (
    field "properties"
      (obj (
        field "city"
          (obj (field "type" (string "string") (field "x-mcp-header" (string "City") end))) end))
      end)

abbrev tool_entry : String → Value
tool_entry name = obj (field "name" (string name) (field "inputSchema" (obj city_schema) end))

abbrev page : Items → Fields → Fields
page tools rest =
    field "tools" (arr tools)
      (field "ttlMs" (num (pos 60)) (field "cacheScope" (string "public") rest))

-- The server: its state counts the requests.
abbrev answer : Request → Result McpError Fields
answer q =
    if q.method == "server/discover"
    then ok (
        field "supportedVersions" (arr (cons (string "2026-07-28") nil)) (
          field "capabilities" (obj (field "tools" (obj end) end)) (
            field "serverInfo"
              (obj (field "name" (string "weather") (field "version" (string "1") end))) end)))
    else if q.method == "tools/list"
    then (if is_some (get "cursor" q.params)
        then ok (page (cons (tool_entry "alerts") nil) end)
        else ok (page (cons (tool_entry "forecast") nil) (field "nextCursor" (string "2") end)))
    else ok (field "content" (string "sunny") end)

abbrev server : Transport ℕ
server q n = (answer q, n + 1)

abbrev policy : GatewayPolicy
policy = record {
  allowed_tools = "forecast" ∷ [];
  detect_schema_drift = true;
  max_catalog_tools = 4;
  max_catalog_pages = 3;
  max_schema_depth = 8;
}

abbrev closed : Gateway
closed = record {
  policy = policy;
  endpoint_identity = "https://weather.example";
  server = none;
  catalog = none;
  records = [];
}

abbrev always : Value → Bool
always schema = true

abbrev paris : Call
paris = record {
  name = "forecast";
  arguments = field "city" (string "Paris") end;
  correlation_id = none;
  trace_headers = ("traceparent", "00-1") ∷ [];
  fresh = "00ff";
  lower_name = lower;
}

-- A digest that is its value's text
abbrev printed : Value → Result McpError String
printed value = ok (print value)

abbrev tool : String → ToolDescriptor
tool name = record {
  name = name;
  title = null;
  description = null;
  icons = nil;
  input_schema = city_schema;
  output_schema = none;
  annotations = obj end;
}

abbrev both : ToolCatalog
both = record {
  tools = tool "alerts" ∷ tool "forecast" ∷ [];
  page_digests = "p" ∷ "p" ∷ [];
  cache_scope = "public";
  min_ttl_ms = 60;
}

abbrev one_digest : Value → Result McpError String
one_digest value = ok "p"

listing : (list_tools one_digest always policy server 0).0 ≡ ok both
unfolding list_tools list_pages read_page next_turn add_tools parse_tool new_tool tuple new_catalog
    sort_tools insert_tool validate_schema validate_schema_depth reject_external_refs header_paths
    annotation check_kind is_token_rest lower get reject_unreachable header_paths_in
listing = refl

list_tools-IsCatalog_example : IsCatalog one_digest always policy both
list_tools-IsCatalog_example = list_tools-IsCatalog one_digest always policy server 0 both listing

list_tools_bounded_example :
    (length (list_tools printed always policy (logged server) ([], 0)).1.0 ≤ 3)
    × All IsListing (list_tools printed always policy (logged server) ([], 0)).1.0
list_tools_bounded_example = list_tools_bounded printed always policy server 0

is_ok-validate_schema_depth_example :
    is_ok (validate_schema_depth 8 0 (obj city_schema)) ≡ leb (nesting (obj city_schema)) 8
is_ok-validate_schema_depth_example = is_ok-validate_schema_depth 8 (obj city_schema)

depth_of_schema : nesting (obj city_schema) ≡ 3
unfolding nesting
depth_of_schema = refl

open_gateway-IsOpened_example :
    IsOpened printed always accepts no_floats quoted server closed
      (open_gateway printed always accepts no_floats quoted server (closed, 0))
open_gateway-IsOpened_example =
    open_gateway-IsOpened printed always accepts no_floats quoted server closed 0

-- A digest that raises on the identity of a server
abbrev unencodable : Value → Result McpError String
unencodable (obj (field key held others)) =
    if key == "supported_versions" then raise encoding_error else ok "p"
unencodable value = ok "p"

-- `open` raises, and the gateway is open.
half_open :
    (open_gateway unencodable always accepts no_floats quoted server (closed, 0)).0
    ≡ raise encoding_error
unfolding open_gateway describe server_dict new_server_description list_tools list_pages read_page
    next_turn add_tools parse_tool new_tool tuple new_catalog sort_tools insert_tool validate_schema
    validate_schema_depth reject_external_refs header_paths annotation check_kind is_token_rest
    lower get reject_unreachable header_paths_in parse_server
half_open = refl

left_open :
    is_some
      (open_gateway unencodable always accepts no_floats quoted server (closed, 0)).1.0.catalog
    ≡ true
unfolding open_gateway describe server_dict new_server_description list_tools list_pages read_page
    next_turn add_tools parse_tool new_tool tuple new_catalog sort_tools insert_tool validate_schema
    validate_schema_depth reject_external_refs header_paths annotation check_kind is_token_rest
    lower get reject_unreachable header_paths_in parse_server
left_open = refl

abbrev opened : Gateway
opened = record closed { catalog = some both }

abbrev ready : ReadyCall
ready = record { baseline_catalog = both; baseline = tool "forecast"; headers = [] }

settle-settled_example :
    settle printed always accepts no_floats quoted paris ready (raise upstream_error) opened
    ≡ settled printed always accepts no_floats quoted paris ready (raise upstream_error) opened
settle-settled_example =
    settle-settled printed always accepts no_floats quoted paris ready (raise upstream_error) opened
      refl

call_tool-IsGuarded_example :
    IsGuarded one_digest always accepts no_floats quoted server paris opened [] 0
      (call_tool one_digest always accepts no_floats quoted
        (logged server)
        paris
        (opened, ([], 0))).1
call_tool-IsGuarded_example =
    call_tool-IsGuarded one_digest always accepts no_floats quoted server paris opened [] 0

-- The call reaches the server behind two pages, and is recorded.
called : (call_tool one_digest always accepts no_floats quoted server paris (opened, 0)).1.1 ≡ 3
unfolding call_tool ready_call find_baseline owns_tool prepare check_drift extract_mcp_headers
    add_trace_headers call_request settle accept_result outcome_of normalize_call_result list_tools
    list_pages read_page next_turn add_tools parse_tool new_tool tuple new_catalog sort_tools
    insert_tool validate_schema validate_schema_depth reject_external_refs header_paths annotation
    check_kind is_token_rest lower get reject_unreachable header_paths_in add_headers value_at
    serialize encode_mcp_header_value ends_with ends_blank insert check_structured new_call_record
    schema_digest catalog_digest
called = refl

run-IsSound_example : IsSound policy (
    run one_digest always accepts no_floats quoted server
      (opening ∷ calling paris ∷ refreshing ∷ [])
      (closed, ([], 0)))
run-IsSound_example =
    run-IsSound one_digest always accepts no_floats quoted server policy
      (opening ∷ calling paris ∷ refreshing ∷ []) (closed, ([], 0)) (refl, tt, tt, omega arith)

quoted-injective : (s t : String) → quoted s ≡ quoted t → s ≡ t
quoted-injective s t e = append_cancel_left "q" s t e

abbrev two_lines : String
two_lines = "two\nlines"

encode_mcp_header_value-injective_example : two_lines ≡ two_lines
encode_mcp_header_value-injective_example =
    encode_mcp_header_value-injective quoted quoted-injective two_lines two_lines refl

-- An annotated property whose type is a list of types stops the listing with a TypeError.
abbrev nullable_schema : Fields
nullable_schema =
    field "properties"
      (obj (
        field "city"
          (obj (
            field "type" (arr (cons (string "string") (cons (string "null") nil)))
              (field "x-mcp-header" (string "City") end)))
          end))
      end

nullable : header_paths nullable_schema ≡ raise type_error
unfolding header_paths annotation check_kind is_token_rest lower get reject_unreachable
    header_paths_in
nullable = refl

-- An annotation beneath `items` passes the check on unreachable annotations, and is mirrored nowhere.
abbrev hidden_schema : Fields
hidden_schema =
    field "properties"
      (obj (
        field "cities"
          (obj (
            field "items"
              (obj (
                field "properties"
                  (obj (
                    field "name"
                      (obj
                        (field "type" (string "string") (field "x-mcp-header" (string "City") end)))
                      end))
                  end))
              end))
          end))
      end

hidden : header_paths hidden_schema ≡ ok []
unfolding header_paths annotation check_kind is_token_rest lower get reject_unreachable
    header_paths_in
hidden = refl
