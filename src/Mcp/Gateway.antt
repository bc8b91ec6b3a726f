-- ===== src/Mcp/Gateway.antt =====
-- mcp/gateway.py, MCPVerificationGateway. The gateway's object and the transport's state go along in
-- one pair; `digest` and the schema validator are parameters, as is the identifier of uuid4.
pub mod Guarding
pub mod Recording
pub mod Opening
pub mod Logs
pub mod Sessions
use agent_verification_proto.Base.{
  ℕ, String, Bool, true, false, not, ◌||◌, Option, none, some, List, [], ◌∷◌, ◌++◌, any, ◌==◌,
  contains, is_none, if◌then◌else◌, Result, ok, raise, Method, ◌>>=◌, ◌>>◌, ◌>>>◌, raise_if,
}
use agent_verification_proto.Base.Text.{◌<>◌, is_empty}
use agent_verification_proto.Base.Dict.{Dict, insert}
use agent_verification_proto.Base.Sets.{sorted_set}
use agent_verification_proto.Base.Integers.{ℤ, pos}
use agent_verification_proto.Base.Json.{
  Value, null, bool, num, string, arr, obj, Items, cons, nil, Fields, field, end, get, as_string,
  as_fields, as_items,
}
use agent_verification_proto.Mcp.Values.{
  McpError, upstream_error, protocol_error, permission_denied, schema_drift_error, value_error,
  GatewayPolicy, ServerDescription, new_server_description, strings, ToolDescriptor, ToolCatalog,
  tool_names, find_tool, GatewayDescription, CallOutcome, success, tool_error, upstream_failure,
  CallRecord, new_call_record, server_identity, schema_digest, catalog_digest,
}
use agent_verification_proto.Mcp.Schema.{validate_instance}
use agent_verification_proto.Mcp.Headers.{extract_mcp_headers}
use agent_verification_proto.Mcp.Catalog.{Request, Transport, plain_request, list_tools}
use agent_verification_proto.Mcp.Server.{parse_server, check_server}
use agent_verification_proto.Mcp.Calls.{
  Call, ReadyCall, call_request, correlation_or, add_trace_headers, is_complete, has_bad_flag,
  normalize_call_result, outcome_of,
}

pub record Gateway : Type 0 where
  pub policy : GatewayPolicy
  pub endpoint_identity : String
  pub server : Option ServerDescription
  pub catalog : Option ToolCatalog
  pub records : List CallRecord

-- __init__
unfoldable pub new_gateway : GatewayPolicy → String → Result McpError Gateway
new_gateway policy endpoint_identity = do
  raise_if (is_empty endpoint_identity) value_error
  ok (record {
    policy = policy;
    endpoint_identity = endpoint_identity;
    server = none;
    catalog = none;
    records = [];
  })

unfoldable pub owns_tool : String → Gateway → Bool
owns_tool name g = contains name g.policy.allowed_tools

-- `self._policy.allowed_tools - set(catalog.by_name())` is not empty
abbrev pub is_missing : List String → List String → Bool
is_missing allowed names = any (λ tool. not (contains tool names)) allowed

-- The lookups of call_tool before anything is requested.
unfoldable pub find_baseline : Call → Gateway → Result McpError (ToolCatalog × ToolDescriptor)
find_baseline c g = elim g.catalog [
  | none ↦ raise protocol_error
  | some catalog ↦
      if not (owns_tool c.name g)
      then raise permission_denied
      else (elim (find_tool c.name catalog.tools) [
        | none ↦ raise protocol_error
        | some baseline ↦ ok (catalog, baseline)
      ])
]

module _ (digest : Value → Result McpError String) (is_schema : Value → Bool)
    (conforms : Value → Value → Result McpError Bool) (integer_of : String → Option ℤ)
    (base64_utf8 : String → String) where
  abbrev described :
      Gateway → Option ServerDescription → Option ToolCatalog → Result McpError GatewayDescription
  described g (some server) (some catalog) = do
    upstream_url_digest ← digest (string g.endpoint_identity)
    server_digest ← server_identity digest server
    baseline_catalog_digest ← catalog_digest digest catalog
    ok (record {
      gateway_name = "avp-mcp-verification-gateway";
      gateway_version = "0.2.0-alpha.5";
      protocol_version = "2026-07-28";
      upstream_url_digest = upstream_url_digest;
      server_digest = server_digest;
      baseline_catalog_digest = baseline_catalog_digest;
      allowed_tools = sorted_set g.policy.allowed_tools;
    })
  described g _ _ = raise protocol_error

  unfoldable pub describe : Gateway → Result McpError GatewayDescription
  describe g = described g g.server g.catalog

  unfoldable pub configuration_digest : Gateway → Result McpError String
  configuration_digest g = digest (string g.endpoint_identity) >>= λ endpoint. digest (
      obj (
        field "gateway" (string "avp-mcp-verification-gateway") (
          field "version" (string "0.2.0-alpha.5") (
            field "protocol" (string "2026-07-28") (
              field "endpoint" (string endpoint) (
                field "policy"
                  (obj (
                    field "allowed_tools" (arr (strings (sorted_set g.policy.allowed_tools))) (
                      field "detect_schema_drift" (bool g.policy.detect_schema_drift) (
                        field "max_catalog_tools" (num (pos g.policy.max_catalog_tools)) (
                          field "max_catalog_pages" (num (pos g.policy.max_catalog_pages)) (
                            field "max_schema_depth" (num (pos g.policy.max_schema_depth)) end))))))
                  end))))))

  abbrev is_current : ToolDescriptor → Option ToolDescriptor → Result McpError Bool
  is_current baseline none = ok false
  is_current baseline (some current) = do
    now ← schema_digest digest current
    before ← schema_digest digest baseline
    ok (now == before)

  -- The comparison of the active catalog with the baseline.
  unfoldable pub check_drift :
      Call → ToolCatalog → ToolDescriptor → ToolCatalog → Result McpError (Unit {0})
  check_drift c catalog baseline active = do
    same ← is_current baseline (find_tool c.name active.tools)
    raise_if (not same) schema_drift_error
    now ← catalog_digest digest active
    before ← catalog_digest digest catalog
    raise_if (not (now == before)) schema_drift_error

  -- The checks on the arguments, and the headers.
  unfoldable pub prepare :
      Call → ToolCatalog → ToolDescriptor → ToolCatalog → Result McpError ReadyCall
  prepare c catalog baseline active = do
    check_drift c catalog baseline active
    validate_instance conforms (obj c.arguments) (obj baseline.input_schema)
    mirrored ← extract_mcp_headers integer_of base64_utf8 baseline.input_schema c.arguments
    headers ← add_trace_headers c.lower_name c.trace_headers mirrored
    ok (record { baseline_catalog = catalog; baseline = baseline; headers = headers })

  abbrev pub call_record :
      Call → ReadyCall → Result McpError (Option String) → CallOutcome → Result McpError CallRecord
  call_record c ready result_digested outcome = do
    arguments_digest ← digest (obj c.arguments)
    result_digest ← result_digested
    tool_digest ← schema_digest digest ready.baseline
    listed_digest ← catalog_digest digest ready.baseline_catalog
    ok (record {
      correlation_id = correlation_or c.fresh c.correlation_id;
      tool_name = c.name;
      arguments_digest = arguments_digest;
      result_digest = result_digest;
      schema_digest = tool_digest;
      catalog_digest = listed_digest;
      outcome = outcome;
    })

  -- The check of a successful result against the tool's output schema.
  unfoldable pub check_structured :
      CallOutcome → Option Value → Option Value → Result McpError (Unit {0})
  check_structured success (some schema) (some content) = validate_instance conforms content schema
  check_structured success (some schema) none = raise protocol_error
  check_structured _ _ _ = ok tt

  -- `self._records.append(MCPCallRecord(...))`, with what call_tool does then.
  abbrev pub append_record :
      Result McpError CallRecord
      → Result McpError Fields
      → Gateway
      → Result McpError Fields × Gateway
  append_record record_of outcome g = elim (record_of >>= new_call_record) [
    | raise e ↦ (raise e, g)
    | ok made ↦ (outcome, record g { records = g.records ++ made ∷ [] })
  ]

  -- The checks on an accepted answer.
  abbrev pub check_result : ReadyCall → Fields → Result McpError Fields
  check_result ready result = do
    normalized ← normalize_call_result result
    check_structured (outcome_of (get "isError" normalized)) ready.baseline.output_schema
        (get "structuredContent" normalized)
    ok normalized

  abbrev pub digest_of_result : Fields → Result McpError (Option String)
  digest_of_result normalized = do result_digest ← digest (obj normalized); ok (some result_digest)

  abbrev pub accept_normalized :
      Call → ReadyCall → Result McpError Fields → Gateway → Result McpError Fields × Gateway
  accept_normalized c ready (raise e) g = (raise e, g)
  accept_normalized c ready (ok normalized) g =
      append_record
        (call_record c ready (digest_of_result normalized) (outcome_of (get "isError" normalized)))
        (ok normalized) g

  unfoldable pub accept_result :
      Call → ReadyCall → Fields → Gateway → Result McpError Fields × Gateway
  accept_result c ready result g = accept_normalized c ready (check_result ready result) g

  -- What call_tool does with the answer to its request.
  unfoldable pub settle :
      Call → ReadyCall → Result McpError Fields → Gateway → Result McpError Fields × Gateway
  settle c ready (raise upstream_error) g =
      append_record (call_record c ready (ok none) upstream_failure) (raise upstream_error) g
  settle c ready (raise e) g = (raise e, g)
  settle c ready (ok result) g = accept_result c ready result g

  module _ {S : Type 0} (transport : Transport S) where
    abbrev pub list_now : Gateway → Method McpError S ToolCatalog
    list_now g = list_tools digest is_schema g.policy transport

    -- The active catalog of call_tool
    abbrev list_if : Bool → ToolCatalog → Gateway → Method McpError S ToolCatalog
    list_if true catalog g s = list_now g s
    list_if false catalog g s = (ok catalog, s)

    unfoldable pub ready_call : Call → Gateway → Method McpError S ReadyCall
    ready_call c g s = (find_baseline c g, s) >>> λ found. λ s1.
        list_if g.policy.detect_schema_drift found.0 g s1 >>> λ active.
        λ s2. (prepare c found.0 found.1 active, s2)

    abbrev pub send :
        Call → Result McpError ReadyCall × S → Gateway → Result McpError Fields × (Gateway × S)
    send c (raise e, s) g = (raise e, (g, s))
    send c (ok ready, s) g =
        let (answer, s1) = transport (call_request c ready) s in
        let (result, after) = settle c ready answer g in (result, (after, s1))

    unfoldable pub call_tool : Call → Method McpError (Gateway × S) Fields
    call_tool c (g, s) = send c (ready_call c g s) g

    abbrev pub discover : Method McpError S ServerDescription
    discover s = transport (plain_request "server/discover" end) s >>> λ result.
        λ s1. (parse_server result, s1)

    abbrev pub open_with :
        Gateway
        → Result McpError (ServerDescription × ToolCatalog) × S
        → Result McpError GatewayDescription × (Gateway × S)
    open_with g (raise e, s) = (raise e, (g, s))
    open_with g (ok (server, catalog), s) =
        let opened = record g { server = some server; catalog = some catalog } in
        (describe opened, (opened, s))

    abbrev pub verified_catalog :
        Gateway → ServerDescription → Method McpError S (ServerDescription × ToolCatalog)
    verified_catalog g server s = (check_server server, s) >>> λ _. λ s1.
        list_now g s1 >>> λ catalog. λ s2. (
          (do
            raise_if (is_missing g.policy.allowed_tools (tool_names catalog.tools))
                permission_denied
            ok (server, catalog)),
          s2,
        )

    -- open
    unfoldable pub open_gateway : Method McpError (Gateway × S) GatewayDescription
    open_gateway (g, s) = open_with g (discover s >>> verified_catalog g)

    abbrev pub refresh_from : Option ToolCatalog → Method McpError (Gateway × S) ToolCatalog
    refresh_from none (g, s) = (raise protocol_error, (g, s))
    refresh_from (some catalog) (g, s) =
        let (listed, s1) = list_now g s in
        (
          (do
            active ← listed
            now ← catalog_digest digest active
            before ← catalog_digest digest catalog
            raise_if (not (now == before)) schema_drift_error
            ok active),
          (g, s1),
        )

    unfoldable pub refresh_catalog : Method McpError (Gateway × S) ToolCatalog
    refresh_catalog (g, s) = refresh_from g.catalog (g, s)
