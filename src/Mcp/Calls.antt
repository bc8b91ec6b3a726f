-- ===== src/Mcp/Calls.antt =====
-- mcp/gateway.py, call_tool: a call with what it sends, and the form of an answer.
use agent_verification_proto.Base.{
  String, Bool, true, false, not, Option, none, some, [], ◌∷◌, any, ◌==◌, Result, ok, ◌>>◌,
  raise_if,
}
use agent_verification_proto.Base.Text.{◌<>◌}
use agent_verification_proto.Base.Dict.{Dict, insert}
use agent_verification_proto.Base.Json.{Value, null, bool, string, obj, Fields, field, end, get}
use agent_verification_proto.Mcp.Values.{
  McpError, protocol_error, ToolDescriptor, ToolCatalog, CallOutcome, success, tool_error,
}
use agent_verification_proto.Mcp.Catalog.{Request}

-- The arguments of call_tool, the identifier that uuid4 would give, and `str.lower` on the names of
-- headers, for which Unicode's tables are not written out.
pub record Call : Type 0 where
  pub name : String
  pub arguments : Fields
  pub correlation_id : Option String
  pub trace_headers : Dict String
  pub fresh : String
  pub lower_name : String → String

abbrev pub correlation_or : String → Option String → String
correlation_or fresh none = "mcp_" <> fresh
correlation_or fresh (some String.[]) = "mcp_" <> fresh
correlation_or fresh (some given) = given

-- The loop over `trace_headers`.
unfoldable pub add_trace_headers :
    (String → String) → Dict String → Dict String → Result McpError (Dict String)
add_trace_headers lower_name [] headers = ok headers
add_trace_headers lower_name ((key, value) ∷ trace) headers = do
  raise_if (any (λ h. lower_name h.0 == lower_name key) headers) protocol_error
  add_trace_headers lower_name trace (insert key value headers)

-- `result_type not in (None, "complete")`, and "input_required"
abbrev pub is_complete : Option Value → Bool
is_complete none = true
is_complete (some null) = true
is_complete (some (string kind)) = kind == "complete"
is_complete (some _) = false

-- `"isError" in result and not isinstance(result["isError"], bool)`
abbrev pub has_bad_flag : Option Value → Bool
has_bad_flag none = false
has_bad_flag (some (bool _)) = false
has_bad_flag (some _) = true

-- _normalize_call_result
unfoldable pub normalize_call_result : Fields → Result McpError Fields
normalize_call_result result = do
  raise_if (not (is_complete (get "resultType" result))) protocol_error
  raise_if (has_bad_flag (get "isError" result)) protocol_error
  ok result

-- `normalized.get("isError") is True`
unfoldable pub outcome_of : Option Value → CallOutcome
outcome_of (some (bool true)) = tool_error
outcome_of _ = success

-- What is fixed before the upstream call: the baseline's entry and the headers.
pub record ReadyCall : Type 0 where
  pub baseline_catalog : ToolCatalog
  pub baseline : ToolDescriptor
  pub headers : Dict String

-- `self._transport.request("tools/call", ...)`
unfoldable pub call_request : Call → ReadyCall → Request
call_request c ready = record {
  method = "tools/call";
  params = field "name" (string c.name) (field "arguments" (obj c.arguments) end);
  name = some c.name;
  extra_headers = ready.headers;
}
