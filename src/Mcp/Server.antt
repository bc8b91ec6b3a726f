-- ===== src/Mcp/Server.antt =====
-- mcp/gateway.py, _discover: the description of the server.
use agent_verification_proto.Base.{
  String, not, Option, none, some, List, [], ◌∷◌, contains, is_none, Result, raise, ◌>>◌, raise_if,
}
use agent_verification_proto.Base.Json.{
  string, Items, cons, nil, Fields, get, as_string, as_fields, as_items,
}
use agent_verification_proto.Mcp.Values.{
  McpError, protocol_error, ServerDescription, new_server_description,
}

abbrev string_items : Items → Option (List String)
string_items nil = some []
string_items (cons (string s) items) = elim (string_items items) [
  | none ↦ none
  | some rest ↦ some (s ∷ rest)
]
string_items (cons _ items) = none

abbrev string_list : Option Items → Option (List String)
string_list none = none
string_list (some items) = string_items items

abbrev read_info :
    List String → Fields → Option String → Option String → Result McpError ServerDescription
read_info versions capabilities (some name) (some version) =
    new_server_description versions name version capabilities
read_info versions capabilities _ _ = raise protocol_error

abbrev read_server :
    Option (List String) → Option Fields → Option Fields → Result McpError ServerDescription
read_server (some versions) (some capabilities) (some info) =
    read_info versions capabilities (as_string (get "name" info)) (as_string (get "version" info))
read_server _ _ _ = raise protocol_error

-- _discover, behind the request
unfoldable pub parse_server : Fields → Result McpError ServerDescription
parse_server result =
    read_server (string_list (as_items (get "supportedVersions" result)))
      (as_fields (get "capabilities" result)) (as_fields (get "serverInfo" result))

-- The checks of `open` on the server, before the catalog is listed.
abbrev pub check_server : ServerDescription → Result McpError (Unit {0})
check_server server = do
  raise_if (not (contains "2026-07-28" server.supported_versions)) protocol_error
  raise_if (is_none (get "tools" server.capabilities)) protocol_error
