-- ===== src/Mcp/Catalog.antt =====
-- mcp/gateway.py, _list_tools: the catalog is read page by page.
pub mod Pages
pub mod Admission
pub mod Order
use agent_verification_proto.Base.{
  ℕ, zero, suc, String, Bool, true, false, not, ◌||◌, Option, none, some, List, [], ◌∷◌, ◌++◌, ltb,
  ◌==◌, contains, length, if◌then◌else◌, Result, ok, raise, Method, ◌>>=◌, ◌>>◌, ◌>>>◌, raise_if,
}
use agent_verification_proto.Base.Text.{is_empty}
use agent_verification_proto.Base.Dict.{Dict}
use agent_verification_proto.Base.Integers.{pos}
use agent_verification_proto.Base.Json.{
  Value, null, bool, num, string, arr, obj, Items, cons, nil, Fields, field, end, get, as_items,
}
use agent_verification_proto.Mcp.Values.{
  McpError, protocol_error, type_error, GatewayPolicy, ToolDescriptor, ToolCatalog, new_catalog,
}
use agent_verification_proto.Mcp.Tools.{parse_tool}

-- The arguments of MCPTransport.request
pub record Request : Type 0 where
  pub method : String
  pub params : Fields
  pub name : Option String
  pub extra_headers : Dict String

-- A transport with its own state, which may raise.
abbrev pub Transport : Type 0 → Type 0
Transport S = Request → Method McpError S Fields

-- A request with neither name nor headers
abbrev pub plain_request : String → Fields → Request
plain_request method params = record {
  method = method;
  params = params;
  name = none;
  extra_headers = [];
}

-- The variables of the loop.
pub record Listing : Type 0 where
  pub descriptors : List ToolDescriptor
  pub pages : List String
  pub ttls : List ℕ
  pub scope : Option String
  pub cursor : Option String
  pub seen : List String

abbrev pub start : Listing
start = record { descriptors = []; pages = []; ttls = []; scope = none; cursor = none; seen = [] }

abbrev cursor_params : Option String → Fields
cursor_params none = end
cursor_params (some cursor) = field "cursor" (string cursor) end

abbrev pub page_request : Listing → Request
page_request l = plain_request "tools/list" (cursor_params l.cursor)

-- `ttlMs`: a Boolean is an int.
abbrev pub read_ttl : Option Value → Result McpError ℕ
read_ttl (some (num (pos n))) = ok n
read_ttl (some (bool b)) = ok (if b then 1 else 0)
read_ttl _ = raise protocol_error

-- `cacheScope`: a list or a mapping is unhashable, and Python raises TypeError.
abbrev pub read_scope : Option Value → Result McpError String
read_scope (some (string scope)) =
    if scope == "public" || scope == "private" then ok scope else raise protocol_error
read_scope (some (arr _)) = raise type_error
read_scope (some (obj _)) = raise type_error
read_scope _ = raise protocol_error

abbrev pub read_items : Option Items → Result McpError Items
read_items none = raise protocol_error
read_items (some items) = ok items

abbrev pub same_scope : Option String → String → Bool
same_scope none page_scope = true
same_scope (some scope) page_scope = scope == page_scope

-- What a page leads to: another page, or the end of the listing.
pub data Turn : Type 0 where
  again : Listing → Turn
  finished : ToolCatalog → Turn

abbrev pub minimum : List ℕ → ℕ
minimum [] = 0
minimum (n ∷ []) = n
minimum (n ∷ ns) = let least = minimum ns in if ltb n least then n else least

abbrev pub or_private : Option String → String
or_private none = "private"
or_private (some scope) = scope

-- The branches on `nextCursor`.
unfoldable pub next_turn : Option Value → Listing → Result McpError Turn
next_turn (some (string cursor)) l = do
  raise_if (is_empty cursor || contains cursor l.seen) protocol_error
  ok (again (record l { cursor = some cursor; seen = cursor ∷ l.seen }))
next_turn none l = do
  catalog ← new_catalog l.descriptors l.pages (or_private l.scope) (minimum l.ttls)
  ok (finished catalog)
next_turn (some null) l = do
  catalog ← new_catalog l.descriptors l.pages (or_private l.scope) (minimum l.ttls)
  ok (finished catalog)
next_turn (some _) l = raise protocol_error

abbrev pub append_parsed : Option ToolDescriptor → List ToolDescriptor → List ToolDescriptor
append_parsed none descriptors = descriptors
append_parsed (some tool) descriptors = descriptors ++ tool ∷ []

abbrev pub take_turn :
    {S : Type 0}
    → (Listing → Method McpError S ToolCatalog)
    → Result McpError Turn
    → Method McpError S ToolCatalog
take_turn continue (raise e) s = (raise e, s)
take_turn continue (ok (finished catalog)) s = (ok catalog, s)
take_turn continue (ok (again l)) s = continue l s

module _ (digest : Value → Result McpError String) (is_schema : Value → Bool)
    (policy : GatewayPolicy) where
  -- The loop over the tools of a page.
  unfoldable pub add_tools : Items → List ToolDescriptor → Result McpError (List ToolDescriptor)
  add_tools nil descriptors = ok descriptors
  add_tools (cons raw raws) descriptors = do
    parsed ← parse_tool is_schema policy.max_schema_depth raw
    raise_if (ltb policy.max_catalog_tools (length (append_parsed parsed descriptors)))
        protocol_error
    add_tools raws (append_parsed parsed descriptors)

  -- The body of the loop behind the request.
  unfoldable pub read_page : Fields → Listing → Result McpError Turn
  read_page page l = do
    tools ← read_items (as_items (get "tools" page))
    ttl ← read_ttl (get "ttlMs" page)
    page_scope ← read_scope (get "cacheScope" page)
    raise_if (not (same_scope l.scope page_scope)) protocol_error
    page_digest ← digest (obj page)
    descriptors ← add_tools tools l.descriptors
    next_turn (get "nextCursor" page) (record l {
      descriptors = descriptors;
      pages = l.pages ++ page_digest ∷ [];
      ttls = l.ttls ++ ttl ∷ [];
      scope = some page_scope;
    })

  module _ {S : Type 0} (transport : Transport S) where
    -- The loop, with the number of rounds that are left.
    unfoldable pub list_pages : ℕ → Listing → Method McpError S ToolCatalog
    list_pages zero l s = (raise protocol_error, s)
    list_pages (suc rounds) l s =
        transport (page_request l) s >>> λ page. take_turn (list_pages rounds) (read_page page l)

    -- _list_tools
    unfoldable pub list_tools : Method McpError S ToolCatalog
    list_tools s = list_pages policy.max_catalog_pages start s
