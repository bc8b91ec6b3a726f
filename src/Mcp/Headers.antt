-- ===== src/Mcp/Headers.antt =====
-- mcp/gateway.py: the arguments of a tool that are mirrored in HTTP headers, which its input schema
-- annotates with `x-mcp-header`.
use Prim.Native.Char.{Char, code}
use agent_verification_proto.Base.{
  String, Bool, true, false, not, ◌||◌, ◌&&◌, Option, none, some, List, [], ◌∷◌, ◌++◌, any, ltb,
  eqb, ◌==◌, contains, is_some, if◌then◌else◌, Result, ok, raise, ◌>>=◌, ◌>>◌, raise_if,
}
use agent_verification_proto.Base.Text.{◌<>◌, is_alnum, lower}
use agent_verification_proto.Base.Dict.{Dict, insert}
use agent_verification_proto.Base.Integers.{ℤ, abs, str_int}
use agent_verification_proto.Base.Json.{
  Value, null, bool, num, float, string, arr, obj, Items, cons, nil, Fields, field, end, get,
}
use agent_verification_proto.Mcp.Values.{McpError, protocol_error, type_error}
use agent_verification_proto.Mcp.Encoding.{encode_mcp_header_value}

-- The punctuation of _TOKEN
abbrev is_mark : Char → Bool
is_mark c = any (eqb (code c)) (
    b'!' ∷ b'#' ∷ b'$' ∷ b'%' ∷ b'&' ∷ 39 ∷ b'*' ∷ b'+' ∷ b'-' ∷ b'.' ∷ b'^' ∷ b'_' ∷ 96 ∷ b'|'
    ∷ b'~' ∷ [])

-- What _TOKEN matches behind the first character: `$` also stands before a final line feed.
unfoldable pub is_token_rest : String → Bool
is_token_rest String.[] = true
is_token_rest (String.◌∷◌ c String.[]) = is_mark c || (is_alnum c || eqb (code c) 10)
is_token_rest (String.◌∷◌ c s) = (is_mark c || is_alnum c) && is_token_rest s

abbrev is_token : String → Bool
is_token String.[] = false
is_token (String.◌∷◌ c s) = (is_mark c || is_alnum c) && is_token_rest s

pub record HeaderPath : Type 0 where
  pub path : List String
  pub header : String
  pub kind : String

-- `prop.get("type") not in {...}`: a list or a mapping is unhashable, and Python raises TypeError.
unfoldable pub check_kind : Option Value → Result McpError String
check_kind (some (string kind)) =
    if kind == "string" || (kind == "integer" || kind == "boolean")
    then ok kind
    else raise protocol_error
check_kind (some (arr _)) = raise type_error
check_kind (some (obj _)) = raise type_error
check_kind _ = raise protocol_error

-- The annotation of one property, and `seen` afterwards.
unfoldable pub annotation :
    List String
    → List String
    → Option Value
    → Option Value
    → Result McpError (List HeaderPath × List String)
annotation path seen none kind = ok ([], seen)
annotation path seen (some null) kind = ok ([], seen)
annotation path seen (some (string header)) kind = do
  raise_if (not (is_token header)) protocol_error
  checked ← check_kind kind
  raise_if (contains (lower header) seen) protocol_error
  ok (record { path = path; header = header; kind = checked } ∷ [], lower header ∷ seen)
annotation path seen (some _) kind = raise protocol_error

-- _header_paths beneath the root; `header_paths_in` looks for the value of "properties". The values of
-- `seen` are never read.
unfoldable mutual
  pub header_paths_in :
      List String → List String → Fields → Result McpError (List HeaderPath × List String)
  header_paths_in path seen end = ok ([], seen)
  header_paths_in path seen (field key held others) =
      if key == "properties"
      then header_paths_of path seen held
      else header_paths_in path seen others

  pub header_paths_of :
      List String → List String → Value → Result McpError (List HeaderPath × List String)
  header_paths_of path seen (obj properties) = property_paths path seen properties
  header_paths_of path seen _ = ok ([], seen)

  pub property_paths :
      List String → List String → Fields → Result McpError (List HeaderPath × List String)
  property_paths path seen end = ok ([], seen)
  property_paths path seen (field key prop others) = do
    here ← property_path (path ++ key ∷ []) seen prop
    rest ← property_paths path here.1 others
    ok (here.0 ++ rest.0, rest.1)

  pub property_path :
      List String → List String → Value → Result McpError (List HeaderPath × List String)
  property_path path seen (obj prop) = do
    own ← annotation path seen (get "x-mcp-header" prop) (get "type" prop)
    nested ← header_paths_in path own.1 prop
    ok (own.0 ++ nested.0, nested.1)
  property_path path seen _ = ok ([], seen)

-- _reject_unreachable_header_annotations(value, property_chain, annotation_allowed)
unfoldable mutual
  pub reject_unreachable : Bool → Bool → Value → Result McpError (Unit {0})
  reject_unreachable chain allowed (obj fields) = do
    raise_if (is_some (get "x-mcp-header" fields) && not allowed) protocol_error
    if chain then reject_chained fields else ok tt
    reject_unchained fields
  reject_unreachable chain allowed (arr items) = reject_items items
  reject_unreachable chain allowed _ = ok tt

  pub reject_chained : Fields → Result McpError (Unit {0})
  reject_chained end = ok tt
  reject_chained (field key held others) =
      if key == "properties" then reject_held held else reject_chained others

  pub reject_held : Value → Result McpError (Unit {0})
  reject_held (obj properties) = reject_properties properties
  reject_held _ = ok tt

  pub reject_properties : Fields → Result McpError (Unit {0})
  reject_properties end = ok tt
  reject_properties (field key prop others) = reject_property prop >> reject_properties others

  -- reject_unreachable true true (obj prop), written out
  pub reject_property : Value → Result McpError (Unit {0})
  reject_property (obj prop) = reject_chained prop >> reject_unchained prop
  reject_property _ = ok tt

  pub reject_unchained : Fields → Result McpError (Unit {0})
  reject_unchained end = ok tt
  reject_unchained (field key item others) =
      (if key == "x-mcp-header" || key == "properties"
        then ok tt
        else reject_unreachable false false item)
      >> reject_unchained others

  pub reject_items : Items → Result McpError (Unit {0})
  reject_items nil = ok tt
  reject_items (cons item items) = reject_unreachable false false item >> reject_items items

-- _header_paths of a root schema
unfoldable pub header_paths : Fields → Result McpError (List HeaderPath)
header_paths schema = do
  reject_unreachable true false (obj schema)
  found ← header_paths_in [] [] schema
  ok found.0

-- The inner loop of _extract_mcp_headers. A null counts as absent.
unfoldable pub value_at : List String → Option Value → Option Value
value_at path none = none
value_at path (some null) = none
value_at [] (some v) = some v
value_at (part ∷ path) (some (obj fields)) = value_at path (get part fields)
value_at (part ∷ path) (some _) = none

-- `integer_of` is int(value) of a float whose is_integer() holds.
module _ (integer_of : String → Option ℤ) (base64_utf8 : String → String) where
  abbrev serialize_integer : Option ℤ → Result McpError String
  serialize_integer none = raise protocol_error
  serialize_integer (some n) = do
    raise_if (ltb 9007199254740991 (abs n)) protocol_error
    ok (str_int n)

  abbrev serialize_as_integer : Value → Result McpError String
  serialize_as_integer (num n) = serialize_integer (some n)
  serialize_as_integer (float numeral) = serialize_integer (integer_of numeral)
  serialize_as_integer _ = raise protocol_error

  abbrev serialize_as_boolean : Value → Result McpError String
  serialize_as_boolean (bool b) = ok (if b then "true" else "false")
  serialize_as_boolean _ = raise protocol_error

  abbrev serialize_as_string : Value → Result McpError String
  serialize_as_string (string s) = ok s
  serialize_as_string _ = raise protocol_error

  unfoldable pub serialize : String → Value → Result McpError String
  serialize kind value =
      if kind == "integer"
      then serialize_as_integer value
      else if kind == "boolean"
      then serialize_as_boolean value
      else if kind == "string"
      then serialize_as_string value
      else raise protocol_error

  abbrev add_header : HeaderPath → Option Value → Dict String → Result McpError (Dict String)
  add_header found none headers = ok headers
  add_header found (some value) headers = do
    serialized ← serialize found.kind value
    ok (
        insert ("Mcp-Param-" <> found.header) (encode_mcp_header_value base64_utf8 serialized)
          headers)

  unfoldable pub add_headers :
      List HeaderPath → Fields → Dict String → Result McpError (Dict String)
  add_headers [] args headers = ok headers
  add_headers (found ∷ paths) args headers = do
    extended ← add_header found (value_at found.path (some (obj args))) headers
    add_headers paths args extended

  -- _extract_mcp_headers
  unfoldable pub extract_mcp_headers : Fields → Fields → Result McpError (Dict String)
  extract_mcp_headers schema args = do paths ← header_paths schema; add_headers paths args []
