-- ===== src/Mcp/Encoding.antt =====
-- mcp/transport.py, encode_mcp_header_value. `base64_utf8` is b64encode of the UTF-8 bytes.
pub mod Injective
use Prim.Native.Char.{Char, code}
use agent_verification_proto.Base.{
  String, Bool, false, not, ◌||◌, ◌&&◌, eqb, ◌==◌, is_some, if◌then◌else◌,
}
use agent_verification_proto.Base.Text.{◌<>◌, strip_prefix, all_chars, is_between}

abbrev pub sentinel_prefix : String
sentinel_prefix = "=?base64?"

abbrev pub sentinel_suffix : String
sentinel_suffix = "?="

-- text.endswith(suffix)
unfoldable pub ends_with : String → String → Bool
ends_with suffix String.[] = String.[] == suffix
ends_with suffix (String.◌∷◌ c s) = (String.◌∷◌ c s) == suffix || ends_with suffix s

-- _BASE64_SENTINEL_PREFIX and _BASE64_SENTINEL_SUFFIX
abbrev pub matches_sentinel : String → Bool
matches_sentinel value =
    is_some (strip_prefix sentinel_prefix value) && ends_with sentinel_suffix value

abbrev is_blank : Char → Bool
is_blank c = eqb (code c) 32 || eqb (code c) 9

-- value[-1] in {" ", "\t"}
unfoldable pub ends_blank : Char → String → Bool
ends_blank last String.[] = is_blank last
ends_blank last (String.◌∷◌ c s) = ends_blank c s

abbrev pub has_edge_whitespace : String → Bool
has_edge_whitespace String.[] = false
has_edge_whitespace (String.◌∷◌ c s) = is_blank c || ends_blank c s

abbrev pub is_plain_char : Char → Bool
is_plain_char c = eqb (code c) 9 || is_between 32 126 c

abbrev pub is_plain : String → Bool
is_plain value =
    all_chars is_plain_char value
    && (not (has_edge_whitespace value) && not (matches_sentinel value))

module _ (base64_utf8 : String → String) where
  unfoldable pub encode_mcp_header_value : String → String
  encode_mcp_header_value value =
      if is_plain value then value else sentinel_prefix <> (base64_utf8 value <> sentinel_suffix)
