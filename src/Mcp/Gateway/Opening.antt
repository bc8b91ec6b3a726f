-- ===== src/Mcp/Gateway/Opening.antt =====
-- What `open` establishes.
use agent_verification_proto.Base.{
  String, Bool, true, false, Option, some, List, [], ◌∷◌, ◌≡◌, refl, ◌⊎◌, inl, inr, eq_iff,
  contains, Result, ok, raise, ◌>>◌, ◌>>>◌, raise_if, is_ok, is_some, arith,
}
use agent_verification_proto.Base.Integers.{ℤ}
use agent_verification_proto.Base.Json.{Value}
use agent_verification_proto.Mcp.Values.{
  McpError, permission_denied, ServerDescription, ToolDescriptor, ToolCatalog, tool_names,
  find_tool, GatewayDescription,
}
use agent_verification_proto.Mcp.Catalog.{Transport}
use agent_verification_proto.Mcp.Server.{check_server}
use agent_verification_proto.Mcp.Calls.{Call}
use agent_verification_proto.Mcp.Gateway.{
  Gateway, owns_tool, is_missing, find_baseline, describe, list_now, discover, verified_catalog,
  open_with, open_gateway,
}

module _ (name : String) where
  is_some-find_tool :
      (tools : List ToolDescriptor)
      → is_some (find_tool name tools) ≡ contains name (tool_names tools)
  is_some-find_tool [] = refl
  is_some-find_tool (t ∷ ts) = ground (arith, is_some-find_tool ts)

  not_missing :
      (allowed names : List String)
      → is_missing allowed names ≡ false
      → contains name allowed ≡ true
      → contains name names ≡ true
  not_missing [] names h k = absurd (ground (arith, k))
  not_missing (tool ∷ allowed) names h k =
      ground (arith, eq_iff tool name, h, k, not_missing allowed names)

-- With a baseline that misses no allowed tool, exactly the allowed tools get through the lookups of
-- call_tool.
is_ok-find_baseline :
    (c : Call) (g : Gateway) (catalog : ToolCatalog)
    → g.catalog ≡ some catalog
    → is_missing g.policy.allowed_tools (tool_names catalog.tools) ≡ false
    → is_ok (find_baseline c g) ≡ owns_tool c.name g
unfolding find_baseline owns_tool
is_ok-find_baseline c g catalog e h = ground (
  arith,
  e,
  is_some-find_tool c.name catalog.tools,
  not_missing c.name g.policy.allowed_tools (tool_names catalog.tools) h,
)

module _ (digest : Value → Result McpError String) (is_schema : Value → Bool)
    (conforms : Value → Value → Result McpError Bool) (integer_of : String → Option ℤ)
    (base64_utf8 : String → String) {S : Type 0} (transport : Transport S) where
  -- The lookups of call_tool succeed exactly for the tools that the policy allows, and nothing is
  -- changed but the server and the catalog.
  abbrev pub IsReady : Gateway → Gateway → Type 0
  IsReady g after =
      ((c : Call) → is_ok (find_baseline c after) ≡ owns_tool c.name g)
      × (after.policy ≡ g.policy)
      × (after.endpoint_identity ≡ g.endpoint_identity)
      × (after.records ≡ g.records)

  -- What a use of `open` leaves.
  abbrev pub IsOpened : Gateway → Result McpError GatewayDescription × (Gateway × S) → Type 0
  IsOpened g (raise e, (after, s)) =
      (after ≡ g)
      ⊎ (IsReady g after
          × (describe digest is_schema conforms integer_of base64_utf8 after ≡ raise e))
  IsOpened g (ok description, (after, s)) =
      IsReady g after
      × (describe digest is_schema conforms integer_of base64_utf8 after ≡ ok description)

  described-IsOpened :
      (g after : Gateway) (s : S) (outcome : Result McpError GatewayDescription)
      → IsReady g after
      → describe digest is_schema conforms integer_of base64_utf8 after ≡ outcome
      → IsOpened g (outcome, (after, s))
  described-IsOpened g after s (raise e) h d = inr (h, d)
  described-IsOpened g after s (ok description) h d = (h, d)

  abbrev IsCovered : Gateway → Result McpError (ServerDescription × ToolCatalog) → Type 0
  IsCovered g (raise e) = Unit
  IsCovered g (ok (server, catalog)) =
      is_missing g.policy.allowed_tools (tool_names catalog.tools) ≡ false

  listed-IsCovered :
      (g : Gateway) (server : ServerDescription) (listed : Result McpError ToolCatalog × S)
      → IsCovered g
          (listed >>> λ catalog. λ s2. (
            (do
              raise_if
                  (is_missing g.policy.allowed_tools (tool_names catalog.tools))
                  permission_denied
              ok (server, catalog)),
            s2,
          )).0
  listed-IsCovered g server (raise e, s) = tt
  listed-IsCovered g server (ok catalog, s) = ground arith

  checked-IsCovered :
      (g : Gateway) (server : ServerDescription) (check : Result McpError (Unit {0})) (s : S)
      → IsCovered g
          ((check, s) >>> λ _. λ s1.
            list_now digest is_schema conforms integer_of base64_utf8 transport g s1 >>> λ catalog.
            λ s2. (
              (do
                raise_if
                    (is_missing g.policy.allowed_tools (tool_names catalog.tools))
                    permission_denied
                ok (server, catalog)),
              s2,
            )).0
  checked-IsCovered g server (raise e) s = tt
  checked-IsCovered g server (ok _) s =
      listed-IsCovered g server
        (list_now digest is_schema conforms integer_of base64_utf8 transport g s)

  discovered-IsCovered :
      (g : Gateway) (found : Result McpError ServerDescription × S)
      → IsCovered g
          (found
            >>> verified_catalog digest is_schema conforms integer_of base64_utf8 transport g).0
  discovered-IsCovered g (raise e, s) = tt
  discovered-IsCovered g (ok server, s) = checked-IsCovered g server (check_server server) s

  covered-IsOpened :
      (g : Gateway) (found : Result McpError (ServerDescription × ToolCatalog) × S)
      → IsCovered g found.0
      → IsOpened g (open_with digest is_schema conforms integer_of base64_utf8 transport g found)
  unfolding owns_tool
  covered-IsOpened g (raise e, s) h = inl refl
  covered-IsOpened g (ok (server, catalog), s) h =
      let after = record g { server = some server; catalog = some catalog } in
      described-IsOpened g after s (describe digest is_schema conforms integer_of base64_utf8 after)
        (λ c. is_ok-find_baseline c after catalog refl h, refl, refl, refl) refl

  -- After an `open` that succeeds, the description is what `describe` returns, and the lookups of
  -- call_tool succeed exactly for the tools that the policy allows. One that raises leaves the gateway
  -- as it was, or it is the description that raised, and then the gateway is open all the same. The
  -- policy and the records stay in either case.
  pub open_gateway-IsOpened :
      (g : Gateway) (s : S)
      → IsOpened g (open_gateway digest is_schema conforms integer_of base64_utf8 transport (g, s))
  unfolding open_gateway
  open_gateway-IsOpened g s =
      let found = discover digest is_schema conforms integer_of base64_utf8 transport s in
      covered-IsOpened g
        (found >>> verified_catalog digest is_schema conforms integer_of base64_utf8 transport g)
        (discovered-IsCovered g found)
