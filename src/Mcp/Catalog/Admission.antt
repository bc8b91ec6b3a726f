-- ===== src/Mcp/Catalog/Admission.antt =====
-- Which tools get into a catalog.
use agent_verification_proto.Base.{
  IsOk, IsOk-bind, IsOk-each, IsOk-check, ℕ, zero, suc, ◌≤◌, String, Bool, true, false, not, Option,
  none, some, List, [], ◌∷◌, ◌≡◌, subst, ltb, is_unique, length, All, All-append, Result, ok, raise,
  Method, ◌>>=◌, ◌>>◌, ◌>>>◌, raise_if, is_ok, arith,
}
use agent_verification_proto.Base.Text.{is_empty}
use agent_verification_proto.Base.Json.{
  Value, null, bool, num, float, string, arr, obj, Items, cons, nil, Fields, get, as_items,
}
use agent_verification_proto.Mcp.Values.{
  McpError, protocol_error, GatewayPolicy, ToolDescriptor, new_tool, ToolCatalog, insert_tool,
  sort_tools, tool_names, new_catalog,
}
use agent_verification_proto.Mcp.Schema.{validate_schema}
use agent_verification_proto.Mcp.Headers.{header_paths}
use agent_verification_proto.Mcp.Tools.{parse_tool}
use agent_verification_proto.Mcp.Catalog.{
  Transport, Listing, start, page_request, Turn, again, finished, read_items, read_ttl, read_scope,
  same_scope, minimum, or_private, next_turn, append_parsed, add_tools, read_page, take_turn,
  list_pages, list_tools,
}

module _ (is_schema : Value → Bool) (limit : ℕ) where
  -- What the gateway requires of a tool.
  abbrev pub IsAdmitted : ToolDescriptor → Type 0
  IsAdmitted tool =
      (is_empty tool.name ≡ false)
      × (is_ok (validate_schema is_schema limit (obj tool.input_schema)) ≡ true)
      × (is_ok (header_paths tool.input_schema) ≡ true)

  abbrev AreAdmitted : Option ToolDescriptor → Type 0
  AreAdmitted none = Unit
  AreAdmitted (some tool) = IsAdmitted tool

  parse_tool-IsAdmitted : (raw : Value) → IsOk AreAdmitted (parse_tool is_schema limit raw)
  unfolding parse_tool new_tool
  parse_tool-IsAdmitted null = tt
  parse_tool-IsAdmitted (bool b) = tt
  parse_tool-IsAdmitted (num n) = tt
  parse_tool-IsAdmitted (float numeral) = tt
  parse_tool-IsAdmitted (string s) = tt
  parse_tool-IsAdmitted (arr items) = tt
  parse_tool-IsAdmitted (obj raw) = ground arith

module _ (P : ToolDescriptor → Type 0) where
  -- Sorting moves the tools and keeps each of them.
  abbrev Holds : ℕ → List ToolDescriptor → Type 0
  Holds limit tools = All P tools × (length tools ≤ limit)

  insert_tool-Holds :
      (limit : ℕ) (t : ToolDescriptor) (us : List ToolDescriptor)
      → P t
      → Holds limit us
      → Holds (suc limit) (insert_tool t us)
  unfolding insert_tool
  insert_tool-Holds limit t [] p h = ((p, tt), omega arith)
  insert_tool-Holds (suc limit) t (u ∷ us) p h =
      ground (arith, insert_tool-Holds limit t us p (h.0.1, omega (arith, h.1)))
  insert_tool-Holds zero t (u ∷ us) p h = absurd (omega (arith, h.1))

  sort_tools-Holds : (ts : List ToolDescriptor) → All P ts → Holds (length ts) (sort_tools ts)
  unfolding sort_tools
  sort_tools-Holds [] h = (tt, omega arith)
  sort_tools-Holds (t ∷ ts) h =
      insert_tool-Holds (length ts) t (sort_tools ts) h.0 (sort_tools-Holds ts h.1)

module _ (digest : Value → Result McpError String) (is_schema : Value → Bool)
    (policy : GatewayPolicy) where
  abbrev Admitted : List ToolDescriptor → Type 0
  Admitted tools =
      Holds (IsAdmitted is_schema policy.max_schema_depth) policy.max_catalog_tools tools

  -- What a listing guarantees of its catalog.
  abbrev pub IsCatalog : ToolCatalog → Type 0
  IsCatalog catalog = Admitted catalog.tools × (is_unique (tool_names catalog.tools) ≡ true)

  append_parsed-All :
      (parsed : Option ToolDescriptor) (tools : List ToolDescriptor)
      → AreAdmitted is_schema policy.max_schema_depth parsed
      → All (IsAdmitted is_schema policy.max_schema_depth) tools
      → All (IsAdmitted is_schema policy.max_schema_depth) (append_parsed parsed tools)
  append_parsed-All none tools p h = h
  append_parsed-All (some tool) tools p h =
      All-append (IsAdmitted is_schema policy.max_schema_depth) tools (tool ∷ []) h (p, tt)

  add_tools-Admitted :
      (raws : Items) (tools : List ToolDescriptor)
      → Admitted tools
      → IsOk Admitted (add_tools digest is_schema policy raws tools)
  unfolding add_tools
  add_tools-Admitted nil tools h = h
  add_tools-Admitted (cons raw raws) tools h =
      IsOk-bind (AreAdmitted is_schema policy.max_schema_depth) Admitted
        (parse_tool is_schema policy.max_schema_depth raw)
        (λ parsed.
          raise_if (ltb policy.max_catalog_tools (length (append_parsed parsed tools)))
            protocol_error
          >> add_tools digest is_schema policy raws (append_parsed parsed tools))
        (parse_tool-IsAdmitted is_schema policy.max_schema_depth raw)
        (λ parsed p.
          IsOk-check Admitted (ltb policy.max_catalog_tools (length (append_parsed parsed tools)))
            protocol_error (add_tools digest is_schema policy raws (append_parsed parsed tools))
            (λ small.
              add_tools-Admitted raws (append_parsed parsed tools)
                (append_parsed-All parsed tools p h.0, ground (arith, small))))

  abbrev IsTurn : Turn → Type 0
  IsTurn (again l) = Admitted l.descriptors
  IsTurn (finished catalog) = IsCatalog catalog

  finish-IsTurn :
      (l : Listing) (scope : String) (ttl : ℕ)
      → Admitted l.descriptors
      → IsOk IsTurn (new_catalog l.descriptors l.pages scope ttl >>= λ c. ok (finished c))
  unfolding new_catalog
  finish-IsTurn l scope ttl h =
      ground
        (arith, sort_tools-Holds (IsAdmitted is_schema policy.max_schema_depth) l.descriptors h.0)

  next_turn-IsTurn :
      (next : Option Value) (l : Listing) → Admitted l.descriptors → IsOk IsTurn (next_turn next l)
  unfolding next_turn new_catalog
  next_turn-IsTurn none l h = finish-IsTurn l (or_private l.scope) (minimum l.ttls) h
  next_turn-IsTurn (some null) l h = finish-IsTurn l (or_private l.scope) (minimum l.ttls) h
  next_turn-IsTurn (some (string cursor)) l h = ground arith
  next_turn-IsTurn (some (bool b)) l h = tt
  next_turn-IsTurn (some (num n)) l h = tt
  next_turn-IsTurn (some (float numeral)) l h = tt
  next_turn-IsTurn (some (arr items)) l h = tt
  next_turn-IsTurn (some (obj fields)) l h = tt

  read_page-IsTurn :
      (page : Fields) (l : Listing)
      → Admitted l.descriptors
      → IsOk IsTurn (read_page digest is_schema policy page l)
  unfolding read_page
  read_page-IsTurn page l h =
      IsOk-each IsTurn (read_items (as_items (get "tools" page))) _ (λ tools.
        IsOk-each IsTurn (read_ttl (get "ttlMs" page)) _ (λ ttl.
          IsOk-each IsTurn (read_scope (get "cacheScope" page)) _ (λ page_scope.
            IsOk-each IsTurn (raise_if (not (same_scope l.scope page_scope)) protocol_error) _ (λ _.
              IsOk-each IsTurn (digest (obj page)) _ (λ _.
                IsOk-bind Admitted IsTurn (add_tools digest is_schema policy tools l.descriptors) _
                  (add_tools-Admitted tools l.descriptors h)
                  (λ descriptors held. next_turn-IsTurn (get "nextCursor" page) _ held))))))

  module _ {S : Type 0} (transport : Transport S) where
    take_turn-IsCatalog :
        (continue : Listing → Method McpError S ToolCatalog) (turn : Result McpError Turn) (s : S)
        → IsOk IsTurn turn
        → ((l : Listing) → Admitted l.descriptors → IsOk IsCatalog (continue l s).0)
        → IsOk IsCatalog (take_turn continue turn s).0
    take_turn-IsCatalog continue (raise e) s h rest = tt
    take_turn-IsCatalog continue (ok (finished catalog)) s h rest = h
    take_turn-IsCatalog continue (ok (again l)) s h rest = rest l h

    page-IsCatalog :
        (continue : Listing → Method McpError S ToolCatalog) (l : Listing)
        (answered : Result McpError Fields × S)
        → Admitted l.descriptors
        → ((l : Listing) (s : S) → Admitted l.descriptors → IsOk IsCatalog (continue l s).0)
        → IsOk IsCatalog
            (answered >>> λ page. take_turn continue (read_page digest is_schema policy page l)).0
    page-IsCatalog continue l (raise e, s) h rest = tt
    page-IsCatalog continue l (ok page, s) h rest =
        take_turn-IsCatalog continue (read_page digest is_schema policy page l) s
          (read_page-IsTurn page l h) (λ next. rest next s)

    list_pages-IsCatalog :
        (rounds : ℕ) (l : Listing) (s : S)
        → Admitted l.descriptors
        → IsOk IsCatalog (list_pages digest is_schema policy transport rounds l s).0
    unfolding list_pages
    list_pages-IsCatalog zero l s h = tt
    list_pages-IsCatalog (suc rounds) l s h =
        page-IsCatalog (list_pages digest is_schema policy transport rounds) l
          (transport (page_request l) s) h (list_pages-IsCatalog rounds)

  -- A catalog that a listing returns is within the policy's limit of tools and names no tool twice.
  -- Each of its tools has a name, a schema that the checks on depth, references and form accept, and
  -- header annotations that can be read.
  pub list_tools-IsCatalog :
      {S : Type 0} (transport : Transport S) (s : S) (catalog : ToolCatalog)
      → (list_tools digest is_schema policy transport s).0 ≡ ok catalog
      → IsCatalog catalog
  unfolding list_tools
  list_tools-IsCatalog transport s catalog e =
      subst (IsOk IsCatalog) e
        (list_pages-IsCatalog transport policy.max_catalog_pages start s (tt, omega arith))
