-- ===== src/Mcp/Gateway/Sessions.antt =====
-- Any sequence of uses of a gateway.
use agent_verification_proto.Base.{
  String, Bool, true, Option, none, some, List, [], ◌∷◌, ◌++◌, ◌≡◌, refl, ap, ◌∙◌, subst,
  length-append, All, All-append, inl, inr, Result, ok, raise, ◌>>>◌, arith, object-then_pure,
}
use agent_verification_proto.Base.Integers.{ℤ}
use agent_verification_proto.Base.Json.{Value, end}
use agent_verification_proto.Mcp.Values.{McpError, GatewayPolicy, ServerDescription, ToolCatalog}
use agent_verification_proto.Mcp.Catalog.{Request, Transport, plain_request}
use agent_verification_proto.Mcp.Catalog.Pages.{logged, list_tools-logged}
use agent_verification_proto.Mcp.Gateway.{
  Gateway, owns_tool, list_now, discover, verified_catalog, open_with, open_gateway, refresh_from,
  refresh_catalog, call_tool,
}
use agent_verification_proto.Mcp.Server.{check_server, parse_server}
use agent_verification_proto.Mcp.Calls.{Call, ReadyCall, call_request}
use agent_verification_proto.Mcp.Gateway.Recording.{IsLogged}
use agent_verification_proto.Mcp.Gateway.Guarding.{call_tool-IsGuarded, IsGuarded}
use agent_verification_proto.Mcp.Gateway.Logs.{
  calls-append, IsPermitted, IsAllowed, IsSound, listing-All, extend-IsSound, Gains, Gains-refl,
  Gains-trans,
}

-- The methods that a client calls.
pub data Use : Type 0 where
  opening : Use
  calling : Call → Use
  refreshing : Use

module _ {S : Type 0} (digest : Value → Result McpError String) (is_schema : Value → Bool)
    (conforms : Value → Value → Result McpError Bool) (integer_of : String → Option ℤ)
    (base64_utf8 : String → String) (transport : Transport S) where
  abbrev pub State : Type 0
  State = Gateway × (List Request × S)

  -- One use, with its result dropped; what is sent is logged.
  unfoldable pub step : Use → State → State
  step opening state =
      (open_gateway digest is_schema conforms integer_of base64_utf8 (logged transport) state).1
  step (calling c) state =
      (call_tool digest is_schema conforms integer_of base64_utf8 (logged transport) c state).1
  step refreshing state =
      (refresh_catalog digest is_schema conforms integer_of base64_utf8 (logged transport) state).1

  unfoldable pub run : List Use → State → State
  run [] state = state
  run (u ∷ us) state = run us (step u state)

  called-IsSound :
      (policy : GatewayPolicy) (c : Call) (g after : Gateway) (ready : ReadyCall)
      (log : List Request) (s s1 : S)
      → IsSound policy (g, (log, s))
      → owns_tool c.name g ≡ true
      → IsLogged c g after
      → IsSound policy (after, (log ++ call_request c ready ∷ [], s1))
  unfolding owns_tool call_request
  called-IsSound policy c g after ready log s s1 h owned (inl e) =
      extend-IsSound policy g after log (call_request c ready ∷ [])
        (log ++ call_request c ready ∷ []) s s1 h (ap (λ g. g.policy) e) (ap (λ g. g.records) e)
        refl (inr (inr (c.name, refl, rw (← h.0) owned)), tt)
  called-IsSound policy c g after ready log s s1 h owned (inr (made, e, named)) = (
    ap (λ g. g.policy) e ∙ h.0,
    All-append (IsPermitted policy) log (call_request c ready ∷ []) h.1
        (inr (inr (c.name, refl, rw (← h.0) owned)), tt),
    rw e (All-append (IsAllowed policy) g.records (made ∷ []) h.2 (rw (← h.0, named) owned, tt)),
    rw e (
        omega (
          arith,
          h.3,
          length-append g.records (made ∷ []),
          calls-append log (call_request c ready ∷ []),
        )),
  )

  guarded-IsSound :
      (policy : GatewayPolicy) (c : Call) (g : Gateway) (log : List Request) (s : S) (after : State)
      → IsSound policy (g, (log, s))
      → IsGuarded digest is_schema conforms integer_of base64_utf8 transport c g log s after
      → IsSound policy after
  guarded-IsSound policy c g log s (after, (log1, s1)) h
        (listed, (added, e, small, pages), inl (same, kept)) =
      extend-IsSound policy g after log added log1 s s1 h (ap (λ g. g.policy) kept)
        (ap (λ g. g.records) kept) (same ∙ e) (listing-All policy added pages)
  guarded-IsSound policy c g log s (after, (log1, s1)) h
        (listed, (added, e, small, pages), inr (ready, sent, kept, cleared)) =
      let before : IsSound policy (g, (listed, s)) =
        extend-IsSound policy g g log added listed s s h refl refl e
          (listing-All policy added pages) in
      rw sent (called-IsSound policy c g after ready listed s s1 before cleared.0 kept)

  abbrev listed_now : Gateway → List Request × S → Result McpError ToolCatalog × (List Request × S)
  listed_now = list_now digest is_schema conforms integer_of base64_utf8 (logged transport)

  listing-Gains :
      (g : Gateway) (log : List Request) (s : S) → Gains g.policy log (listed_now g (log, s)).1.0
  listing-Gains g log s =
      let (added, e, small, pages) = list_tools-logged digest is_schema g.policy transport log s in
      (added, e, listing-All g.policy added pages)

  checked-Gains :
      (g : Gateway) (check : Result McpError (Unit {0}))
      (accept : ToolCatalog → Result McpError (ServerDescription × ToolCatalog))
      (log : List Request) (s : S)
      → Gains g.policy log
          ((check, (log, s)) >>> λ _.
            λ s1. listed_now g s1 >>> λ catalog. λ s2. (accept catalog, s2)).1.0
  checked-Gains g (raise e) accept log s = Gains-refl g.policy log
  checked-Gains g (ok _) accept log s =
      rw (ap (λ l. l.0) (object-then_pure (listed_now g (log, s)) accept)) (listing-Gains g log s)

  discovered-Gains :
      (g : Gateway) (found : Result McpError ServerDescription × (List Request × S))
      → Gains g.policy found.1.0
          (found
            >>> verified_catalog digest is_schema conforms integer_of base64_utf8
                (logged transport)
                g).1.0
  discovered-Gains g (raise e, (log, s)) = Gains-refl g.policy log
  discovered-Gains g (ok server, (log, s)) = checked-Gains g (check_server server) _ log s

  opening-Gains :
      (g : Gateway) (log : List Request) (s : S)
      → Gains g.policy log
          (discover digest is_schema conforms integer_of base64_utf8 (logged transport) (log, s)
            >>> verified_catalog digest is_schema conforms integer_of base64_utf8
                (logged transport)
                g).1.0
  unfolding logged
  opening-Gains g log s =
      let q = plain_request "server/discover" end in
      let found =
        discover digest is_schema conforms integer_of base64_utf8 (logged transport) (log, s) in
      let sent : found.1.0 ≡ log ++ q ∷ [] =
        ap (λ l. l.0) (object-then_pure (logged transport q (log, s)) parse_server) in
      Gains-trans g.policy log found.1.0 _ (q ∷ [], sent, (inr (inl refl), tt))
        (discovered-Gains g found)

  opened-IsSound :
      (policy : GatewayPolicy) (g : Gateway) (log : List Request) (s : S)
      (opened : Result McpError (ServerDescription × ToolCatalog) × (List Request × S))
      → IsSound policy (g, (log, s))
      → Gains g.policy log opened.1.0
      → IsSound policy
          (open_with digest is_schema conforms integer_of base64_utf8 (logged transport) g opened).1
  opened-IsSound policy g log s (raise e, (log1, s1)) h (added, a, permitted) =
      extend-IsSound policy g g log added log1 s s1 h refl refl a
        (subst (λ p. All (IsPermitted p) added) h.0 permitted)
  opened-IsSound policy g log s (ok (server, catalog), (log1, s1)) h (added, a, permitted) =
      extend-IsSound policy g (record g { server = some server; catalog = some catalog }) log added
        log1 s s1 h refl refl a (subst (λ p. All (IsPermitted p) added) h.0 permitted)

  refresh_from-IsSound :
      (policy : GatewayPolicy) (baseline : Option ToolCatalog) (g : Gateway) (log : List Request)
      (s : S)
      → IsSound policy (g, (log, s))
      → IsSound policy
          (refresh_from digest is_schema conforms integer_of base64_utf8
            (logged transport)
            baseline
            (g, (log, s))).1
  refresh_from-IsSound policy none g log s h = h
  refresh_from-IsSound policy (some catalog) g log s h =
      let (added, a, permitted) = listing-Gains g log s in
      extend-IsSound policy g g log added _ s (listed_now g (log, s)).1.1 h refl refl a
        (subst (λ p. All (IsPermitted p) added) h.0 permitted)

  step-IsSound :
      (policy : GatewayPolicy) (u : Use) (state : State)
      → IsSound policy state
      → IsSound policy (step u state)
  unfolding step open_gateway refresh_catalog
  step-IsSound policy opening (g, (log, s)) h =
      opened-IsSound policy g log s
        (discover digest is_schema conforms integer_of base64_utf8 (logged transport) (log, s)
          >>> verified_catalog digest is_schema conforms integer_of base64_utf8 (logged transport)
              g)
        h (opening-Gains g log s)
  step-IsSound policy (calling c) (g, (log, s)) h =
      guarded-IsSound policy c g log s
        (call_tool digest is_schema conforms integer_of base64_utf8 (logged transport) c
          (g, (log, s))).1
        h (call_tool-IsGuarded digest is_schema conforms integer_of base64_utf8 transport c g log s)
  step-IsSound policy refreshing (g, (log, s)) h = refresh_from-IsSound policy g.catalog g log s h

  -- However a gateway is used and whatever the server answers: every request is for a page, for the
  -- server's description, or names a tool that the policy allows; every record is for an allowed tool;
  -- and there are no more records than upstream calls.
  pub run-IsSound :
      (policy : GatewayPolicy) (uses : List Use) (state : State)
      → IsSound policy state
      → IsSound policy (run uses state)
  unfolding run
  run-IsSound policy [] state h = h
  run-IsSound policy (u ∷ us) state h =
      run-IsSound policy us (step u state) (step-IsSound policy u state h)
