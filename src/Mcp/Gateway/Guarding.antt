-- ===== src/Mcp/Gateway/Guarding.antt =====
-- What reaches the server: an upstream call is cleared first.
use mathlib.Core.List.{append-nil}
use agent_verification_proto.Base.{
  ◌≤◌, String, Bool, true, false, Option, some, List, [], ◌∷◌, ◌++◌, ◌≡◌, ◌==◌, refl, sym, ap,
  eq_iff, length, All, ◌⊎◌, inl, inr, Result, ok, raise, is_ok, not, ◌>>=◌, raise_if, ◌>>>◌, arith,
  object-then_pure,
}
use agent_verification_proto.Base.Integers.{ℤ}
use agent_verification_proto.Base.Json.{Value, obj}
use agent_verification_proto.Mcp.Values.{
  McpError, schema_drift_error, ToolDescriptor, ToolCatalog, find_tool, catalog_digest,
}
use agent_verification_proto.Mcp.Catalog.{Request, Transport}
use agent_verification_proto.Mcp.Catalog.Pages.{logged, IsListing, list_tools-logged}
use agent_verification_proto.Mcp.Gateway.Recording.{IsLogged, settle-IsLogged}
use agent_verification_proto.Mcp.Gateway.{
  Gateway, owns_tool, find_baseline, check_drift, prepare, list_now, list_if, ready_call, send,
  call_tool,
}
use agent_verification_proto.Mcp.Calls.{Call, ReadyCall, call_request}

find_baseline-IsFound :
    (c : Call) (g : Gateway) (catalog : ToolCatalog) (baseline : ToolDescriptor)
    → find_baseline c g ≡ ok (catalog, baseline)
    → (owns_tool c.name g ≡ true)
      × (g.catalog ≡ some catalog)
      × (find_tool c.name catalog.tools ≡ some baseline)
unfolding find_baseline
find_baseline-IsFound c g catalog baseline e = ground (arith, e)

agreeing :
    (m n : Result McpError String)
    → is_ok (m >>= λ now. n >>= λ before. raise_if (not (now == before)) schema_drift_error) ≡ true
    → (is_ok n ≡ true) × (m ≡ n)
agreeing (ok a) (ok b) h = ground (arith, eq_iff a b, h)
agreeing (ok a) (raise e) h = absurd (ground (arith, h))
agreeing (raise e) n h = absurd (ground (arith, h))

module _ (digest : Value → Result McpError String) (is_schema : Value → Bool)
    (conforms : Value → Value → Result McpError Bool) (integer_of : String → Option ℤ)
    (base64_utf8 : String → String) where
  -- Both catalogs have the same digest.
  abbrev pub IsSameCatalog : ToolCatalog → ToolCatalog → Type 0
  IsSameCatalog active catalog =
      (is_ok (catalog_digest digest catalog) ≡ true)
      × (catalog_digest digest active ≡ catalog_digest digest catalog)

  abbrev IsPrepared : Call → ToolCatalog → ToolDescriptor → ToolCatalog → ReadyCall → Type 0
  IsPrepared c catalog baseline active ready =
      (ready.baseline_catalog ≡ catalog)
      × (ready.baseline ≡ baseline)
      × IsSameCatalog active catalog
      × (conforms (obj baseline.input_schema) (obj c.arguments) ≡ ok true)

  prepare-IsPrepared :
      (c : Call) (catalog : ToolCatalog) (baseline : ToolDescriptor) (active : ToolCatalog)
      (ready : ReadyCall)
      → prepare digest is_schema conforms integer_of base64_utf8 c catalog baseline active
        ≡ ok ready
      → IsPrepared c catalog baseline active ready
  unfolding prepare check_drift
  prepare-IsPrepared c catalog baseline active ready e =
      ground (arith, e, agreeing (catalog_digest digest active) (catalog_digest digest catalog))

  module _ {S : Type 0} (transport : Transport S) where
    -- The tool is allowed and in the baseline, the arguments conform to its schema, and the catalog
    -- that this call listed has the digest of the baseline.
    abbrev pub IsCleared : Call → Gateway → S → ReadyCall → Type 0
    IsCleared c g s ready =
        (owns_tool c.name g ≡ true)
        × (g.catalog ≡ some ready.baseline_catalog)
        × (find_tool c.name ready.baseline_catalog.tools ≡ some ready.baseline)
        × (conforms (obj ready.baseline.input_schema) (obj c.arguments) ≡ ok true)
        × ((active : ToolCatalog) × ((list_if digest is_schema conforms integer_of base64_utf8
                transport g.policy.detect_schema_drift ready.baseline_catalog g s).0
              ≡ ok active)
            × IsSameCatalog active ready.baseline_catalog)

    abbrev listed_if : ToolCatalog → Gateway → S → Result McpError ToolCatalog × S
    listed_if catalog g s =
        list_if digest is_schema conforms integer_of base64_utf8 transport
          g.policy.detect_schema_drift catalog g s

    listed-IsCleared :
        (c : Call) (g : Gateway) (s : S) (ready : ReadyCall) (catalog : ToolCatalog)
        (baseline : ToolDescriptor) (listed : Result McpError ToolCatalog × S)
        → find_baseline c g ≡ ok (catalog, baseline)
        → listed_if catalog g s ≡ listed
        → (listed >>> λ active. λ s2. (
          prepare digest is_schema conforms integer_of base64_utf8 c catalog baseline active,
          s2,
        )).0
          ≡ ok ready
        → IsCleared c g s ready
    listed-IsCleared c g s ready catalog baseline (raise e, after) found l p =
        absurd (ground (arith, p))
    listed-IsCleared c g s ready catalog baseline (ok active, after) found l p =
        let (same_catalog, same, drift, fits) =
          prepare-IsPrepared c catalog baseline active ready p in
        let (owned, opened, present) = find_baseline-IsFound c g catalog baseline found in
        (
          owned,
          cc (opened, same_catalog),
          cc (present, same_catalog, same),
          cc (fits, same),
          (
            active,
            cc (ap (λ r. r.0) l, same_catalog),
            (cc (drift.0, same_catalog), cc (drift.1, same_catalog)),
          ),
        )

    found-IsCleared :
        (c : Call) (g : Gateway) (s : S) (ready : ReadyCall)
        (found : Result McpError (ToolCatalog × ToolDescriptor))
        → find_baseline c g ≡ found
        → ((found, s) >>> λ pair. λ s1. listed_if pair.0 g s1 >>> λ active. λ s2.
            (prepare digest is_schema conforms integer_of base64_utf8 c pair.0 pair.1 active, s2)).0
          ≡ ok ready
        → IsCleared c g s ready
    found-IsCleared c g s ready (raise e) found p = absurd (ground (arith, p))
    found-IsCleared c g s ready (ok (catalog, baseline)) found p =
        listed-IsCleared c g s ready catalog baseline (listed_if catalog g s) found refl p

    ready_call-IsCleared :
        (c : Call) (g : Gateway) (s : S) (ready : ReadyCall)
        → (ready_call digest is_schema conforms integer_of base64_utf8 transport c g s).0 ≡ ok ready
        → IsCleared c g s ready
    unfolding ready_call
    ready_call-IsCleared c g s ready e = found-IsCleared c g s ready (find_baseline c g) refl e

  module _ {S : Type 0} (transport : Transport S) where
    -- Requests for pages, within the limit of the policy.
    abbrev pub IsListed : Gateway → List Request → List Request → Type 0
    IsListed g before after =
        (added : List Request) × (after ≡ before ++ added)
        × (length added ≤ g.policy.max_catalog_pages)
        × All IsListing added

    same-IsListed : (g : Gateway) (log : List Request) → IsListed g log log
    same-IsListed g log = ([], sym (append-nil log), omega arith, tt)

    found-IsListed :
        (c : Call) (g : Gateway) (before : List Request) (s : S) (drift : Bool)
        (found : Result McpError (ToolCatalog × ToolDescriptor))
        → IsListed g before
            ((found, (before, s)) >>> λ pair. λ s1.
              list_if digest is_schema conforms integer_of base64_utf8
                (logged transport)
                drift
                pair.0
                g
                s1
              >>> λ active. λ s2. (
                prepare digest is_schema conforms integer_of base64_utf8 c pair.0 pair.1 active,
                s2,
              )).1.0
    found-IsListed c g before s drift (raise e) = same-IsListed g before
    found-IsListed c g before s false (ok (catalog, baseline)) = same-IsListed g before
    found-IsListed c g before s true (ok (catalog, baseline)) =
        let same =
          object-then_pure
            (list_now digest is_schema conforms integer_of base64_utf8 (logged transport) g
              (before, s))
            (prepare digest is_schema conforms integer_of base64_utf8 c catalog baseline) in
        rw (ap (λ l. l.0) same) (list_tools-logged digest is_schema g.policy transport before s)

    -- Nothing but pages is requested before the upstream call.
    ready_call-IsListed :
        (c : Call) (g : Gateway) (before : List Request) (s : S)
        → IsListed g before
            (ready_call digest is_schema conforms integer_of base64_utf8
              (logged transport)
              c
              g
              (before, s)).1.0
    unfolding ready_call
    ready_call-IsListed c g before s =
        found-IsListed c g before s g.policy.detect_schema_drift (find_baseline c g)

    -- One call: pages, and at most one upstream call behind them, which is cleared. Without it there
    -- is no record.
    abbrev pub IsGuarded : Call → Gateway → List Request → S → Gateway × (List Request × S) → Type 0
    IsGuarded c g before s after =
        (listed : List Request) × IsListed g before listed
        × (((after.1.0 ≡ listed) × (after.0 ≡ g))
            ⊎ ((ready : ReadyCall) × (after.1.0 ≡ listed ++ call_request c ready ∷ [])
                × IsLogged c g after.0
                × IsCleared (logged transport) c g (before, s) ready))

    send-IsGuarded :
        (c : Call) (g : Gateway) (before : List Request) (s : S)
        (readied : Result McpError ReadyCall × (List Request × S))
        → ready_call digest is_schema conforms integer_of base64_utf8
            (logged transport)
            c
            g
            (before, s)
          ≡ readied
        → IsListed g before readied.1.0
        → IsGuarded c g before s
            (send digest is_schema conforms integer_of base64_utf8 (logged transport) c readied g).1
    unfolding logged
    send-IsGuarded c g before s (raise e, (log, s1)) r h = (log, h, inl (refl, refl))
    send-IsGuarded c g before s (ok ready, (log, s1)) r h = (
      log,
      h,
      inr (
        ready,
        refl,
        settle-IsLogged digest is_schema conforms integer_of base64_utf8 c ready
            (transport (call_request c ready) s1).0 g,
        ready_call-IsCleared (logged transport) c g (before, s) ready (ap (λ p. p.0) r),
      ),
    )

    -- Whatever the server answers, a call of a tool requests pages of the catalog, and at most once the
    -- tool itself. The tool is then one that the policy allows and the baseline has, the arguments
    -- conform to its input schema, and the catalog that was listed for this call has the digest of the
    -- baseline. Without that request the gateway is left as it was; with it, it gains at most one
    -- record, for that tool, and changes in nothing else.
    pub call_tool-IsGuarded :
        (c : Call) (g : Gateway) (before : List Request) (s : S)
        → IsGuarded c g before s
            (call_tool digest is_schema conforms integer_of base64_utf8
              (logged transport)
              c
              (g, (before, s))).1
    unfolding call_tool
    call_tool-IsGuarded c g before s =
        send-IsGuarded c g before s
          (ready_call digest is_schema conforms integer_of base64_utf8 (logged transport) c g
            (before, s))
          refl (ready_call-IsListed c g before s)
