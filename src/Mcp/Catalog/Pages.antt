-- ===== src/Mcp/Catalog/Pages.antt =====
-- How many requests a listing makes, and how large the catalog becomes.
use mathlib.Core.List.{append_assoc, append-nil}
use agent_verification_proto.Base.{
  ℕ, zero, suc, ◌+◌, ◌≤◌, String, Bool, List, [], ◌∷◌, ◌++◌, ◌≡◌, refl, sym, ap, subst, ◌∙◌, length,
  length-append, All, All-append, Result, ok, raise, Method, ◌>>>◌, arith,
}
use agent_verification_proto.Base.Json.{Value, Fields}
use agent_verification_proto.Mcp.Values.{McpError, GatewayPolicy, ToolCatalog}
use agent_verification_proto.Mcp.Catalog.{
  Request, Transport, Listing, start, page_request, Turn, again, finished, read_page, take_turn,
  list_pages, list_tools,
}

-- A transport that writes down what is asked of it.
unfoldable pub logged : {S : Type 0} → Transport S → Transport (List Request × S)
logged transport q (log, s) =
    let (answer, after) = transport q s in (answer, (log ++ q ∷ [], after))

abbrev pub IsListing : Request → Type 0
IsListing q = q.method ≡ "tools/list"

-- What a log has grown by: `n` requests for pages
abbrev pub IsGrown : {S : Type 0} → List Request → ℕ → List Request × S → Type 0
IsGrown before n logging =
    (added : List Request) × (logging.0 ≡ before ++ added)
    × (length added ≡ n)
    × All IsListing added

module _ {S : Type 0} (transport : Transport S) (P : ℕ → S → Type 0) where
  -- Each request for a page takes `P n` to `P (n + 1)`.
  abbrev pub IsCounted : Type 0
  IsCounted = (n : ℕ) (q : Request) (s : S) → IsListing q → P n s → P (n + 1) (transport q s).1

  abbrev pub Within : ℕ → ℕ → S → Type 0
  Within rounds n s = (m : ℕ) × (m ≤ rounds) × P (n + m) s

Within-suc :
    {S : Type 0} (transport : Transport S) (P : ℕ → S → Type 0) (rounds n : ℕ) (s : S)
    → Within transport P rounds (n + 1) s
    → Within transport P (suc rounds) n s
Within-suc transport P rounds n s (m, small, h) =
    (suc m, omega arith, subst (λ k. P k s) (omega arith) h)

Within-here :
    {S : Type 0} (transport : Transport S) (P : ℕ → S → Type 0) (rounds n : ℕ) (s : S)
    → P n s
    → Within transport P rounds n s
Within-here transport P rounds n s h = (0, omega arith, subst (λ k. P k s) (omega arith) h)

take_turn-Within :
    {S : Type 0} (transport : Transport S) (P : ℕ → S → Type 0) (rounds n : ℕ)
    (continue : Listing → Method McpError S ToolCatalog) (turn : Result McpError Turn) (s : S)
    → ((l : Listing) → Within transport P rounds n (continue l s).1)
    → P n s
    → Within transport P rounds n (take_turn continue turn s).1
take_turn-Within transport P rounds n continue (raise e) s rest h =
    Within-here transport P rounds n s h
take_turn-Within transport P rounds n continue (ok (finished catalog)) s rest h =
    Within-here transport P rounds n s h
take_turn-Within transport P rounds n continue (ok (again l)) s rest h = rest l

logged-IsCounted :
    {S : Type 0} (transport : Transport S) (before : List Request)
    → IsCounted (logged transport) (IsGrown before)
unfolding logged
logged-IsCounted transport before n q (log, s) is_listing (added, e, size, h) = (
  added ++ q ∷ [],
  ap (λ l. l ++ q ∷ []) e ∙ append_assoc before added (q ∷ []),
  omega (arith, size, length-append added (q ∷ [])),
  All-append IsListing added (q ∷ []) h (is_listing, tt),
)

module _ (digest : Value → Result McpError String) (is_schema : Value → Bool)
    (policy : GatewayPolicy) where
  page-Within :
      {S : Type 0} (transport : Transport S) (P : ℕ → S → Type 0) (rounds n : ℕ) (l : Listing)
      (answered : Result McpError Fields × S)
      → ((l : Listing) (s : S)
          → P n s
          → Within transport P rounds n (list_pages digest is_schema policy transport rounds l s).1)
      → P n answered.1
      → Within transport P rounds n
          (answered >>> λ page.
            take_turn
              (list_pages digest is_schema policy transport rounds)
              (read_page digest is_schema policy page l)).1
  page-Within transport P rounds n l (raise e, s) rest h = Within-here transport P rounds n s h
  page-Within transport P rounds n l (ok page, s) rest h =
      take_turn-Within transport P rounds n (list_pages digest is_schema policy transport rounds)
        (read_page digest is_schema policy page l) s (λ next. rest next s h) h

  -- The rule of the loop.
  list_pages-Within :
      {S : Type 0} (transport : Transport S) (P : ℕ → S → Type 0)
      → IsCounted transport P
      → (rounds n : ℕ) (l : Listing) (s : S) → P n s
      → Within transport P rounds n (list_pages digest is_schema policy transport rounds l s).1
  unfolding list_pages
  list_pages-Within transport P step zero n l s h = Within-here transport P 0 n s h
  list_pages-Within transport P step (suc rounds) n l s h =
      Within-suc transport P rounds n
        (list_pages digest is_schema policy transport (suc rounds) l s).1
        (page-Within transport P rounds (n + 1) l (transport (page_request l) s)
          (list_pages-Within transport P step rounds (n + 1)) (step n (page_request l) s refl h))

  pub list_tools-Within :
      {S : Type 0} (transport : Transport S) (P : ℕ → S → Type 0)
      → IsCounted transport P
      → (s : S) → P 0 s
      → Within transport P policy.max_catalog_pages 0
          (list_tools digest is_schema policy transport s).1
  unfolding list_tools
  list_tools-Within transport P step s h =
      list_pages-Within transport P step policy.max_catalog_pages 0 start s h

  -- A listing adds nothing but requests for pages to a log.
  pub list_tools-logged :
      {S : Type 0} (transport : Transport S) (before : List Request) (s : S)
      → (added : List Request) × ((list_tools digest is_schema policy
            (logged transport)
            (before, s)).1.0
          ≡ before ++ added)
        × (length added ≤ policy.max_catalog_pages)
        × All IsListing added
  list_tools-logged transport before s =
      let (m, small, grown) =
        list_tools-Within (logged transport) (IsGrown before) (logged-IsCounted transport before)
          (before, s) ([], sym (append-nil before), refl, tt) in
      let (added, e, size, h) = grown in (added, e, omega (arith, size), h)

  -- Nothing but requests for pages is made of the transport, and no more of them than the policy's
  -- limit of pages, whatever the server answers.
  pub list_tools_bounded :
      {S : Type 0} (transport : Transport S) (s : S)
      → (length (list_tools digest is_schema policy (logged transport) ([], s)).1.0
          ≤ policy.max_catalog_pages)
        × All IsListing (list_tools digest is_schema policy (logged transport) ([], s)).1.0
  list_tools_bounded transport s =
      let (added, e, small, h) = list_tools-logged transport [] s in (rw e small, rw e h)
