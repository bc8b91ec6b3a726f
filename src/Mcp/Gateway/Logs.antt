-- ===== src/Mcp/Gateway/Logs.antt =====
-- The requests that a gateway sent, beside its records.
use mathlib.Core.List.{append_assoc, append-nil}
use agent_verification_proto.Base.{
  ℕ, suc, ◌+◌, ◌≤◌, String, true, some, List, [], ◌∷◌, ◌++◌, ◌≡◌, refl, sym, ap, ◌∙◌, ◌==◌,
  contains, length, All, All-append, if◌then◌else◌, ◌⊎◌, inl, arith,
}
use agent_verification_proto.Mcp.Values.{GatewayPolicy, CallRecord}
use agent_verification_proto.Mcp.Catalog.{Request}
use agent_verification_proto.Mcp.Catalog.Pages.{IsListing}
use agent_verification_proto.Mcp.Gateway.{Gateway}

-- How many upstream calls a log holds.
abbrev pub calls : List Request → ℕ
calls [] = 0
calls (q ∷ qs) = if q.method == "tools/call" then suc (calls qs) else calls qs

pub calls-append : (qs rs : List Request) → calls (qs ++ rs) ≡ calls qs + calls rs
calls-append [] rs = omega arith
calls-append (q ∷ qs) rs = ground (arith, calls-append qs rs)

calls-listing : (qs : List Request) → All IsListing qs → calls qs ≡ 0
calls-listing [] h = refl
calls-listing (q ∷ qs) h = rw h.0 (calls-listing qs h.1)

-- What may be sent under a policy: no call of a tool that is not allowed.
abbrev pub IsPermitted : GatewayPolicy → Request → Type 0
IsPermitted policy q =
    IsListing q
    ⊎ ((q.method ≡ "server/discover")
        ⊎ ((tool : String) × (q.name ≡ some tool) × (contains tool policy.allowed_tools ≡ true)))

abbrev pub IsAllowed : GatewayPolicy → CallRecord → Type 0
IsAllowed policy r = contains r.tool_name policy.allowed_tools ≡ true

-- The policy stays, every request is permitted, every record is for an allowed tool, and there are no
-- more records than upstream calls.
abbrev pub IsSound : {S : Type 0} → GatewayPolicy → Gateway × (List Request × S) → Type 0
IsSound policy state =
    (state.0.policy ≡ policy)
    × All (IsPermitted policy) state.1.0
    × All (IsAllowed policy) state.0.records
    × (length state.0.records ≤ calls state.1.0)

pub listing-All :
    (policy : GatewayPolicy) (qs : List Request) → All IsListing qs → All (IsPermitted policy) qs
listing-All policy [] h = tt
listing-All policy (q ∷ qs) h = (inl h.0, listing-All policy qs h.1)

-- What a log gains of requests that are permitted whatever the policy allows.
abbrev pub Gains : GatewayPolicy → List Request → List Request → Type 0
Gains policy log log1 =
    (added : List Request) × (log1 ≡ log ++ added) × All (IsPermitted policy) added

pub Gains-refl : (policy : GatewayPolicy) (log : List Request) → Gains policy log log
Gains-refl policy log = ([], sym (append-nil log), tt)

pub Gains-trans :
    (policy : GatewayPolicy) (log log1 log2 : List Request)
    → Gains policy log log1
    → Gains policy log1 log2
    → Gains policy log log2
Gains-trans policy log log1 log2 (added, e, h) (more, f, k) = (
  added ++ more,
  f ∙ ap (λ l. l ++ more) e ∙ append_assoc log added more,
  All-append (IsPermitted policy) added more h k,
)

module _ {S : Type 0} where
  -- More requests, none of them an upstream call, and the same records.
  pub extend-IsSound :
      (policy : GatewayPolicy) (g after : Gateway) (log added log1 : List Request) (s s1 : S)
      → IsSound policy (g, (log, s))
      → after.policy ≡ g.policy
      → after.records ≡ g.records
      → log1 ≡ log ++ added
      → All (IsPermitted policy) added
      → IsSound policy (after, (log1, s1))
  extend-IsSound policy g after log added log1 s s1 h p r e permitted = (
    p ∙ h.0,
    rw e (All-append (IsPermitted policy) log added h.1 permitted),
    rw r h.2,
    rw (r, e) (omega (arith, h.3, calls-append log added)),
  )
