-- ===== src/Security/Policy.antt =====
-- security/capability_policy.py, CapabilityGuardPolicy, and `_GuardedGateway.call_tool` of
-- security/subject_adapter.py. `digest_of` is the digest of a compiled policy, over canonical JSON
-- and SHA-256.
pub mod Denial
use agent_verification_proto.Base.{
  String, Bool, true, false, not, Option, none, some, List, [], ◌∷◌, ◌++◌, ◌==◌, contains, is_some,
  if◌then◌else◌, Result, ok, raise, Method,
}
use agent_verification_proto.Base.Text.{is_empty}
use agent_verification_proto.Base.Dict.{Dict, lookup, insert, erase}
use agent_verification_proto.Environment.Adapter.{tool_names}

pub record SubjectCapabilityRequest : Type 0 where
  pub episode_id : String
  pub actor_id : String
  pub capability : String

pub record CapabilityDenialRecord : Type 0 where
  pub episode_id : String
  pub actor_id : String
  pub capability : String
  pub code : String
  pub policy_digest : Option String

pub data PolicyError : Type 0 where
  invalid_binding : PolicyError
  execution_denied :
      (code actor_id capability : String) (policy_digest : Option String) → PolicyError

-- The tools of each actor.
abbrev pub Compiled : Type 0
Compiled = Dict (List String)

pub record CapabilityGuardPolicy : Type 0 where
  pub allowed : Dict Compiled
  pub denials : Dict (List CapabilityDenialRecord)

unfoldable pub new_policy : CapabilityGuardPolicy
new_policy = record { allowed = []; denials = [] }

-- The loop of `bind` over `capabilities.items()`, of which the `include` lists are read.
abbrev compile : Compiled → Dict (List String) → Compiled
compile compiled [] = compiled
compile compiled ((actor_id, include) ∷ rest) =
    compile (insert actor_id (tool_names include) compiled) rest

unfoldable pub bind :
    String → Dict (List String) → Method PolicyError CapabilityGuardPolicy (Unit {0})
bind episode_id capabilities p =
    if is_empty episode_id
    then (raise invalid_binding, p)
    else if is_some (lookup episode_id p.allowed)
    then (raise invalid_binding, p)
    else (
      ok tt,
      record p {
        allowed = insert episode_id (compile [] capabilities) p.allowed;
        denials = insert episode_id [] p.denials;
      },
    )

abbrev or_none : Option (List CapabilityDenialRecord) → List CapabilityDenialRecord
or_none none = []
or_none (some denials) = denials

unfoldable pub denial_records : String → CapabilityGuardPolicy → List CapabilityDenialRecord
denial_records episode_id p = or_none (lookup episode_id p.denials)

abbrev pub denial : SubjectCapabilityRequest → String → Option String → CapabilityDenialRecord
denial request code policy_digest = record {
  episode_id = request.episode_id;
  actor_id = request.actor_id;
  capability = request.capability;
  code = code;
  policy_digest = policy_digest;
}

-- _deny
unfoldable pub deny :
    SubjectCapabilityRequest
    → String
    → Option String
    → Method PolicyError CapabilityGuardPolicy (Unit {0})
deny request code policy_digest p = (
  raise (execution_denied code request.actor_id request.capability policy_digest),
  record p {
    denials =
        insert request.episode_id
          (or_none (lookup request.episode_id p.denials) ++ denial request code policy_digest ∷ [])
          p.denials;
  },
)

abbrev pub is_allowed : Option (List String) → String → Bool
is_allowed none capability = false
is_allowed (some tools) capability = contains capability tools

module _ (digest_of : Compiled → String) where
  abbrev pub authorize_by :
      Option Compiled
      → SubjectCapabilityRequest
      → Method PolicyError CapabilityGuardPolicy (Unit {0})
  authorize_by none request p = deny request "POLICY_UNAVAILABLE" none p
  authorize_by (some compiled) request p =
      if not (is_allowed (lookup request.actor_id compiled) request.capability)
      then deny request "CAPABILITY_DENIED" (some (digest_of compiled)) p
      else (ok tt, p)

  unfoldable pub authorize :
      SubjectCapabilityRequest → Method PolicyError CapabilityGuardPolicy (Unit {0})
  authorize request p = authorize_by (lookup request.episode_id p.allowed) request p

  module _ {S A : Type 0} (inner : String → Dict String → Method PolicyError S A) where
    abbrev pub call_if :
        String
        → Dict String
        → Result PolicyError (Unit {0})
        → Method PolicyError (CapabilityGuardPolicy × S) A
    call_if name arguments (raise e) (p, s) = (raise e, (p, s))
    call_if name arguments (ok _) (p, s) =
        let (result, after) = inner name arguments s in (result, (p, after))

    -- _GuardedGateway.call_tool, for the gateway of an Episode over an inner gateway with state `s`.
    unfoldable pub guarded_call :
        String → String → Dict String → Method PolicyError (CapabilityGuardPolicy × S) A
    guarded_call episode_id name arguments (p, s) =
        let (decided, after) =
          authorize (record { episode_id = episode_id; actor_id = "subject"; capability = name })
            p in
        call_if name arguments decided (after, s)

unfoldable pub release_policy : String → CapabilityGuardPolicy → CapabilityGuardPolicy
release_policy episode_id p = record p {
  allowed = erase episode_id p.allowed;
  denials = erase episode_id p.denials;
}
