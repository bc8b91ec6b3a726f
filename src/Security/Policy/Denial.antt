-- ===== src/Security/Policy/Denial.antt =====
-- What the guard lets through, and what a denial records.
use agent_verification_proto.Base.{
  String, ◌≡◌, refl, ◌⊎◌, inl, inr, true, false, Option, none, some, [], ◌∷◌, ◌++◌, Result, ok,
  raise, Method, arith, Bool, Bool-cases,
}
use agent_verification_proto.Base.Dict.{Dict, lookup, lookup-insert_self}
use agent_verification_proto.Security.Policy.{
  SubjectCapabilityRequest, CapabilityDenialRecord, PolicyError, execution_denied, Compiled,
  CapabilityGuardPolicy, denial, denial_records, deny, is_allowed, or_none, authorize_by, authorize,
  call_if, guarded_call,
}

-- A decision of the guard: the request is granted by the Episode's policy and nothing changes, or it
-- is refused, with one more record of the request at the end of the Episode's denials.
abbrev pub IsDecided :
    SubjectCapabilityRequest
    → Option Compiled
    → CapabilityGuardPolicy
    → Result PolicyError (Unit {0}) × CapabilityGuardPolicy
    → Type 0
IsDecided request bound p (result, after) =
    ((result ≡ ok tt)
      × (after ≡ p)
      × ((compiled : Compiled) × (bound ≡ some compiled)
          × (is_allowed (lookup request.actor_id compiled) request.capability ≡ true)))
    ⊎ ((entry : CapabilityDenialRecord) × (result
          ≡ raise (execution_denied entry.code entry.actor_id entry.capability entry.policy_digest))
        × (entry.actor_id ≡ request.actor_id)
        × (entry.capability ≡ request.capability)
        × (after.allowed ≡ p.allowed)
        × (denial_records request.episode_id after
            ≡ denial_records request.episode_id p ++ entry ∷ [])
        × ((compiled : Compiled)
            → bound ≡ some compiled
            → is_allowed (lookup request.actor_id compiled) request.capability ≡ false))

module _ (digest_of : Compiled → String) where
  deny-records :
      (request : SubjectCapabilityRequest) (code : String) (digest : Option String)
      (p : CapabilityGuardPolicy)
      → denial_records request.episode_id (deny request code digest p).1
        ≡ denial_records request.episode_id p ++ denial request code digest ∷ []
  unfolding denial_records deny
  deny-records request code digest p =
      rw
        (lookup-insert_self request.episode_id
          (or_none (lookup request.episode_id p.denials) ++ denial request code digest ∷ [])
          p.denials)
        refl

  authorize_by-IsDecided :
      (bound : Option Compiled) (request : SubjectCapabilityRequest) (p : CapabilityGuardPolicy)
      → IsDecided request bound p (authorize_by digest_of bound request p)
  unfolding deny
  authorize_by-IsDecided none request p = inr (
    denial request "POLICY_UNAVAILABLE" none,
    refl,
    refl,
    refl,
    refl,
    deny-records request "POLICY_UNAVAILABLE" none p,
    λ compiled h. ground arith,
  )
  authorize_by-IsDecided (some compiled) request p =
      elim (Bool-cases (is_allowed (lookup request.actor_id compiled) request.capability)) [
        | inl granted ↦ rw granted (inl (refl, refl, (compiled, refl, granted)))
        | inr refused ↦ rw refused (
            inr (
              denial request "CAPABILITY_DENIED" (some (digest_of compiled)),
              refl,
              refl,
              refl,
              refl,
              deny-records request "CAPABILITY_DENIED" (some (digest_of compiled)) p,
              λ other h. ground arith,
            ))
      ]

  -- The guard denies by default: a request passes exactly when a policy is bound for its Episode and
  -- lists the capability for its actor, and then the policy stays as it was; every other request is
  -- refused, and one record of it is appended to the denials of its Episode.
  pub authorize-IsDecided :
      (request : SubjectCapabilityRequest) (p : CapabilityGuardPolicy)
      → IsDecided request (lookup request.episode_id p.allowed) p (authorize digest_of request p)
  unfolding authorize
  authorize-IsDecided request p =
      authorize_by-IsDecided (lookup request.episode_id p.allowed) request p

  -- The policy of the Episode lists the capability for the Subject.
  abbrev pub is_granted : Option Compiled → String → Bool
  is_granted none name = false
  is_granted (some compiled) name = is_allowed (lookup "subject" compiled) name

  abbrev pub subject_request : String → String → SubjectCapabilityRequest
  subject_request episode_id name = record {
    episode_id = episode_id;
    actor_id = "subject";
    capability = name;
  }

  module _ {S A : Type 0} (inner : String → Dict String → Method PolicyError S A) where
    -- A granted call is the inner gateway's, with the policy as it was. One that is not granted leaves
    -- the inner gateway as it was and raises the denial, which is the last record of the Episode.
    abbrev pub IsRouted :
        Bool
        → String
        → String
        → Dict String
        → CapabilityGuardPolicy
        → S
        → Result PolicyError A × (CapabilityGuardPolicy × S)
        → Type 0
    IsRouted true episode_id name arguments p s routed =
        routed ≡ ((inner name arguments s).0, (p, (inner name arguments s).1))
    IsRouted false episode_id name arguments p s (result, (after, left)) =
        (left ≡ s)
        × (after.allowed ≡ p.allowed)
        × ((code : String) × (digest : Option String) × (result
              ≡ raise (execution_denied code "subject" name digest))
            × (denial_records episode_id after
                ≡ denial_records episode_id p
                  ++ denial (subject_request episode_id name) code digest ∷ []))

    denied-IsRouted :
        (episode_id name code : String) (digest : Option String) (arguments : Dict String)
        (p : CapabilityGuardPolicy) (s : S)
        → IsRouted false episode_id name arguments p s (
            call_if digest_of inner name arguments
              (deny (subject_request episode_id name) code digest p).0
              ((deny (subject_request episode_id name) code digest p).1, s))
    unfolding deny
    denied-IsRouted episode_id name code digest arguments p s = (
      refl,
      refl,
      (code, digest, refl, deny-records (subject_request episode_id name) code digest p),
    )

    authorized-IsRouted :
        (bound : Option Compiled) (episode_id name : String) (arguments : Dict String)
        (p : CapabilityGuardPolicy) (s : S)
        → IsRouted (is_granted bound name) episode_id name arguments p s (
            call_if digest_of inner name arguments
              (authorize_by digest_of bound (subject_request episode_id name) p).0
              ((authorize_by digest_of bound (subject_request episode_id name) p).1, s))
    authorized-IsRouted none episode_id name arguments p s =
        denied-IsRouted episode_id name "POLICY_UNAVAILABLE" none arguments p s
    authorized-IsRouted (some compiled) episode_id name arguments p s =
        elim (Bool-cases (is_allowed (lookup "subject" compiled) name)) [
          | inl granted ↦ rw granted refl
          | inr refused ↦ rw refused (
              denied-IsRouted episode_id name "CAPABILITY_DENIED" (some (digest_of compiled))
                arguments p s)
        ]

    -- A tool call of a Subject whose Episode has a policy that lists the tool is a call of the inner
    -- gateway, with its result and its changes, and leaves the policy as it was. Every other call
    -- leaves the inner gateway as it was, raises a denial that names the tool, and appends one record of
    -- it to the denials of the Episode.
    pub guarded_call-IsRouted :
        (episode_id name : String) (arguments : Dict String) (p : CapabilityGuardPolicy) (s : S)
        → IsRouted
            (is_granted (lookup episode_id p.allowed) name)
            episode_id
            name
            arguments
            p
            s
            (guarded_call digest_of inner episode_id name arguments (p, s))
    unfolding guarded_call authorize
    guarded_call-IsRouted episode_id name arguments p s =
        authorized-IsRouted (lookup episode_id p.allowed) episode_id name arguments p s
