-- ===== src/Security/Adapter/Release.antt =====
-- What remains after a release of security/subject_adapter.py
use agent_verification_proto.Base.{String, ◌≡◌, sym, subst, Option, none, some, ok, raise, Method}
use agent_verification_proto.Base.Dict.{lookup-erase}
use agent_verification_proto.Subject.Values.{SubjectError, SubjectHandle}
use agent_verification_proto.Security.Policy.{
  Compiled, CapabilityGuardPolicy, authorize, deny, release_policy,
}
use agent_verification_proto.Security.Adapter.{
  unknown_handle, BoundHandle, GuardedAdapter, release_bound, release_if, bound_handle,
  release_guarded,
}
use text.Mathlib.TextPositions.{eq_refl}

-- Every capability of an Episode is denied, since no policy is bound to it.
abbrev pub IsUnbound : (Compiled → String) → Option String → CapabilityGuardPolicy → Type 0
IsUnbound digest_of none policy = Unit
IsUnbound digest_of (some episode_id) policy =
    (actor_id capability : String)
    → authorize digest_of
        (record { episode_id = episode_id; actor_id = actor_id; capability = capability }) policy
      ≡ deny (record { episode_id = episode_id; actor_id = actor_id; capability = capability })
          "POLICY_UNAVAILABLE" none policy

release_bound-IsUnbound :
    (digest_of : Compiled → String) (episode_id : Option String) (policy : CapabilityGuardPolicy)
    → IsUnbound digest_of episode_id (release_bound episode_id policy)
unfolding authorize release_policy
release_bound-IsUnbound digest_of none policy = tt
release_bound-IsUnbound digest_of (some episode_id) policy =
    λ actor_id capability. simp (lookup-erase, eq_refl)

module _ {S : Type 0} (digest_of : Compiled → String)
    (inner_release : SubjectHandle → Method SubjectError S (Unit {0})) where
  released-IsUnbound :
      (handle : SubjectHandle) (a : GuardedAdapter S) (bound : BoundHandle)
      → (bound_handle handle (release_if inner_release handle (ok bound) a).1
          ≡ raise unknown_handle)
        × IsUnbound digest_of bound.episode_id
            (release_if inner_release handle (ok bound) a).1.policy
  unfolding bound_handle
  released-IsUnbound handle a bound =
      (simp (lookup-erase, eq_refl), release_bound-IsUnbound digest_of bound.episode_id a.policy)

  -- Releasing a known handle ends it, whether or not the wrapped adapter raises: the handle is unknown
  -- from then on, and every capability of the Episode that it was bound to is denied.
  pub release_guarded-IsUnbound :
      (handle : SubjectHandle) (a : GuardedAdapter S) (bound : BoundHandle)
      → bound_handle handle a ≡ ok bound
      → (bound_handle handle (release_guarded inner_release handle a).1 ≡ raise unknown_handle)
        × IsUnbound digest_of bound.episode_id (release_guarded inner_release handle a).1.policy
  unfolding release_guarded
  release_guarded-IsUnbound handle a bound h =
      subst
        (λ found.
          (bound_handle handle (release_if inner_release handle found a).1 ≡ raise unknown_handle)
          × IsUnbound digest_of bound.episode_id (release_if inner_release handle found a).1.policy)
        (sym h) (released-IsUnbound handle a bound)
