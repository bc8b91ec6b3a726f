-- ===== src/Security/Adapter.antt =====
-- security/subject_adapter.py, CapabilityGuardedSubjectAdapter. The wrapped adapter is a parameter
-- with its own state; its `invoke` is given the guarded gateway, whatever that gateway's state is.
pub mod Release
use agent_verification_proto.Base.{
  String, Bool, true, false, not, Option, none, some, [], ◌&&◌, ◌==◌, List, if◌then◌else◌, Result,
  ok, raise, Method, ◌>>◌,
}
use agent_verification_proto.Base.Dict.{Dict, lookup, insert, erase}
use agent_verification_proto.Base.Json.{Fields, field, end, string}
use agent_verification_proto.Base.Text.{◌<>◌}
use agent_verification_proto.Subject.Values.{
  SubjectError, SubjectDescription, check_description, SubjectHandle, SubjectInvocation,
  SubjectResult,
}
use agent_verification_proto.Security.Policy.{
  PolicyError, Compiled, CapabilityGuardPolicy, bind, guarded_call, release_policy,
}

pub data GuardError : Type 0 where
  unknown_handle other_episode : GuardError
  policy_error : PolicyError → GuardError
  subject_error : SubjectError → GuardError

-- _BoundHandle
pub record BoundHandle : Type 0 where
  pub outer : SubjectHandle
  pub inner : SubjectHandle
  pub episode_id : Option String

-- The object, with the policy and the wrapped adapter's state that it refers to.
pub record GuardedAdapter (S : Type 0) : Type 0 where
  pub inner_state : S
  pub capabilities : Dict (List String)
  pub policy : CapabilityGuardPolicy
  pub handles : Dict BoundHandle
  pub description : SubjectDescription

abbrev pub is_handle : SubjectHandle → SubjectHandle → Bool
is_handle h k =
    (h.handle_id == k.handle_id)
    && (h.adapter_name == k.adapter_name)
    && (h.adapter_version == k.adapter_version)
    && (h.agent_system_digest == k.agent_system_digest)

abbrev pub bound_if : Option BoundHandle → SubjectHandle → Result GuardError BoundHandle
bound_if none handle = raise unknown_handle
bound_if (some bound) handle =
    if is_handle bound.outer handle then ok bound else raise unknown_handle

abbrev pub release_bound : Option String → CapabilityGuardPolicy → CapabilityGuardPolicy
release_bound none policy = policy
release_bound (some episode_id) policy = release_policy episode_id policy

abbrev pub or_subject_error {ℓ} : {A : Type ℓ} → Result SubjectError A → Result GuardError A
or_subject_error (ok a) = ok a
or_subject_error (raise e) = raise (subject_error e)

module _ {S : Type 0} where
  -- _bound
  unfoldable pub bound_handle : SubjectHandle → GuardedAdapter S → Result GuardError BoundHandle
  bound_handle handle a = bound_if (lookup handle.handle_id a.handles) handle

  -- __init__, with the description of the wrapped adapter and the two digests
  unfoldable pub new_guarded :
      S
      → SubjectDescription
      → String
      → Dict (List String)
      → String
      → CapabilityGuardPolicy
      → Result SubjectError (GuardedAdapter S)
  new_guarded inner described inner_digest capabilities instance_digest policy =
      let description : SubjectDescription = record {
        name = "capability-guard(" <> described.name <> ")";
        version = "0.1.0";
        adapter = "capability-guard";
        transport = described.transport;
        protocol_version = "avp.subject/v0.1";
        metadata = field "innerSubjectAdapterDigest" (string inner_digest) (
            field "scenarioInstanceDigest" (string instance_digest)
              (field "enforcement" (string "avp.security/capability-guard-v0.1") end));
      } in
      do
        check_description description
        ok (record {
          inner_state = inner;
          capabilities = capabilities;
          policy = policy;
          handles = [];
          description = description;
        })

  module _ (inner_open : String → S → Result SubjectError SubjectHandle × S) where
    abbrev pub opened_if :
        String
        → String
        → Result SubjectError SubjectHandle
        → Method GuardError (GuardedAdapter S) SubjectHandle
    opened_if drawn identity_digest (raise e) a = (raise (subject_error e), a)
    opened_if drawn identity_digest (ok inner) a =
        let outer : SubjectHandle = record {
          handle_id = "subj_guard_" <> drawn;
          adapter_name = a.description.name;
          adapter_version = a.description.version;
          agent_system_digest = identity_digest;
        } in
        (
          ok outer,
          record a {
            handles =
                insert outer.handle_id (record { outer = outer; inner = inner; episode_id = none })
                  a.handles;
          },
        )

    -- open
    unfoldable pub open_guarded :
        String → String → Method GuardError (GuardedAdapter S) SubjectHandle
    open_guarded drawn identity_digest a =
        let (opened, after) = inner_open identity_digest a.inner_state in
        opened_if drawn identity_digest opened (record a { inner_state = after })

  module _ (inner_release : SubjectHandle → Method SubjectError S (Unit {0})) where
    -- The `finally` of release
    abbrev pub drop_handle : SubjectHandle → Option String → S → GuardedAdapter S → GuardedAdapter S
    drop_handle handle episode_id after a = record a {
      inner_state = after;
      policy = release_bound episode_id a.policy;
      handles = erase handle.handle_id a.handles;
    }

    abbrev pub release_if :
        SubjectHandle
        → Result GuardError BoundHandle
        → Method GuardError (GuardedAdapter S) (Unit {0})
    release_if handle (raise e) a = (raise e, a)
    release_if handle (ok bound) a =
        let (released, after) = inner_release bound.inner a.inner_state in
        (or_subject_error released, drop_handle handle bound.episode_id after a)

    -- release
    unfoldable pub release_guarded : SubjectHandle → Method GuardError (GuardedAdapter S) (Unit {0})
    release_guarded handle a = release_if handle (bound_handle handle a) a

  module _ {A G : Type 0} (digest_of : Compiled → String)
      (inner_invoke : (P : Type 0)
        → (String → Dict String → Method PolicyError P A)
        → SubjectHandle
        → SubjectInvocation
        → Method SubjectError (S × P) SubjectResult)
      (call_tool : String → Dict String → Method PolicyError G A) where
    -- The wrapped adapter's invoke, which is given the guarded gateway
    unfoldable pub run_bound :
        SubjectHandle → SubjectInvocation → Method GuardError (GuardedAdapter S × G) SubjectResult
    run_bound inner invocation (a, g) =
        let (result, (after, (policy, gateway))) =
          inner_invoke (CapabilityGuardPolicy × G)
            (guarded_call digest_of call_tool invocation.episode_id) inner invocation
            (a.inner_state, (a.policy, g)) in
        (or_subject_error result, (record a { inner_state = after; policy = policy }, gateway))

    abbrev pub bind_if :
        BoundHandle
        → SubjectInvocation
        → Result PolicyError (Unit {0})
        → Method GuardError (GuardedAdapter S × G) SubjectResult
    bind_if bound invocation (raise e) (a, g) = (raise (policy_error e), (a, g))
    bind_if bound invocation (ok _) (a, g) = run_bound bound.inner invocation (
      record a {
        handles =
            insert bound.outer.handle_id (record bound { episode_id = some invocation.episode_id })
              a.handles;
      },
      g,
    )

    abbrev pub invoke_for :
        Option String
        → BoundHandle
        → SubjectInvocation
        → Method GuardError (GuardedAdapter S × G) SubjectResult
    invoke_for none bound invocation (a, g) =
        let (decided, policy) = bind invocation.episode_id a.capabilities a.policy in
        bind_if bound invocation decided (record a { policy = policy }, g)
    invoke_for (some episode_id) bound invocation (a, g) =
        if episode_id == invocation.episode_id
        then run_bound bound.inner invocation (a, g)
        else (raise other_episode, (a, g))

    abbrev pub invoke_if :
        Result GuardError BoundHandle
        → SubjectInvocation
        → Method GuardError (GuardedAdapter S × G) SubjectResult
    invoke_if (raise e) invocation (a, g) = (raise e, (a, g))
    invoke_if (ok bound) invocation (a, g) = invoke_for bound.episode_id bound invocation (a, g)

    -- invoke
    unfoldable pub invoke_guarded :
        SubjectHandle → SubjectInvocation → Method GuardError (GuardedAdapter S × G) SubjectResult
    invoke_guarded handle invocation (a, g) = invoke_if (bound_handle handle a) invocation (a, g)
