-- ===== src/Tests/Subjects.antt =====
-- A guarded adapter whose wrapped adapter cannot be reached any more.
use agent_verification_proto.Base.{ℕ, String, ◌≡◌, refl, suc, some, [], ◌∷◌, ok, raise, Method}
use agent_verification_proto.Base.Dict.{lookup}
use agent_verification_proto.Base.Json.{end}
use agent_verification_proto.Subject.Values.{SubjectError, subject_transport, SubjectHandle}
use agent_verification_proto.Security.Policy.{Compiled, bind, new_policy}
use agent_verification_proto.Security.Adapter.{
  unknown_handle, BoundHandle, GuardedAdapter, bound_handle, release_guarded,
}
use agent_verification_proto.Security.Adapter.Release.{IsUnbound, release_guarded-IsUnbound}

abbrev constant_digest : Compiled → String
constant_digest compiled = "sha256:0"

abbrev outer : SubjectHandle
outer = record {
  handle_id = "subj_guard_1";
  adapter_name = "capability-guard(agent)";
  adapter_version = "0.1.0";
  agent_system_digest = "sha256:1";
}

abbrev entry : BoundHandle
entry = record {
  outer = outer;
  inner = record outer { handle_id = "subj_1"; adapter_name = "agent" };
  episode_id = some "ep_1";
}

abbrev guarded : GuardedAdapter ℕ
guarded = record {
  inner_state = 0;
  capabilities = ("subject", "mcp://commerce/order.get" ∷ []) ∷ [];
  policy = (bind "ep_1" (("subject", "mcp://commerce/order.get" ∷ []) ∷ []) new_policy).1;
  handles = ("subj_guard_1", entry) ∷ [];
  description = record {
    name = "capability-guard(agent)";
    version = "0.1.0";
    adapter = "capability-guard";
    transport = "python-callable";
    protocol_version = "avp.subject/v0.1";
    metadata = end;
  };
}

-- The wrapped adapter raises, after it has changed its state.
abbrev unreachable : SubjectHandle → Method SubjectError ℕ (Unit {0})
unreachable handle calls = (raise subject_transport, suc calls)

known : bound_handle outer guarded ≡ ok entry
unfolding bound_handle lookup
known = refl

release_guarded-IsUnbound_example :
    (bound_handle outer (release_guarded unreachable outer guarded).1 ≡ raise unknown_handle)
    × IsUnbound constant_digest (some "ep_1") (release_guarded unreachable outer guarded).1.policy
release_guarded-IsUnbound_example =
    release_guarded-IsUnbound constant_digest unreachable outer guarded entry known
