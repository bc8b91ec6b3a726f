-- ===== src/Environment/Adapter/Isolation.antt =====
-- Uses of the adapter as steps: what a step leaves alone, and what a denied call does.
use agent_verification_proto.Base.{
  String, ◌≡◌, ◌∙◌, ◌≢◌, refl, true, false, not, some, List, [], ◌∷◌, all, ◌==◌, eq_iff, Result, ok,
  raise, Method, arith,
}
use agent_verification_proto.Base.Text.{◌<>◌}
use agent_verification_proto.Base.Dict.{Dict, lookup, insert, lookup-insert, lookup-erase}
use agent_verification_proto.Environment.World.{WorldState}
use agent_verification_proto.Environment.Values.{
  EnvironmentError, tool_permission_denied, EnvironmentHandle, SnapshotRef, ToolRequest, FaultSpec,
  FaultHandle,
}
use agent_verification_proto.Environment.Session.{Session, is_granted, execute_session}
use agent_verification_proto.Environment.Adapter.{
  ScenarioInstance, InMemoryCommerceAdapter, find_session, new_session, within, in_session,
  release_environment, provision_environment, reset, execute, snapshot, restore, inject_fault,
  clear_fault,
}

-- A call of a method that may change the adapter, with the fresh identifiers that it draws.
pub data Step : Type 0 where
  provisioning : ScenarioInstance → (fresh : String) → Step
  resetting releasing snapshotting : EnvironmentHandle → Step
  executing : EnvironmentHandle → ToolRequest → Step
  restoring : EnvironmentHandle → SnapshotRef → Step
  injecting : EnvironmentHandle → FaultSpec → (fresh : String) → Step
  clearing : EnvironmentHandle → FaultHandle → Step

-- The identifier of the session that a step is about.
abbrev pub subject_of : Step → String
subject_of (provisioning scenario fresh) = "env_" <> fresh
subject_of (resetting handle) = handle.handle_id
subject_of (releasing handle) = handle.handle_id
subject_of (snapshotting handle) = handle.handle_id
subject_of (executing handle request) = handle.handle_id
subject_of (restoring handle ref) = handle.handle_id
subject_of (injecting handle fault fresh) = handle.handle_id
subject_of (clearing handle fault) = handle.handle_id

within-others :
    {R : Type 0} (handle : EnvironmentHandle) (method : Method EnvironmentError Session R)
    (found : Result EnvironmentError Session) (a : InMemoryCommerceAdapter) (id : String)
    → handle.handle_id ≢ id
    → lookup id (within handle method found a).1.sessions ≡ lookup id a.sessions
within-others handle method (raise e) a id differs = refl
within-others handle method (ok s) a id differs =
    ground
      (arith, lookup-insert handle.handle_id id (method s).1 a.sessions, eq_iff handle.handle_id id)

pub in_session-others :
    {R : Type 0} (handle : EnvironmentHandle) (method : Method EnvironmentError Session R)
    (a : InMemoryCommerceAdapter) (id : String)
    → handle.handle_id ≢ id
    → lookup id (in_session handle method a).1.sessions ≡ lookup id a.sessions
unfolding in_session
in_session-others handle method a id = within-others handle method (find_session handle a) a id

insert_same :
    (id : String) (s : Session) (sessions : Dict Session)
    → lookup id sessions ≡ some s
    → insert id s sessions ≡ sessions
unfolding lookup insert
insert_same id s [] h = ground arith
insert_same id s ((key, held) ∷ rest) h = ground (arith, insert_same id s rest)

pub find_session-lookup :
    (handle : EnvironmentHandle) (a : InMemoryCommerceAdapter) (s : Session)
    → find_session handle a ≡ ok s
    → lookup handle.handle_id a.sessions ≡ some s
unfolding find_session
find_session-lookup handle a s h = ground arith

module _ (state_digest : WorldState → String) where
  unfoldable pub perform : Step → InMemoryCommerceAdapter → InMemoryCommerceAdapter
  perform (provisioning scenario fresh) a = (provision_environment state_digest scenario fresh a).1
  perform (resetting handle) a = (reset state_digest handle a).1
  perform (releasing handle) a = (release_environment handle a).1
  perform (snapshotting handle) a = (snapshot state_digest handle a).1
  perform (executing handle request) a = (execute state_digest handle request a).1
  perform (restoring handle ref) a = (restore state_digest handle ref a).1
  perform (injecting handle fault fresh) a = (inject_fault handle fault fresh a).1
  perform (clearing handle fault) a = (clear_fault handle fault a).1

  unfoldable pub run : List Step → InMemoryCommerceAdapter → InMemoryCommerceAdapter
  run [] a = a
  run (step ∷ steps) a = run steps (perform step a)

  pub perform_isolated :
      (step : Step) (a : InMemoryCommerceAdapter) (id : String)
      → subject_of step ≢ id
      → lookup id (perform step a).sessions ≡ lookup id a.sessions
  unfolding perform provision_environment release_environment reset execute snapshot restore
      inject_fault clear_fault
  perform_isolated (provisioning scenario fresh) a id differs = ground (
    arith,
    lookup-insert ("env_" <> fresh) id (new_session state_digest scenario) a.sessions,
    eq_iff ("env_" <> fresh) id,
  )
  perform_isolated (resetting handle) a id differs = in_session-others handle _ a id differs
  perform_isolated (releasing handle) a id differs =
      ground (arith, lookup-erase handle.handle_id id a.sessions, eq_iff handle.handle_id id)
  perform_isolated (snapshotting handle) a id differs = in_session-others handle _ a id differs
  perform_isolated (executing handle request) a id differs = in_session-others handle _ a id differs
  perform_isolated (restoring handle ref) a id differs = in_session-others handle _ a id differs
  perform_isolated (injecting handle fault fresh) a id differs =
      in_session-others handle _ a id differs
  perform_isolated (clearing handle fault) a id differs = in_session-others handle _ a id differs

  -- Sessions are isolated: steps about other sessions leave a session, its world, its snapshots and
  -- its faults as they were.
  pub run_isolated :
      (steps : List Step) (a : InMemoryCommerceAdapter) (id : String)
      → all (λ step. not (subject_of step == id)) steps ≡ true
      → lookup id (run steps a).sessions ≡ lookup id a.sessions
  unfolding run
  run_isolated [] a id spared = refl
  run_isolated (step ∷ steps) a id spared =
      run_isolated steps (perform step a) id (ground arith)
      ∙ perform_isolated step a id (ground (arith, eq_iff (subject_of step) id))

  -- Calls are denied by default: a tool that the Scenario did not grant to the actor is refused, and
  -- the adapter stays as it was, the counts of its faults included.
  pub execute_denied :
      (handle : EnvironmentHandle) (request : ToolRequest) (a : InMemoryCommerceAdapter)
      (s : Session)
      → find_session handle a ≡ ok s
      → is_granted (lookup request.actor_id s.allowed_tools) request.name ≡ false
      → execute state_digest handle request a ≡ (raise tool_permission_denied, a)
  unfolding execute in_session execute_session
  execute_denied handle request a s found denied =
      ground
        (arith, insert_same handle.handle_id s a.sessions, find_session-lookup handle a s found)
