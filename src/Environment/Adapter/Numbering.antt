-- ===== src/Environment/Adapter/Numbering.antt =====
-- In every session that the adapter ever has, the snapshots carry numbered identifiers.
use agent_verification_proto.Base.{
  String, ◌≡◌, refl, subst, some, List, [], ◌∷◌, ◌==◌, Result, ok, raise, Method, arith, Bool-cases,
  inl, inr,
}
use agent_verification_proto.Base.Text.{◌<>◌}
use agent_verification_proto.Base.Dict.{Dict, lookup, insert, erase, lookup-insert, lookup-erase}
use agent_verification_proto.Environment.World.{WorldState}
use agent_verification_proto.Environment.Values.{EnvironmentError, EnvironmentHandle}
use agent_verification_proto.Environment.Session.{
  StoredSnapshot, Session, reset_session, execute_session, snapshot_ref, snapshot_session,
  restore_session, inject_session, clear_session,
}
use agent_verification_proto.Environment.Session.Snapshots.{
  AreNumbered, insert-AreNumbered, reset_session-keeps, execute_session-keeps,
  restore_session-keeps, inject_session-keeps, clear_session-keeps,
}
use agent_verification_proto.Environment.Adapter.{
  ScenarioInstance, InMemoryCommerceAdapter, new_adapter, new_session, find_session, within,
  in_session, reset, execute, snapshot, restore, inject_fault, clear_fault, provision_environment,
  release_found, release_environment, is_supported,
}
use agent_verification_proto.Environment.Adapter.Isolation.{
  Step, provisioning, resetting, releasing, snapshotting, executing, restoring, injecting, clearing,
  perform, run, find_session-lookup,
}

pub record AllNumbered (a : InMemoryCommerceAdapter) : Type 0 where
  pub each : (id : String) (s : Session) → lookup id a.sessions ≡ some s → AreNumbered s.snapshots

empty-AreNumbered : AreNumbered []
unfolding lookup
empty-AreNumbered = record { numbered = λ id stored h. ground arith }

insert-AllNumbered :
    (key : String) (held : Session) (a : InMemoryCommerceAdapter)
    → AreNumbered held.snapshots
    → AllNumbered a
    → AllNumbered (record a { sessions = insert key held a.sessions })
insert-AllNumbered key held a v all_of = record {
  each = λ id s h. elim (Bool-cases (key == id)) [
    | inl same ↦
        let found : held ≡ s = ground (arith, lookup-insert key id held a.sessions) in
        subst (λ x. AreNumbered x.snapshots) found v
    | inr other ↦ all_of.each id s (ground (arith, lookup-insert key id held a.sessions))
  ];
}

erase-AllNumbered :
    (key : String) (a : InMemoryCommerceAdapter)
    → AllNumbered a
    → AllNumbered (record a { sessions = erase key a.sessions })
erase-AllNumbered key a all_of = record {
  each = λ id s h. all_of.each id s (ground (arith, lookup-erase key id a.sessions));
}

within-AllNumbered :
    {R : Type 0} (handle : EnvironmentHandle) (method : Method EnvironmentError Session R)
    (found : Result EnvironmentError Session) (a : InMemoryCommerceAdapter)
    → ((s : Session) → found ≡ ok s → lookup handle.handle_id a.sessions ≡ some s)
    → ((s : Session) → AreNumbered s.snapshots → AreNumbered (method s).1.snapshots)
    → AllNumbered a
    → AllNumbered (within handle method found a).1
within-AllNumbered handle method (raise e) a found keeps v = v
within-AllNumbered handle method (ok s) a found keeps v =
    insert-AllNumbered handle.handle_id (method s).1 a
      (keeps s (v.each handle.handle_id s (found s refl))) v

in_session-AllNumbered :
    {R : Type 0} (handle : EnvironmentHandle) (method : Method EnvironmentError Session R)
    (a : InMemoryCommerceAdapter)
    → ((s : Session) → AreNumbered s.snapshots → AreNumbered (method s).1.snapshots)
    → AllNumbered a
    → AllNumbered (in_session handle method a).1
unfolding in_session
in_session-AllNumbered handle method a =
    within-AllNumbered handle method (find_session handle a) a (find_session-lookup handle a)

same-AreNumbered : {old new : Dict StoredSnapshot} → new ≡ old → AreNumbered old → AreNumbered new
same-AreNumbered e v = rw e v

release-AllNumbered :
    (handle : EnvironmentHandle) (found : Result EnvironmentError Session)
    (a : InMemoryCommerceAdapter)
    → AllNumbered a
    → AllNumbered (release_found handle found a).1
release-AllNumbered handle (raise e) a v = v
release-AllNumbered handle (ok s) a v = erase-AllNumbered handle.handle_id a v

module _ (state_digest : WorldState → String) where
  provision-AllNumbered :
      (scenario : ScenarioInstance) (fresh : String) (a : InMemoryCommerceAdapter)
      → AllNumbered a
      → AllNumbered (provision_environment state_digest scenario fresh a).1
  unfolding provision_environment new_session
  provision-AllNumbered scenario fresh a v =
      elim (Bool-cases (is_supported scenario.environment_ref)) [
        | inl supported ↦ rw supported (
            insert-AllNumbered ("env_" <> fresh) (new_session state_digest scenario) a
              empty-AreNumbered v)
        | inr unsupported ↦ rw unsupported v
      ]

  snapshot-AreNumbered :
      (handle : EnvironmentHandle) (s : Session)
      → AreNumbered s.snapshots
      → AreNumbered (snapshot_session state_digest handle s).1.snapshots
  unfolding snapshot_session snapshot_ref
  snapshot-AreNumbered handle s v = insert-AreNumbered s.snapshots _ v

  perform-AllNumbered :
      (step : Step) (a : InMemoryCommerceAdapter)
      → AllNumbered a
      → AllNumbered (perform state_digest step a)
  unfolding perform reset execute snapshot restore inject_fault clear_fault release_environment
  perform-AllNumbered (provisioning scenario fresh) a = provision-AllNumbered scenario fresh a
  perform-AllNumbered (releasing handle) a = release-AllNumbered handle (find_session handle a) a
  perform-AllNumbered (resetting handle) a =
      in_session-AllNumbered handle (reset_session state_digest handle) a
        (λ s. same-AreNumbered (reset_session-keeps state_digest handle s).0)
  perform-AllNumbered (snapshotting handle) a =
      in_session-AllNumbered handle (snapshot_session state_digest handle) a
        (snapshot-AreNumbered handle)
  perform-AllNumbered (executing handle request) a =
      in_session-AllNumbered handle (execute_session state_digest request) a
        (λ s. same-AreNumbered (execute_session-keeps state_digest request s).0)
  perform-AllNumbered (restoring handle ref) a =
      in_session-AllNumbered handle (restore_session state_digest handle ref) a
        (λ s. same-AreNumbered (restore_session-keeps state_digest handle ref s).0)
  perform-AllNumbered (injecting handle fault fresh) a =
      in_session-AllNumbered handle (inject_session handle fault ("fault_" <> fresh)) a
        (λ s. same-AreNumbered (inject_session-keeps handle fault ("fault_" <> fresh) s).0)
  perform-AllNumbered (clearing handle fault) a =
      in_session-AllNumbered handle (clear_session handle fault) a
        (λ s. same-AreNumbered (clear_session-keeps handle fault s).0)

  pub run-AllNumbered :
      (steps : List Step) (a : InMemoryCommerceAdapter)
      → AllNumbered a
      → AllNumbered (run state_digest steps a)
  unfolding run
  run-AllNumbered [] a v = v
  run-AllNumbered (step ∷ steps) a v =
      run-AllNumbered steps (perform state_digest step a) (perform-AllNumbered step a v)

pub new_adapter-AllNumbered : AllNumbered new_adapter
unfolding new_adapter lookup
new_adapter-AllNumbered = record { each = λ id s h. ground arith }
