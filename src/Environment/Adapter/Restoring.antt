-- ===== src/Environment/Adapter/Restoring.antt =====
-- A snapshot can be restored after any other uses of the adapter.
use agent_verification_proto.Base.{
  String, ◌≡◌, ◌∙◌, refl, subst, Bool, true, false, not, some, List, [], ◌∷◌, all, ◌==◌, eq_iff,
  Result, ok, raise, Method, arith, Bool-cases, inl, inr,
}
use agent_verification_proto.Base.Text.{◌<>◌}
use agent_verification_proto.Base.Dict.{lookup, lookup-insert}
use agent_verification_proto.Environment.World.{WorldState}
use agent_verification_proto.Environment.Values.{EnvironmentError, EnvironmentHandle}
use agent_verification_proto.Environment.Session.{
  StoredSnapshot, Session, reset_session, execute_session, snapshot_session, restore_session,
  inject_session, clear_session,
}
use agent_verification_proto.Environment.Session.Snapshots.{
  IsKept, same-IsKept, snapshot_session-IsKept, reset_session-keeps, execute_session-keeps,
  restore_session-keeps, inject_session-keeps, clear_session-keeps,
}
use agent_verification_proto.Environment.Adapter.{
  InMemoryCommerceAdapter, find_session, within, in_session, reset, execute, snapshot, restore,
  inject_fault, clear_fault,
}
use agent_verification_proto.Environment.Adapter.Isolation.{
  Step, provisioning, resetting, releasing, snapshotting, executing, restoring, injecting, clearing,
  subject_of, perform, run, perform_isolated, find_session-lookup, in_session-others,
}

-- The session is in the adapter and keeps the snapshot.
pub record HasKept (id digest key : String) (stored : StoredSnapshot) (a : InMemoryCommerceAdapter)
    : Type 0 where
  pub session : Session
  pub there : lookup id a.sessions ≡ some session
  pub kept : IsKept digest key stored session

-- The steps that leave a session in place: no release of it, and no new session in its place.
abbrev pub spares : String → Step → Bool
spares id (provisioning scenario fresh) = not (("env_" <> fresh) == id)
spares id (releasing handle) = not (handle.handle_id == id)
spares id _ = true

module _ (id digest key : String) (stored : StoredSnapshot) where
  within-HasKept :
      {R : Type 0} (handle : EnvironmentHandle) (method : Method EnvironmentError Session R)
      (found : Result EnvironmentError Session) (a : InMemoryCommerceAdapter)
      → handle.handle_id ≡ id
      → ((s : Session) → found ≡ ok s → lookup handle.handle_id a.sessions ≡ some s)
      → ((s : Session) → IsKept digest key stored s → IsKept digest key stored (method s).1)
      → HasKept id digest key stored a
      → HasKept id digest key stored (within handle method found a).1
  within-HasKept handle method (raise e) a same found keeps k = k
  within-HasKept handle method (ok s) a same found keeps k = record {
    session = (method s).1;
    there = ground (
      arith,
      lookup-insert handle.handle_id id (method s).1 a.sessions,
      eq_iff handle.handle_id id,
    );
    kept =
        let same_session : k.session ≡ s = ground (arith, found s refl, k.there, same) in
        keeps s (subst (λ x. IsKept digest key stored x) same_session k.kept);
  }

  in_session-HasKept :
      {R : Type 0} (handle : EnvironmentHandle) (method : Method EnvironmentError Session R)
      (a : InMemoryCommerceAdapter)
      → ((s : Session) → IsKept digest key stored s → IsKept digest key stored (method s).1)
      → HasKept id digest key stored a
      → HasKept id digest key stored (in_session handle method a).1
  unfolding in_session
  in_session-HasKept handle method a keeps k = elim (Bool-cases (handle.handle_id == id)) [
    | inl same ↦
        within-HasKept handle method (find_session handle a) a
          (ground (arith, eq_iff handle.handle_id id)) (find_session-lookup handle a) keeps k
    | inr other ↦ record {
      session = k.session;
      there =
          in_session-others handle method a id (ground (arith, eq_iff handle.handle_id id))
          ∙ k.there;
      kept = k.kept;
    }
  ]

  module _ (state_digest : WorldState → String) where
    untouched-HasKept :
        (step : Step) (a : InMemoryCommerceAdapter)
        → (subject_of step == id) ≡ false
        → HasKept id digest key stored a
        → HasKept id digest key stored (perform state_digest step a)
    untouched-HasKept step a other k = record {
      session = k.session;
      there =
          perform_isolated state_digest step a id (ground (arith, eq_iff (subject_of step) id))
          ∙ k.there;
      kept = k.kept;
    }

    perform-HasKept :
        (step : Step) (a : InMemoryCommerceAdapter)
        → spares id step ≡ true
        → HasKept id digest key stored a
        → HasKept id digest key stored (perform state_digest step a)
    unfolding perform reset execute snapshot restore inject_fault clear_fault
    perform-HasKept (provisioning scenario fresh) a spared =
        untouched-HasKept (provisioning scenario fresh) a (ground arith)
    perform-HasKept (releasing handle) a spared =
        untouched-HasKept (releasing handle) a (ground arith)
    perform-HasKept (resetting handle) a spared =
        in_session-HasKept handle (reset_session state_digest handle) a (λ s k.
          let (p, q) = reset_session-keeps state_digest handle s in
          same-IsKept digest key stored s _ p q k)
    perform-HasKept (snapshotting handle) a spared =
        in_session-HasKept handle (snapshot_session state_digest handle) a
          (snapshot_session-IsKept state_digest handle digest key stored)
    perform-HasKept (executing handle request) a spared =
        in_session-HasKept handle (execute_session state_digest request) a (λ s k.
          let (p, q) = execute_session-keeps state_digest request s in
          same-IsKept digest key stored s _ p q k)
    perform-HasKept (restoring handle ref) a spared =
        in_session-HasKept handle (restore_session state_digest handle ref) a (λ s k.
          let (p, q) = restore_session-keeps state_digest handle ref s in
          same-IsKept digest key stored s _ p q k)
    perform-HasKept (injecting handle fault fresh) a spared =
        in_session-HasKept handle (inject_session handle fault ("fault_" <> fresh)) a (λ s k.
          let (p, q) = inject_session-keeps handle fault ("fault_" <> fresh) s in
          same-IsKept digest key stored s _ p q k)
    perform-HasKept (clearing handle fault) a spared =
        in_session-HasKept handle (clear_session handle fault) a (λ s k.
          let (p, q) = clear_session-keeps handle fault s in
          same-IsKept digest key stored s _ p q k)

    pub run-HasKept :
        (steps : List Step) (a : InMemoryCommerceAdapter)
        → all (spares id) steps ≡ true
        → HasKept id digest key stored a
        → HasKept id digest key stored (run state_digest steps a)
    unfolding run
    run-HasKept [] a spared k = k
    run-HasKept (step ∷ steps) a spared k =
        run-HasKept steps (perform state_digest step a) (ground arith)
          (perform-HasKept step a (ground arith) k)
