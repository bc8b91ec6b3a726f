-- ===== src/Environment/Adapter/Roundtrip.antt =====
-- A snapshot, any uses of the adapter, and its restore.
use agent_verification_proto.Base.{
  String, ◌≡◌, sym, refl, subst, true, some, List, all, Result, ok, raise, arith,
}
use agent_verification_proto.Base.Dict.{lookup, lookup-insert_self}
use agent_verification_proto.Environment.World.{WorldState}
use agent_verification_proto.Environment.Values.{
  EnvironmentError, EnvironmentHandle, SnapshotRef, state_equivalent, RestoreResult,
}
use agent_verification_proto.Environment.Session.{
  StoredSnapshot, Session, snapshot_ref, snapshot_session, restore_session,
}
use agent_verification_proto.Environment.Session.Snapshots.{
  snapshot_session-taken, restore_session-kept,
}
use agent_verification_proto.Environment.Adapter.{
  InMemoryCommerceAdapter, new_adapter, find_session, within, in_session, snapshot, restore,
}
use agent_verification_proto.Environment.Adapter.Isolation.{Step, run, find_session-lookup}
use agent_verification_proto.Environment.Adapter.Restoring.{HasKept, spares, run-HasKept}
use agent_verification_proto.Environment.Adapter.Numbering.{
  AllNumbered, run-AllNumbered, new_adapter-AllNumbered,
}

find_session-again :
    (handle : EnvironmentHandle) (a b : InMemoryCommerceAdapter) (s t : Session)
    → find_session handle a ≡ ok s
    → lookup handle.handle_id b.sessions ≡ some t
    → t.scenario_digest ≡ s.scenario_digest
    → find_session handle b ≡ ok t
unfolding find_session
find_session-again handle a b s t found there same = ground arith

abbrev stored_of : (WorldState → String) → EnvironmentHandle → Session → StoredSnapshot
stored_of state_digest handle s = record {
  ref = snapshot_ref state_digest handle s;
  state = s.world.state;
}

module _ (state_digest : WorldState → String) where
  within-HasKept :
      (handle : EnvironmentHandle) (found : Result EnvironmentError Session)
      (a : InMemoryCommerceAdapter) (ref : SnapshotRef)
      → find_session handle a ≡ found
      → AllNumbered a
      → (within handle (snapshot_session state_digest handle) found a).0 ≡ ok ref
      → (s : Session) × (find_session handle a ≡ ok s)
        × (ref ≡ snapshot_ref state_digest handle s)
        × HasKept handle.handle_id s.scenario_digest
            (snapshot_ref state_digest handle s).snapshot_id
            (stored_of state_digest handle s)
            (within handle (snapshot_session state_digest handle) found a).1
  unfolding snapshot_session
  within-HasKept handle (raise e) a ref h v taken = ground arith
  within-HasKept handle (ok s) a ref h v taken = (
    s,
    h,
    ground arith,
    record {
      session = (snapshot_session state_digest handle s).1;
      there = lookup-insert_self handle.handle_id _ a.sessions;
      kept =
          snapshot_session-taken state_digest handle s
            (v.each handle.handle_id s (find_session-lookup handle a s h));
    },
  )

  -- The world of the session is back where it was at the snapshot.
  pub record IsRestored (handle : EnvironmentHandle) (ref : SnapshotRef) (before : Session)
      (b : InMemoryCommerceAdapter) : Type 0 where
    pub result : RestoreResult
    pub restored : (restore state_digest handle ref b).0 ≡ ok result
    pub fidelity : result.equivalence ≡ state_equivalent
    pub session : Session
    pub there :
        lookup handle.handle_id (restore state_digest handle ref b).1.sessions ≡ some session
    pub same_world : session.world ≡ before.world

  kept-IsRestored :
      (handle : EnvironmentHandle) (a b : InMemoryCommerceAdapter) (s : Session)
      → find_session handle a ≡ ok s
      → HasKept handle.handle_id s.scenario_digest
          (snapshot_ref state_digest handle s).snapshot_id
          (stored_of state_digest handle s)
          b
      → IsRestored handle (snapshot_ref state_digest handle s) s b
  unfolding restore in_session
  kept-IsRestored handle a b s found k =
      let again = find_session-again handle a b s k.session found k.there k.kept.same_scenario in
      let (result, made, fidelity, world) =
        restore_session-kept state_digest handle s k.session k.kept in
      record {
        result = result;
        restored = rw again made;
        fidelity = fidelity;
        session =
            (restore_session state_digest handle (snapshot_ref state_digest handle s) k.session).1;
        there = rw again (lookup-insert_self handle.handle_id _ b.sessions);
        same_world = world;
      }

  -- After any uses of a new adapter, a snapshot that succeeds can be restored after any further uses
  -- that do not release its session or draw its identifier again, resets and other restores included:
  -- the restore reports STATE_EQUIVALENT, and the world of the session, its logical time included, is
  -- that of the snapshot.
  pub restore-snapshot :
      (earlier later : List Step) (handle : EnvironmentHandle) (ref : SnapshotRef)
      → (snapshot state_digest handle (run state_digest earlier new_adapter)).0 ≡ ok ref
      → all (spares handle.handle_id) later ≡ true
      → (s : Session) × (find_session handle (run state_digest earlier new_adapter) ≡ ok s)
        × IsRestored handle ref s (
            run state_digest later
              (snapshot state_digest handle (run state_digest earlier new_adapter)).1)
  unfolding snapshot in_session
  restore-snapshot earlier later handle ref taken spared =
      let a = run state_digest earlier new_adapter in
      let (s, found, same, kept) =
        within-HasKept handle (find_session handle a) a ref refl
          (run-AllNumbered state_digest earlier new_adapter new_adapter-AllNumbered) taken in
      let restored =
        kept-IsRestored handle a (run state_digest later (snapshot state_digest handle a).1) s found
          (run-HasKept handle.handle_id s.scenario_digest
            (snapshot_ref state_digest handle s).snapshot_id (stored_of state_digest handle s)
            state_digest later (snapshot state_digest handle a).1 spared kept) in
      (
        s,
        found,
        subst
            (λ x. IsRestored handle x s (run state_digest later (snapshot state_digest handle a).1))
            (sym same) restored,
      )
