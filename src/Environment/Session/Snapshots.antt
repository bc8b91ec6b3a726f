-- ===== src/Environment/Session/Snapshots.antt =====
-- The snapshots of a session: their identifiers are numbered, so a snapshot never replaces another.
use text.Mathlib.TextLemmas.{append_cancel_left}
use agent_verification_proto.Base.{
  Option-cases, Bool-cases, ℕ, ◌+◌, ◌≤◌, String, ◌≡◌, refl, ◌∙◌, true, none, some, [], ◌∷◌, length,
  ◌==◌, eq_iff, ok, arith, inl, inr,
}
use agent_verification_proto.Base.Text.{◌<>◌, str, str_injective}
use agent_verification_proto.Base.Dict.{Dict, lookup, insert, lookup-insert, lookup-insert_self}
use agent_verification_proto.Environment.World.{WorldState, restore_state}
use agent_verification_proto.Environment.Values.{
  EnvironmentHandle, SnapshotRef, same_ref, ToolRequest, FaultSpec, FaultHandle, RestoreResult,
  state_equivalent,
}
use agent_verification_proto.Environment.Session.{
  StoredSnapshot, Session, reset_session, execute_session, snapshot_ref, snapshot_session,
  find_snapshot, restore_session, inject_session, clear_session,
}

snap-inj : (s t : String) → ("snap_" <> s) ≡ ("snap_" <> t) → s ≡ t
snap-inj s t e = append_cancel_left "snap_" s t e

abbrev snap : ℕ → String
snap n = "snap_" <> str n

-- Every identifier of a snapshot carries a number up to their count.
pub record AreNumbered (snapshots : Dict StoredSnapshot) : Type 0 where
  pub numbered :
      (id : String) (stored : StoredSnapshot)
      → lookup id snapshots ≡ some stored
      → (n : ℕ) × (id ≡ snap n) × (n ≤ length snapshots)

snap-injective : (m n : ℕ) → snap m ≡ snap n → m ≡ n
snap-injective m n e = str_injective m n (snap-inj (str m) (str n) e)

-- The next identifier is not taken.
next-fresh :
    (snapshots : Dict StoredSnapshot)
    → AreNumbered snapshots
    → lookup (snap (length snapshots + 1)) snapshots ≡ none
next-fresh snapshots v = elim (Option-cases (lookup (snap (length snapshots + 1)) snapshots)) [
  | inl none_there ↦ none_there
  | inr (stored, there) ↦
      let (n, e, small) = v.numbered (snap (length snapshots + 1)) stored there in
      absurd (omega (arith, snap-injective (length snapshots + 1) n e))
]

length-insert :
    (id : String) (stored : StoredSnapshot) (snapshots : Dict StoredSnapshot)
    → lookup id snapshots ≡ none
    → length (insert id stored snapshots) ≡ length snapshots + 1
unfolding lookup insert
length-insert id stored [] h = ground arith
length-insert id stored ((key, held) ∷ rest) h = ground (arith, length-insert id stored rest)

pub insert-AreNumbered :
    (snapshots : Dict StoredSnapshot) (stored : StoredSnapshot)
    → AreNumbered snapshots
    → AreNumbered (insert (snap (length snapshots + 1)) stored snapshots)
insert-AreNumbered snapshots stored v = record {
  numbered = λ id found h. elim (Bool-cases (snap (length snapshots + 1) == id)) [
    | inl same ↦ (
      length snapshots + 1,
      ground (arith, eq_iff (snap (length snapshots + 1)) id),
      omega (
        arith,
        length-insert (snap (length snapshots + 1)) stored snapshots (next-fresh snapshots v),
      ),
    )
    | inr other ↦
        let (n, e, small) =
          v.numbered id found
            (ground (arith, lookup-insert (snap (length snapshots + 1)) id stored snapshots)) in
        (
          n,
          e,
          omega (
            arith,
            length-insert (snap (length snapshots + 1)) stored snapshots (next-fresh snapshots v),
          ),
        )
  ];
}

-- What the later uses of a session keep of a snapshot: it stays in the session under its
-- identifier, and the session stays that of its Scenario.
pub record IsKept (digest : String) (id : String) (stored : StoredSnapshot) (s : Session)
    : Type 0 where
  pub there : lookup id s.snapshots ≡ some stored
  pub numbered : AreNumbered s.snapshots
  pub same_scenario : s.scenario_digest ≡ digest

pub same-IsKept :
    (digest id : String) (stored : StoredSnapshot) (s after : Session)
    → after.snapshots ≡ s.snapshots
    → after.scenario_digest ≡ s.scenario_digest
    → IsKept digest id stored s
    → IsKept digest id stored after
same-IsKept digest id stored s after snapshots scenario k = record {
  there = rw snapshots k.there;
  numbered = rw snapshots k.numbered;
  same_scenario = scenario ∙ k.same_scenario;
}

same_ref_refl : (ref : SnapshotRef) → same_ref ref ref ≡ true
same_ref_refl ref = ground (
  arith,
  eq_iff ref.snapshot_id ref.snapshot_id,
  eq_iff ref.handle_id ref.handle_id,
  eq_iff ref.state_digest ref.state_digest,
  eq_iff ref.consistency ref.consistency,
  eq_iff ref.adapter_name ref.adapter_name,
)

find_snapshot-stored :
    (handle : EnvironmentHandle) (ref : SnapshotRef) (stored : StoredSnapshot) (s : Session)
    → ref.handle_id ≡ handle.handle_id
    → lookup ref.snapshot_id s.snapshots ≡ some stored
    → stored.ref ≡ ref
    → find_snapshot handle ref s ≡ ok stored
unfolding find_snapshot
find_snapshot-stored handle ref stored s owned there same =
    ground (arith, eq_iff ref.handle_id handle.handle_id, same_ref_refl ref)

module _ (state_digest : WorldState → String) where
  pub snapshot_session-IsKept :
      (handle : EnvironmentHandle) (digest id : String) (stored : StoredSnapshot) (s : Session)
      → IsKept digest id stored s
      → IsKept digest id stored (snapshot_session state_digest handle s).1
  unfolding snapshot_session snapshot_ref
  snapshot_session-IsKept handle digest id stored s k = record {
    there = ground (
      arith,
      k.there,
      next-fresh s.snapshots k.numbered,
      lookup-insert (snap (length s.snapshots + 1)) id
          (record { ref = snapshot_ref state_digest handle s; state = s.world.state }) s.snapshots,
      eq_iff (snap (length s.snapshots + 1)) id,
    );
    numbered = insert-AreNumbered s.snapshots _ k.numbered;
    same_scenario = k.same_scenario;
  }

  -- The snapshot that was just taken is kept.
  pub snapshot_session-taken :
      (handle : EnvironmentHandle) (s : Session)
      → AreNumbered s.snapshots
      → IsKept s.scenario_digest
          (snapshot_ref state_digest handle s).snapshot_id
          (record { ref = snapshot_ref state_digest handle s; state = s.world.state })
          (snapshot_session state_digest handle s).1
  unfolding snapshot_session snapshot_ref
  snapshot_session-taken handle s v = record {
    there = lookup-insert_self _ _ s.snapshots;
    numbered = insert-AreNumbered s.snapshots _ v;
    same_scenario = refl;
  }

  pub reset_session-keeps :
      (handle : EnvironmentHandle) (s : Session)
      → ((reset_session state_digest handle s).1.snapshots ≡ s.snapshots)
        × ((reset_session state_digest handle s).1.scenario_digest ≡ s.scenario_digest)
  unfolding reset_session
  reset_session-keeps handle s = (refl, refl)

  pub execute_session-keeps :
      (request : ToolRequest) (s : Session)
      → ((execute_session state_digest request s).1.snapshots ≡ s.snapshots)
        × ((execute_session state_digest request s).1.scenario_digest ≡ s.scenario_digest)
  unfolding execute_session
  execute_session-keeps request s = ground arith

  pub restore_session-keeps :
      (handle : EnvironmentHandle) (ref : SnapshotRef) (s : Session)
      → ((restore_session state_digest handle ref s).1.snapshots ≡ s.snapshots)
        × ((restore_session state_digest handle ref s).1.scenario_digest ≡ s.scenario_digest)
  unfolding restore_session
  restore_session-keeps handle ref s = ground arith

  restore-found :
      (handle : EnvironmentHandle) (ref : SnapshotRef) (stored : StoredSnapshot) (s : Session)
      → find_snapshot handle ref s ≡ ok stored
      → state_digest stored.state ≡ ref.state_digest
      → (r : RestoreResult) × ((restore_session state_digest handle ref s).0 ≡ ok r)
        × (r.equivalence ≡ state_equivalent)
        × ((restore_session state_digest handle ref s).1.world
            ≡ record { logical_time = stored.ref.logical_time; state = stored.state })
  unfolding restore_session restore_state
  restore-found handle ref stored s found same = rw found (
      (
        record {
          snapshot_id = ref.snapshot_id;
          before_digest = state_digest s.world.state;
          after_digest = state_digest stored.state;
          equivalence = state_equivalent;
        },
        ground (arith, eq_iff (state_digest stored.state) ref.state_digest),
        refl,
        refl,
      ))

  -- A kept snapshot can be restored: the world is again that of the snapshot.
  pub restore_session-kept :
      (handle : EnvironmentHandle) (old s : Session)
      → IsKept old.scenario_digest
          (snapshot_ref state_digest handle old).snapshot_id
          (record { ref = snapshot_ref state_digest handle old; state = old.world.state })
          s
      → (r : RestoreResult) × ((restore_session state_digest handle
            (snapshot_ref state_digest handle old)
            s).0
          ≡ ok r)
        × (r.equivalence ≡ state_equivalent)
        × ((restore_session state_digest handle (snapshot_ref state_digest handle old) s).1.world
            ≡ old.world)
  unfolding restore_session restore_state find_snapshot snapshot_ref
  restore_session-kept handle old s k =
      restore-found handle (snapshot_ref state_digest handle old)
        (record { ref = snapshot_ref state_digest handle old; state = old.world.state }) s
        (find_snapshot-stored handle (snapshot_ref state_digest handle old)
          (record { ref = snapshot_ref state_digest handle old; state = old.world.state }) s refl
          k.there refl)
        refl

pub inject_session-keeps :
    (handle : EnvironmentHandle) (fault : FaultSpec) (fresh : String) (s : Session)
    → ((inject_session handle fault fresh s).1.snapshots ≡ s.snapshots)
      × ((inject_session handle fault fresh s).1.scenario_digest ≡ s.scenario_digest)
unfolding inject_session
inject_session-keeps handle fault fresh s = ground arith

pub clear_session-keeps :
    (handle : EnvironmentHandle) (fault : FaultHandle) (s : Session)
    → ((clear_session handle fault s).1.snapshots ≡ s.snapshots)
      × ((clear_session handle fault s).1.scenario_digest ≡ s.scenario_digest)
unfolding clear_session
clear_session-keeps handle fault s = ground arith
