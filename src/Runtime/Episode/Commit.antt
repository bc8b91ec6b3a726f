-- ===== src/Runtime/Episode/Commit.antt =====
-- What one method of the Episode changes, whatever the telemetry session does.
use agent_verification_proto.Base.{
  ℕ, ◌+◌, String, ◌≡◌, refl, ◌⊎◌, inl, inr, false, Option, none, some, List, [], ◌∷◌, ◌++◌, length,
  Result, ok, raise, is_ok, Method, ◌>>=◌, ◌≢◌, eq_iff, arith,
}
use agent_verification_proto.Base.Json.{Fields, end}
use agent_verification_proto.Base.Text.{◌<>◌}
use agent_verification_proto.Models.{AvpEvent}
use agent_verification_proto.Runtime.State.{EpisodeState, RuntimeError, assert_transition, created}
use agent_verification_proto.Runtime.State.Graph.{◌⟶◌, assert_transition-⟶}
use agent_verification_proto.Runtime.Lifecycle.{
  TransitionCause, EpisodeTransition, new_transition, transition_dict,
}
use agent_verification_proto.Runtime.Acceptance.{OracleEvaluationRecord}
use agent_verification_proto.Runtime.Record.{
  Episode, next_event, padded, emit, ReplaySourceIdentity,
}
use agent_verification_proto.Runtime.Episode.{
  next_record, commit, transition, freeze_for, bind_replay_source, freeze_and_commit, commit_result,
  cause_or_default, transition_if,
}

-- The lifecycle part of an Episode, which observation leaves alone.
pub record SameLifecycle {T : Type 0} (a b : Episode T) : Type 0 where
  pub same_id : b.episode_id ≡ a.episode_id
  pub same_state : b.state ≡ a.state
  pub same_records : b.transition_records ≡ a.transition_records
  pub same_evaluation : b.oracle_evaluation ≡ a.oracle_evaluation
  pub same_source : b.replay_source ≡ a.replay_source

-- One more event of the kind and payload, numbered and named after its place.
pub record IsEmitted (id kind : String) (payload : Fields) (before after : List AvpEvent)
    : Type 0 where
  pub event : AvpEvent
  pub appended : after ≡ before ++ event ∷ []
  pub kind_of : event.event_type ≡ kind
  pub payload_of : event.payload ≡ payload
  pub numbered : event.sequence ≡ length before + 1
  pub owner : event.episode_id ≡ id
  pub named : event.event_id ≡ "evt_" <> id <> "_" <> padded (length before + 1)

-- The Episode `b` is `a` after the canonical record `entry` of a step to `target`.
pub record IsCommitted {T : Type 0} (a b : Episode T) (target : EpisodeState)
    (entry : EpisodeTransition) : Type 0 where
  pub arrow : a.state ⟶ target
  pub new_state : b.state ≡ target
  pub appended : b.transition_records ≡ a.transition_records ++ entry ∷ []
  pub numbered : entry.sequence ≡ length a.transition_records + 1
  pub left_state : entry.previous_state ≡ a.state
  pub entered : entry.resulting_state ≡ target
  pub owner : entry.episode_id ≡ a.episode_id
  pub same_id : b.episode_id ≡ a.episode_id
  pub same_source : b.replay_source ≡ a.replay_source
  pub observed :
      IsEmitted a.episode_id "episode.transition" (transition_dict entry) a.events b.events

-- What a constructed transition record holds.
new_transition_fields :
    (id : String) (n : ℕ) (s t : EpisodeState) (cause : TransitionCause) (entry : EpisodeTransition)
    → new_transition id n s t cause ≡ ok entry
    → (entry.episode_id ≡ id)
      × (entry.sequence ≡ n)
      × (entry.previous_state ≡ s)
      × (entry.resulting_state ≡ t)
unfolding new_transition
new_transition_fields id n s t cause entry h = ground arith

resolved_fields :
    (r : Result RuntimeError TransitionCause) (id : String) (n : ℕ) (s t : EpisodeState)
    (entry : EpisodeTransition)
    → (r >>= new_transition id n s t) ≡ ok entry
    → (entry.episode_id ≡ id)
      × (entry.sequence ≡ n)
      × (entry.previous_state ≡ s)
      × (entry.resulting_state ≡ t)
resolved_fields (ok cause) id n s t entry h = new_transition_fields id n s t cause entry h
resolved_fields (raise e) id n s t entry h = cc

next_record_fields :
    {T : Type 0} (target : EpisodeState) (cause : Option TransitionCause) (e : Episode T)
    (entry : EpisodeTransition)
    → next_record target cause e ≡ ok entry
    → (entry.episode_id ≡ e.episode_id)
      × (entry.sequence ≡ length e.transition_records + 1)
      × (entry.previous_state ≡ e.state)
      × (entry.resulting_state ≡ target)
unfolding next_record
next_record_fields target cause e entry h =
    resolved_fields (cause_or_default cause e.state target) e.episode_id
      (length e.transition_records + 1) e.state target entry h

-- The result of a step: refused with state and history as they were, or committed.
abbrev pub IsAtomic :
    {T : Type 0}
    → Episode T
    → EpisodeState
    → Result RuntimeError EpisodeTransition × Episode T
    → Type 0
IsAtomic e target (result, after) =
    ((is_ok result ≡ false)
      × (after.state ≡ e.state)
      × (after.transition_records ≡ e.transition_records)
      × (after.events ≡ e.events)
      × (after.episode_id ≡ e.episode_id)
      × (after.replay_source ≡ e.replay_source))
    ⊎ ((entry : EpisodeTransition) × IsCommitted e after target entry)

module _ {T : Type 0} (record_event : AvpEvent → Method RuntimeError T (Unit {0})) where
  pub emit-SameLifecycle :
      (event_type plane : String) (logical_time : ℕ) (payload state : Fields)
      (evidence : List String) (e : Episode T)
      → SameLifecycle e (emit record_event event_type plane logical_time payload state evidence e).1
  unfolding emit
  emit-SameLifecycle event_type plane logical_time payload state evidence e = ground arith

  pub emit-IsEmitted :
      (event_type plane : String) (logical_time : ℕ) (payload state : Fields)
      (evidence : List String) (e : Episode T)
      → IsEmitted e.episode_id event_type payload e.events
          (emit record_event event_type plane logical_time payload state evidence e).1.events
  unfolding emit next_event
  emit-IsEmitted event_type plane logical_time payload state evidence e = record {
    event = next_event event_type plane logical_time payload state evidence e;
    appended = ground arith;
    kind_of = refl;
    payload_of = refl;
    numbered = refl;
    owner = refl;
    named = refl;
  }

  commit-IsEmitted :
      (target : EpisodeState) (e frozen : Episode T)
      → frozen.events ≡ e.events
      → frozen.episode_id ≡ e.episode_id
      → (entry : EpisodeTransition)
      → IsEmitted e.episode_id "episode.transition"
          (transition_dict entry)
          e.events
          (commit record_event target entry frozen).1.events
  unfolding commit
  commit-IsEmitted target e frozen v i entry =
      rw (← v, ← i)
        (emit-IsEmitted "episode.transition" "orchestrator" 0 (transition_dict entry) end []
          (record frozen {
            state = target;
            transition_records = frozen.transition_records ++ entry ∷ [];
          }))

  commit-IsAtomic :
      (target : EpisodeState) (cause : Option TransitionCause) (e frozen : Episode T)
      (same_state : frozen.state ≡ e.state)
      (same_records : frozen.transition_records ≡ e.transition_records)
      (same_events : frozen.events ≡ e.events) (same_id : frozen.episode_id ≡ e.episode_id)
      (same_source : frozen.replay_source ≡ e.replay_source)
      (made : Result RuntimeError EpisodeTransition)
      → next_record target cause frozen ≡ made
      → e.state ⟶ target
      → IsAtomic e target (commit_result record_event target made frozen)
  unfolding commit emit
  commit-IsAtomic target cause e frozen s r v i o (raise error) h arrow = inl (refl, s, r, v, i, o)
  commit-IsAtomic target cause e frozen s r v i o (ok entry) h arrow =
      let facts = next_record_fields target cause frozen entry h in
      inr (
        entry,
        record {
          arrow = arrow;
          new_state = ground arith;
          appended = ground arith;
          numbered = ground arith;
          left_state = ground arith;
          entered = ground arith;
          owner = ground arith;
          same_id = ground arith;
          same_source = ground arith;
          observed = commit-IsEmitted target e frozen v i entry;
        },
      )

  freeze-IsAtomic :
      (target : EpisodeState) (cause : Option TransitionCause) (e : Episode T)
      (frozen : Result RuntimeError (Option OracleEvaluationRecord))
      → e.state ⟶ target
      → IsAtomic e target (freeze_and_commit record_event target cause frozen e)
  freeze-IsAtomic target cause e (raise error) arrow = inl (refl, refl, refl, refl, refl, refl)
  freeze-IsAtomic target cause e (ok evaluation) arrow =
      commit-IsAtomic target cause e (record e { oracle_evaluation = evaluation }) refl refl refl
        refl refl _ refl arrow

  asserted-IsAtomic :
      (target : EpisodeState) (cause : Option TransitionCause) (e : Episode T)
      (asserted : Result RuntimeError (Unit {0}))
      → assert_transition e.state target ≡ asserted
      → IsAtomic e target (transition_if record_event target cause asserted e)
  asserted-IsAtomic target cause e (raise error) h = inl (refl, refl, refl, refl, refl, refl)
  asserted-IsAtomic target cause e (ok tt) h =
      freeze-IsAtomic target cause e (freeze_for target e) (assert_transition-⟶ e.state target h)

  -- A transition is refused with state, history and timeline as they were, or it follows an arrow
  -- of the diagram and appends its one canonical record, also where the telemetry session raises.
  pub transition-IsAtomic :
      (target : EpisodeState) (cause : Option TransitionCause) (e : Episode T)
      → IsAtomic e target (transition record_event target cause e)
  unfolding transition
  transition-IsAtomic target cause e =
      asserted-IsAtomic target cause e (assert_transition e.state target) refl

-- The replay link is refused with the Episode as it was, or it is set on an Episode that has no
-- link, no history, and another identifier than its source.
pub bind_replay_source-cases :
    {T : Type 0} (source : ReplaySourceIdentity) (e : Episode T)
    → ((is_ok (bind_replay_source source e).0 ≡ false) × ((bind_replay_source source e).1 ≡ e))
      ⊎ ((e.state ≡ created)
          × (e.transition_records ≡ [])
          × (e.replay_source ≡ none)
          × (source.episode_id ≢ e.episode_id)
          × ((bind_replay_source source e).1 ≡ record e { replay_source = some source }))
unfolding bind_replay_source
bind_replay_source-cases source e = ground (arith, eq_iff source.episode_id e.episode_id)
