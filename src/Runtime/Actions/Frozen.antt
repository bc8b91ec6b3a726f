-- ===== src/Runtime/Actions/Frozen.antt =====
-- What is frozen once it is set: the Oracle's accepted evaluation, and the link of a replay.
use agent_verification_proto.Base.{
  ◌≡◌, refl, ◌∙◌, ◌⊎◌, ◌≢◌, inl, inr, Option, none, some, List, [], ◌∷◌, Method,
}
use agent_verification_proto.Models.{AvpEvent}
use agent_verification_proto.Runtime.State.{EpisodeState, RuntimeError}
use agent_verification_proto.Runtime.Lifecycle.{TransitionCause}
use agent_verification_proto.Runtime.Acceptance.{OracleEvaluationRecord}
use agent_verification_proto.Runtime.Record.{Episode, ReplaySourceIdentity}
use agent_verification_proto.Runtime.Episode.{transition}
use agent_verification_proto.Runtime.Episode.Freeze.{transition_keeps_evaluation}
use agent_verification_proto.Runtime.Episode.Commit.{
  emit-SameLifecycle, transition-IsAtomic, bind_replay_source-cases,
}
use agent_verification_proto.Runtime.Actions.{Action, emitting, moving, linking, perform, run}

module _ {T : Type 0} (record_event : AvpEvent → Method RuntimeError T (Unit {0})) where
  perform_keeps_evaluation :
      (action : Action) (e : Episode T) (r : OracleEvaluationRecord)
      → e.oracle_evaluation ≡ some r
      → (perform record_event action e).oracle_evaluation ≡ some r
  unfolding perform
  perform_keeps_evaluation (emitting event_type plane time payload state evidence) e r h =
      (emit-SameLifecycle record_event event_type plane time payload state evidence
        e).same_evaluation
      ∙ h
  perform_keeps_evaluation (moving target cause) e r h =
      transition_keeps_evaluation record_event target cause e r h
  perform_keeps_evaluation (linking source) e r h = elim (bind_replay_source-cases source e) [
    | inl (_, same) ↦ rw same h
    | inr (_, _, _, _, linked) ↦ rw linked h
  ]
  perform_keeps_evaluation _ e r h = h

  -- What the verifier accepted is never rewritten, whatever is done to the Episode afterwards.
  pub run_keeps_evaluation :
      (actions : List Action) (e : Episode T) (r : OracleEvaluationRecord)
      → e.oracle_evaluation ≡ some r
      → (run record_event actions e).oracle_evaluation ≡ some r
  unfolding run
  run_keeps_evaluation [] e r h = h
  run_keeps_evaluation (action ∷ actions) e r h =
      run_keeps_evaluation actions (perform record_event action e) r
        (perform_keeps_evaluation action e r h)

  transition_keeps_source :
      (target : EpisodeState) (cause : Option TransitionCause) (e : Episode T)
      → ((transition record_event target cause e).1.replay_source ≡ e.replay_source)
        × ((transition record_event target cause e).1.episode_id ≡ e.episode_id)
  transition_keeps_source target cause e = elim (transition-IsAtomic record_event target cause e) [
    | inl (_, _, _, _, i, o) ↦ (o, i)
    | inr (entry, c) ↦ (c.same_source, c.same_id)
  ]

  perform_source :
      (action : Action) (e : Episode T)
      → ((perform record_event action e).episode_id ≡ e.episode_id)
        × (((perform record_event action e).replay_source ≡ e.replay_source)
            ⊎ ((e.replay_source ≡ none)
                × (e.transition_records ≡ [])
                × ((source : ReplaySourceIdentity) × (source.episode_id ≢ e.episode_id)
                    × ((perform record_event action e).replay_source ≡ some source))))
  unfolding perform
  perform_source (emitting event_type plane time payload state evidence) e =
      let same = emit-SameLifecycle record_event event_type plane time payload state evidence e in
      (same.same_id, inl same.same_source)
  perform_source (moving target cause) e =
      let (o, i) = transition_keeps_source target cause e in (i, inl o)
  perform_source (linking source) e = elim (bind_replay_source-cases source e) [
    | inl (_, same) ↦ rw same (refl, inl refl)
    | inr (_, records, unlinked, other, linked) ↦
        rw linked (refl, inr (unlinked, records, (source, other, refl)))
  ]
  perform_source _ e = (refl, inl refl)

  perform_keeps_source :
      (action : Action) (e : Episode T) (source : ReplaySourceIdentity)
      → e.replay_source ≡ some source
      → (perform record_event action e).replay_source ≡ some source
  perform_keeps_source action e source h = elim (perform_source action e).1 [
    | inl same ↦ same ∙ h
    | inr (unlinked, _, _) ↦ cc
  ]

  -- The replay link of an Episode, once it is set, is never changed, whatever is done to the
  -- Episode afterwards.
  pub run_keeps_source :
      (actions : List Action) (e : Episode T) (source : ReplaySourceIdentity)
      → e.replay_source ≡ some source
      → (run record_event actions e).replay_source ≡ some source
  unfolding run
  run_keeps_source [] e source h = h
  run_keeps_source (action ∷ actions) e source h =
      run_keeps_source actions (perform record_event action e) source
        (perform_keeps_source action e source h)
