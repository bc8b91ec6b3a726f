-- ===== src/Runtime/Episode.antt =====
-- runtime/episode.py, the methods of the Episode: `transition` and `bind_replay_source`.
pub mod Commit
pub mod Freeze
use Prim.Native.String.{count}
use agent_verification_proto.Base.{
  ℕ, ◌+◌, String, Bool, ◌&&◌, ◌||◌, ◌-◌, not, true, false, Option, none, some, List, [], ◌∷◌, ◌++◌,
  map, any, ltb, ◌==◌, is_none, is_some, length, if◌then◌else◌, Result, ok, raise, Method, ◌>>=◌,
}
use agent_verification_proto.Base.Text.{◌<>◌, str, is_empty}
use agent_verification_proto.Base.Json.{Value, string, Fields, end, get}
use agent_verification_proto.Base.Dict.{Dict}
use agent_verification_proto.Base.Sets.{sorted_set}
use agent_verification_proto.Models.{
  TaskVerdict, Validity, ValidityDetail, Evidence, VerificationResult, AvpEvent, pass, fail,
  inconclusive, valid, oracle_failure, is_oracle_failure,
}
use agent_verification_proto.Runtime.State.{
  EpisodeState, created, completed, invalid, is_state, RuntimeError, invalid_episode_transition,
  value_error, assert_transition,
}
use agent_verification_proto.Runtime.Lifecycle.{
  TransitionCause, EpisodeTransition, new_transition, default_transition_cause, transition_dict,
}
use agent_verification_proto.Runtime.Acceptance.{OracleEvaluationRecord, new_evaluation_record}
use agent_verification_proto.Runtime.Record.{Episode, ReplaySourceIdentity, emit}
use agent_verification_proto.Runtime.Evaluation.{freeze_oracle_evaluation}

abbrev is_nil {ℓ} : {A : Type ℓ} → List A → Bool
is_nil [] = true
is_nil (_ ∷ _) = false

abbrev cause_or_default :
    Option TransitionCause → EpisodeState → EpisodeState → Result RuntimeError TransitionCause
cause_or_default (some cause) previous target = ok cause
cause_or_default none previous target = default_transition_cause previous target

module _ {T : Type 0} where
  -- The canonical record of a transition out of the present state.
  unfoldable pub next_record :
      EpisodeState → Option TransitionCause → Episode T → Result RuntimeError EpisodeTransition
  next_record target cause e = do
    resolved ← cause_or_default cause e.state target
    new_transition e.episode_id (length e.transition_records + 1) e.state target resolved

  abbrev pub freeze_for :
      EpisodeState → Episode T → Result RuntimeError (Option OracleEvaluationRecord)
  freeze_for target e =
      if is_state target completed || is_state target invalid
      then freeze_oracle_evaluation target e
      else ok e.oracle_evaluation

  -- bind_replay_source
  unfoldable pub bind_replay_source :
      ReplaySourceIdentity → Method RuntimeError (Episode T) (Unit {0})
  bind_replay_source source e =
      if not (is_state e.state created) || not (is_nil e.transition_records)
      then (raise invalid_episode_transition, e)
      else if is_some e.replay_source
      then (raise invalid_episode_transition, e)
      else if source.episode_id == e.episode_id
      then (raise value_error, e)
      else (ok tt, record e { replay_source = some source })

module _ {T : Type 0} (record_event : AvpEvent → Method RuntimeError T (Unit {0})) where
  -- From the assignment of the state on.
  unfoldable pub commit :
      EpisodeState → EpisodeTransition → Method RuntimeError (Episode T) EpisodeTransition
  commit target entry e =
      let moved : Episode T = record e {
        state = target;
        transition_records = e.transition_records ++ entry ∷ [];
      } in
      let (result, emitted) =
        emit record_event "episode.transition" "orchestrator" 0 (transition_dict entry) end []
          moved in
      (result >>= λ _. ok entry, emitted)

  abbrev commit_result :
      EpisodeState
      → Result RuntimeError EpisodeTransition
      → Method RuntimeError (Episode T) EpisodeTransition
  commit_result target (raise error) e = (raise error, e)
  commit_result target (ok entry) e = commit target entry e

  abbrev freeze_and_commit :
      EpisodeState
      → Option TransitionCause
      → Result RuntimeError (Option OracleEvaluationRecord)
      → Method RuntimeError (Episode T) EpisodeTransition
  freeze_and_commit target cause (raise error) e = (raise error, e)
  freeze_and_commit target cause (ok evaluation) e =
      let frozen : Episode T = record e { oracle_evaluation = evaluation } in
      commit_result target (next_record target cause frozen) frozen

  abbrev transition_if :
      EpisodeState
      → Option TransitionCause
      → Result RuntimeError (Unit {0})
      → Method RuntimeError (Episode T) EpisodeTransition
  transition_if target cause (raise error) e = (raise error, e)
  transition_if target cause (ok _) e = freeze_and_commit target cause (freeze_for target e) e

  -- Episode.transition
  unfoldable pub transition :
      EpisodeState → Option TransitionCause → Method RuntimeError (Episode T) EpisodeTransition
  transition target cause e = transition_if target cause (assert_transition e.state target) e
