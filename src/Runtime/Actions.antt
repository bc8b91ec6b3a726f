-- ===== src/Runtime/Actions.antt =====
-- The use of an Episode by the runtime, as a sequence of actions: events of other kinds, lifecycle
-- steps, the replay link, and the assignments to fields that runtime/engine.py makes. An action
-- that raises ends, and what it wrote stays.
pub mod History
pub mod Timeline
pub mod Frozen
use agent_verification_proto.Base.{
  ℕ, String, Bool, true, false, Option, List, [], ◌∷◌, ◌==◌, Method, all, not,
}
use agent_verification_proto.Base.Json.{Fields}
use agent_verification_proto.Base.Dict.{Dict}
use agent_verification_proto.Models.{
  AvpEvent, Evidence, TaskVerdict, Validity, ValidityDetail, VerificationResult,
}
use agent_verification_proto.Runtime.State.{EpisodeState, RuntimeError}
use agent_verification_proto.Runtime.Lifecycle.{TransitionCause}
use agent_verification_proto.Runtime.Record.{Episode, ReplaySourceIdentity, emit}
use agent_verification_proto.Runtime.Episode.{transition, bind_replay_source}

pub data Action : Type 0 where
  emitting :
      (event_type plane : String) (logical_time : ℕ) (payload state : Fields)
      (evidence : List String)
      → Action
  moving : EpisodeState → Option TransitionCause → Action
  linking : ReplaySourceIdentity → Action
  judging : Validity → Option ValidityDetail → TaskVerdict → Action
  reporting : Option String → Action
  registering : Dict Evidence → Action
  verifying_with : List VerificationResult → Action

-- Only `transition` itself emits events of the kind "episode.transition".
abbrev is_foreign : Action → Bool
is_foreign (emitting event_type _ _ _ _ _) = not (event_type == "episode.transition")
is_foreign _ = true

abbrev pub are_foreign : List Action → Bool
are_foreign = all is_foreign

module _ {T : Type 0} (record_event : AvpEvent → Method RuntimeError T (Unit {0})) where
  unfoldable pub perform : Action → Episode T → Episode T
  perform (emitting event_type plane logical_time payload state evidence) e =
      (emit record_event event_type plane logical_time payload state evidence e).1
  perform (moving target cause) e = (transition record_event target cause e).1
  perform (linking source) e = (bind_replay_source source e).1
  perform (judging validity detail verdict) e = record e {
    validity = validity;
    validity_detail = detail;
    task_verdict = verdict;
  }
  perform (reporting report) e = record e { agent_report = report }
  perform (registering evidence) e = record e { evidence = evidence }
  perform (verifying_with results) e = record e { verification = results }

  unfoldable pub run : List Action → Episode T → Episode T
  run [] e = e
  run (action ∷ actions) e = run actions (perform action e)
