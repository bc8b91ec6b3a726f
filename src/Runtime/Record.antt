-- ===== src/Runtime/Record.antt =====
-- runtime/episode.py (the fields of the Episode) and events.py (EventRecorder). The telemetry
-- session is a parameter: a type `T` of its states, and `record_event`, which may raise. The
-- identities `scenario`, `agent_system` and `manifest` are left out: no method of the Episode
-- reads them.
use Prim.Native.String.{count}
use agent_verification_proto.Base.{
  ℕ, ◌+◌, String, ◌-◌, Option, none, some, List, [], ◌∷◌, ◌++◌, ltb, length, if◌then◌else◌, Result,
  ok, Method, ◌>>=◌,
}
use agent_verification_proto.Base.Text.{◌<>◌, str}
use agent_verification_proto.Base.Json.{Fields}
use agent_verification_proto.Base.Dict.{Dict}
use agent_verification_proto.Models.{
  TaskVerdict, Validity, ValidityDetail, Evidence, VerificationResult, AvpEvent, inconclusive,
  valid,
}
use agent_verification_proto.Runtime.State.{EpisodeState, created, RuntimeError}
use agent_verification_proto.Runtime.Lifecycle.{EpisodeTransition}
use agent_verification_proto.Runtime.Acceptance.{OracleEvaluationRecord}

pub record ReplaySourceIdentity : Type 0 where
  pub episode_id : String
  pub manifest_digest : String

pub record Episode (T : Type 0) : Type 0 where
  pub episode_id : String
  pub state : EpisodeState
  pub validity : Validity
  pub validity_detail : Option ValidityDetail
  pub task_verdict : TaskVerdict
  pub agent_report : Option String
  pub events : List AvpEvent
  pub evidence : Dict Evidence
  pub verification : List VerificationResult
  pub telemetry : Option T
  pub oracle_evaluation : Option OracleEvaluationRecord
  pub transition_records : List EpisodeTransition
  pub replay_source : Option ReplaySourceIdentity

-- Episode(episode_id, …): the defaults of the fields.
unfoldable pub new_episode : {T : Type 0} → String → Option T → Episode T
new_episode episode_id telemetry = record {
  episode_id = episode_id;
  state = created;
  validity = valid;
  validity_detail = none;
  task_verdict = inconclusive;
  agent_report = none;
  events = [];
  evidence = [];
  verification = [];
  telemetry = telemetry;
  oracle_evaluation = none;
  transition_records = [];
  replay_source = none;
}

-- f"{seq:04d}"
abbrev pad_zeros : ℕ → String → String
pad_zeros missing text =
    if ltb missing 1
    then text
    else if ltb missing 2
    then "0" <> text
    else if ltb missing 3
    then "00" <> text
    else "000" <> text

unfoldable pub padded : ℕ → String
padded n = pad_zeros (4 - count (str n)) (str n)

module _ {T : Type 0} where
  -- The event that `emit` builds.
  unfoldable pub next_event :
      String → String → ℕ → Fields → Fields → List String → Episode T → AvpEvent
  next_event event_type plane logical_time payload state evidence e =
      let seq = length e.events + 1 in
      record {
        event_id = "evt_" <> e.episode_id <> "_" <> padded seq;
        event_type = event_type;
        episode_id = e.episode_id;
        sequence = seq;
        plane = plane;
        logical_time = logical_time;
        payload = payload;
        state = state;
        evidence = evidence;
      }

module _ {T : Type 0} (record_event : AvpEvent → Method RuntimeError T (Unit {0})) where
  abbrev forward : AvpEvent → Option T → Episode T → Result RuntimeError AvpEvent × Episode T
  forward event none e = (ok event, e)
  forward event (some session) e =
      let (result, session') = record_event event session in
      (result >>= λ _. ok event, record e { telemetry = some session' })

  -- EventRecorder.emit
  unfoldable pub emit :
      String → String → ℕ → Fields → Fields → List String → Method RuntimeError (Episode T) AvpEvent
  emit event_type plane logical_time payload state evidence e =
      let event = next_event event_type plane logical_time payload state evidence e in
      forward event e.telemetry (record e { events = e.events ++ event ∷ [] })
