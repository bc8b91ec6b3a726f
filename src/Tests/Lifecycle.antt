-- ===== src/Tests/Lifecycle.antt =====
-- An Episode that is run through its states, with a telemetry session that raises at every event.
use agent_verification_proto.Base.{
  ◌≡◌, ◌↔◌, refl, true, none, some, List, [], ◌∷◌, length, ok, raise, Method,
}
use agent_verification_proto.Base.Json.{end}
use agent_verification_proto.Models.{AvpEvent}
use agent_verification_proto.Runtime.State.{
  RuntimeError, telemetry_failure, created, provisioning, ready, running, paused, quiescing,
  verifying, completed, aborted, assert_transition, is_terminal,
}
use agent_verification_proto.Runtime.State.Graph.{◌⟶◌, assert_transition_iff}
use agent_verification_proto.Runtime.Lifecycle.{new_cause, new_transition, default_transition_cause}
use agent_verification_proto.Runtime.Record.{
  Episode, ReplaySourceIdentity, new_episode, emit, next_event,
}
use agent_verification_proto.Runtime.Evaluation.{freeze_oracle_evaluation}
use agent_verification_proto.Runtime.Episode.{transition, bind_replay_source, commit, next_record}
use agent_verification_proto.Runtime.Episode.Commit.{IsAtomic, transition-IsAtomic}
use agent_verification_proto.Runtime.Actions.{Action, emitting, moving, linking, run, perform}
use agent_verification_proto.Runtime.Actions.History.{IsPath, history, run_terminal}
use agent_verification_proto.Runtime.Actions.Timeline.{IsProjected, timeline}

-- A session that counts its calls and raises at each.
abbrev failing_session : AvpEvent → Method RuntimeError (List AvpEvent) (Unit {0})
failing_session event events = (raise telemetry_failure, event ∷ events)

abbrev source : ReplaySourceIdentity
source = record { episode_id = "ep_0"; manifest_digest = "sha256:0" }

-- A link, the way to VERIFYING over a pause, a refused step, and the end.
abbrev whole_run : List Action
whole_run =
    linking source
    ∷ moving provisioning none
    ∷ moving ready none
    ∷ moving running none
    ∷ emitting "subject.reported" "subject" 3 end end []
    ∷ moving paused none
    ∷ moving running none
    ∷ moving created none
    ∷ moving quiescing none
    ∷ moving verifying none
    ∷ moving completed none
    ∷ []

abbrev other_source : ReplaySourceIdentity
other_source = record { episode_id = "ep_9"; manifest_digest = "sha256:9" }

abbrev whole : Episode (List AvpEvent)
whole = run failing_session whole_run (new_episode "ep_1" (some []))

reached_completed : whole.state ≡ completed
unfolding run perform new_episode transition commit assert_transition next_record bind_replay_source
    emit next_event default_transition_cause new_transition new_cause freeze_oracle_evaluation
reached_completed = refl

counted_records : length whole.transition_records ≡ 8
unfolding run perform new_episode transition commit assert_transition next_record bind_replay_source
    emit next_event default_transition_cause new_transition new_cause freeze_oracle_evaluation
counted_records = refl

whole_IsTerminal : is_terminal whole.state ≡ true
unfolding is_terminal
whole_IsTerminal = rw reached_completed refl

history_example : IsPath 1 created whole.transition_records whole.state
history_example = history failing_session "ep_1" (some []) whole_run

timeline_example : IsProjected whole
timeline_example = timeline failing_session "ep_1" (some []) whole_run refl

abbrev refused_run : List Action
refused_run = moving running none ∷ linking source ∷ moving aborted none ∷ []

run_terminal_example :
    ((run failing_session refused_run whole).state ≡ whole.state)
    × ((run failing_session refused_run whole).transition_records ≡ whole.transition_records)
run_terminal_example = run_terminal failing_session refused_run whole whole_IsTerminal

abbrev linked : Episode (List AvpEvent)
linked = record (new_episode "ep_1" (some [])) { replay_source = some source }

transition-IsAtomic_example :
    IsAtomic linked provisioning (transition failing_session provisioning none linked)
transition-IsAtomic_example = transition-IsAtomic failing_session provisioning none linked

assert_transition_iff_example : (assert_transition running paused ≡ ok tt) ↔ (running ⟶ paused)
assert_transition_iff_example = assert_transition_iff running paused
