-- ===== src/Tests/Oracle.antt =====
-- An Episode whose Oracle found a critical failure, at the step to COMPLETED.
use agent_verification_proto.Base.{
  ℕ, String, ◌≡◌, refl, ◌⊎◌, true, none, some, [], ◌∷◌, is_unique, ok, Method,
}
use agent_verification_proto.Base.Json.{Fields, string, end, field, get}
use agent_verification_proto.Base.Sets.{sorted_set, insert_sorted}
use agent_verification_proto.Base.Text.{is_sha256}
use agent_verification_proto.Models.{AvpEvent, VerificationResult, valid, fail}
use agent_verification_proto.Runtime.State.{
  RuntimeError, verifying, completed, invalid, assert_transition,
}
use agent_verification_proto.Runtime.Lifecycle.{new_cause, new_transition, default_transition_cause}
use agent_verification_proto.Runtime.Acceptance.{
  OracleEvaluationRecord, check_validity, new_evaluation_record,
}
use agent_verification_proto.Runtime.Record.{Episode, new_episode, emit, next_event}
use agent_verification_proto.Runtime.Evaluation.{freeze_oracle_evaluation, evaluation_of, accept}
use agent_verification_proto.Runtime.Evaluation.Judgement.{IsAccepted}
use agent_verification_proto.Runtime.Episode.{transition, commit, next_record}
use agent_verification_proto.Runtime.Episode.Freeze.{transition-IsAccepted}
use agent_verification_proto.Runtime.Actions.{moving, verifying_with, run}
use agent_verification_proto.Runtime.Actions.Frozen.{run_keeps_evaluation}

abbrev silent_session : AvpEvent → Method RuntimeError ℕ (Unit {0})
silent_session event n = (ok tt, n)

abbrev sha : String
sha = "sha256:0123456789abcdef0123456789abcdef0123456789abcdef0123456789abcdef"

abbrev event_with : String → Fields → AvpEvent
event_with event_type payload = record {
  event_id = "evt_ep_1_0001";
  event_type = event_type;
  episode_id = "ep_1";
  sequence = 1;
  plane = "evaluator";
  logical_time = 0;
  payload = payload;
  state = end;
  evidence = [];
}

abbrev critical : VerificationResult
critical = record {
  claim_id = "no-double-refund";
  dimension = "safety";
  verdict = "FAIL";
  severity = "critical";
  method = "deterministic";
  evaluator_version = "1";
  evidence_ids = "ev_2" ∷ "ev_1" ∷ "ev_2" ∷ [];
  validity = valid;
}

abbrev judged : Episode ℕ
judged = record (new_episode "ep_1" none) {
  state = verifying;
  verification = critical ∷ [];
  events =
      event_with "episode.verification.started" (
        field "oracle_id" (string "oracle")
          (field "oracle_version" (string "1") (field "oracle_package_digest" (string sha) end)))
      ∷ event_with "oracle.execution.started" (field "input_digest" (string sha) end)
      ∷ event_with "oracle.execution.completed" (field "artifact_digest" (string sha) end)
      ∷ [];
}

abbrev verdict : OracleEvaluationRecord
verdict = record {
  oracle_id = "oracle";
  oracle_version = "1";
  package_digest = sha;
  input_digest = sha;
  execution_record_digest = some sha;
  evaluation_validity = valid;
  task_verdict = fail;
  accepted_results = critical ∷ [];
  evidence_ids = "ev_1" ∷ "ev_2" ∷ [];
  validity_detail = none;
}

judged_freezes :
    (transition silent_session completed none judged).1.oracle_evaluation ≡ some verdict
unfolding transition commit assert_transition next_record emit next_event default_transition_cause
    new_transition new_cause freeze_oracle_evaluation evaluation_of accept new_evaluation_record
    check_validity get sorted_set insert_sorted is_sha256 new_episode
judged_freezes = refl

judged_unfrozen : judged.oracle_evaluation ≡ none
unfolding new_episode
judged_unfrozen = refl

transition-IsAccepted_example :
    ((completed ≡ completed) ⊎ (completed ≡ invalid))
    × IsAccepted completed judged verdict
    × (is_unique verdict.evidence_ids ≡ true)
transition-IsAccepted_example =
    transition-IsAccepted silent_session completed none judged verdict judged_unfrozen
      judged_freezes

abbrev frozen : Episode ℕ
frozen = record judged { oracle_evaluation = some verdict }

run_keeps_evaluation_example :
    (run silent_session (verifying_with [] ∷ moving completed none ∷ []) frozen).oracle_evaluation
    ≡ some verdict
run_keeps_evaluation_example =
    run_keeps_evaluation silent_session (verifying_with [] ∷ moving completed none ∷ []) frozen
      verdict refl
