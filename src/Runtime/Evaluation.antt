-- ===== src/Runtime/Evaluation.antt =====
-- runtime/episode.py, _freeze_oracle_evaluation: what of the event timeline and of the verification
-- results becomes the accepted evaluation.
pub mod Judgement
use Prim.Native.String.{count}
use agent_verification_proto.Base.{
  ℕ, ◌+◌, String, Bool, ◌&&◌, ◌||◌, ◌-◌, not, true, false, Option, none, some, List, [], ◌∷◌, ◌++◌,
  map, any, ltb, ◌==◌, is_none, is_some, length, if◌then◌else◌, Result, ok, raise, Method, ◌>>=◌,
}
use agent_verification_proto.Base.Text.{◌<>◌, str, is_empty}
use agent_verification_proto.Base.Json.{Value, string, Fields, end, get}
use agent_verification_proto.Base.Dict.{Dict}
use agent_verification_proto.Base.Sets.{sorted_set}
use agent_verification_proto.Models.{
  TaskVerdict, Validity, ValidityDetail, Evidence, VerificationResult, AvpEvent, pass, fail,
  inconclusive, valid, oracle_failure, is_oracle_failure,
}
use agent_verification_proto.Runtime.State.{
  EpisodeState, created, completed, invalid, is_state, RuntimeError, invalid_episode_transition,
  value_error, assert_transition,
}
use agent_verification_proto.Runtime.Lifecycle.{
  TransitionCause, EpisodeTransition, new_transition, default_transition_cause, transition_dict,
}
use agent_verification_proto.Runtime.Acceptance.{OracleEvaluationRecord, new_evaluation_record}
use agent_verification_proto.Runtime.Record.{Episode}

-- next((event for event in events if test(event)), None)
abbrev pub find_first : (AvpEvent → Bool) → List AvpEvent → Option AvpEvent
find_first test [] = none
find_first test (event ∷ events) = if test event then some event else find_first test events

-- The same over `reversed(events)`: what the rest finds comes later, so it is preferred.
abbrev prefer : Option AvpEvent → Option AvpEvent → Option AvpEvent
prefer (some later) earlier = some later
prefer none earlier = earlier

abbrev pub find_last : (AvpEvent → Bool) → List AvpEvent → Option AvpEvent
find_last test [] = none
find_last test (event ∷ events) =
    prefer (find_last test events) (if test event then some event else none)

-- A payload value that is a non-empty `str`.
abbrev non_empty : Option Value → Option String
non_empty (some (string text)) = if is_empty text then none else some text
non_empty _ = none

abbrev digest_of : Option AvpEvent → Option String
digest_of none = none
digest_of (some execution) = non_empty (get "artifact_digest" execution.payload)

abbrev pub is_critical_failure : VerificationResult → Bool
is_critical_failure result = result.verdict == "FAIL" && result.severity == "critical"

abbrev is_nil {ℓ} : {A : Type ℓ} → List A → Bool
is_nil [] = true
is_nil (_ ∷ _) = false

abbrev pub cited_evidence : List VerificationResult → List String
cited_evidence [] = []
cited_evidence (result ∷ results) = result.evidence_ids ++ cited_evidence results

module _ {T : Type 0} where
  -- The record that the last part of `_freeze_oracle_evaluation` builds.
  unfoldable pub evaluation_of :
      Episode T → String → String → String → String → Option String → OracleEvaluationRecord
  evaluation_of e oracle_id oracle_version package_digest input_digest execution_record_digest =
      let failed = is_oracle_failure e.validity in
      let accepted = if failed then [] else e.verification in
      record {
        oracle_id = oracle_id;
        oracle_version = oracle_version;
        package_digest = package_digest;
        input_digest = input_digest;
        execution_record_digest = execution_record_digest;
        evaluation_validity = if failed then oracle_failure else valid;
        task_verdict =
            if failed
            then inconclusive
            else if any is_critical_failure accepted
            then fail
            else pass;
        accepted_results = accepted;
        evidence_ids = sorted_set (cited_evidence accepted);
        validity_detail = if failed then e.validity_detail else none;
      }

  -- The early returns behind `oracle_failure`, and the construction.
  unfoldable pub accept :
      EpisodeState
      → Episode T
      → String
      → String
      → String
      → String
      → Option String
      → Result RuntimeError (Option OracleEvaluationRecord)
  accept target e oracle_id oracle_version package_digest input_digest execution_record_digest =
      if not (is_oracle_failure e.validity) && is_none execution_record_digest
      then ok none
      else if not (is_oracle_failure e.validity)
          && (is_state target invalid && is_nil e.verification)
      then ok none
      else (do
        accepted ← new_evaluation_record (
            evaluation_of e oracle_id oracle_version package_digest input_digest
              execution_record_digest)
        ok (some accepted))

  -- The test `all(isinstance(value, str) and value …)` over the four identities.
  abbrev accept_identified :
      EpisodeState
      → Episode T
      → Option String
      → Option String
      → Option String
      → Option String
      → Option String
      → Result RuntimeError (Option OracleEvaluationRecord)
  accept_identified target e (some id) (some version) (some contents) (some input) execution =
      accept target e id version contents input execution
  accept_identified target e _ _ _ _ execution = ok none

  abbrev freeze_from :
      EpisodeState
      → Episode T
      → Option AvpEvent
      → Option AvpEvent
      → Option AvpEvent
      → Result RuntimeError (Option OracleEvaluationRecord)
  freeze_from target e (some started) (some request) execution =
      accept_identified target e (non_empty (get "oracle_id" started.payload))
        (non_empty (get "oracle_version" started.payload))
        (non_empty (get "oracle_package_digest" started.payload))
        (non_empty (get "input_digest" request.payload)) (digest_of execution)
  freeze_from target e _ _ execution = ok none

  -- _freeze_oracle_evaluation: the value of `_oracle_evaluation` afterwards.
  unfoldable pub freeze_oracle_evaluation :
      EpisodeState → Episode T → Result RuntimeError (Option OracleEvaluationRecord)
  freeze_oracle_evaluation target e =
      if is_some e.oracle_evaluation
      then ok e.oracle_evaluation
      else freeze_from target e
          (find_first (λ event. event.event_type == "episode.verification.started") e.events)
          (find_first (λ event. event.event_type == "oracle.execution.started") e.events)
          (find_last
            (λ event.
              event.event_type == "oracle.execution.completed"
              || event.event_type == "oracle.execution.failed")
            e.events)
