-- ===== src/Runtime/Evaluation/Judgement.antt =====
-- What a frozen evaluation says of the Episode that it was taken from.
use agent_verification_proto.Base.{
  ◌≡◌, ◌≢◌, true, false, Option, none, some, [], any, Result, ok, is_some, is_none, if◌then◌else◌,
  String, arith,
}
use agent_verification_proto.Base.Sets.{sorted_set}
use agent_verification_proto.Base.Json.{get}
use agent_verification_proto.Models.{
  AvpEvent, oracle_failure, valid, inconclusive, pass, fail, is_oracle_failure,
}
use agent_verification_proto.Runtime.State.{EpisodeState, RuntimeError, invalid}
use agent_verification_proto.Runtime.Acceptance.{
  OracleEvaluationRecord, new_evaluation_record-ok, check_validity,
}
use agent_verification_proto.Runtime.Record.{Episode}
use agent_verification_proto.Runtime.Evaluation.{
  freeze_oracle_evaluation, accept, evaluation_of, is_critical_failure, cited_evidence,
  accept_identified, freeze_from, non_empty, digest_of,
}

unless_frozen :
    (o : Option OracleEvaluationRecord) (x : Result RuntimeError (Option OracleEvaluationRecord))
    (r : OracleEvaluationRecord)
    → o ≡ none
    → (if is_some o then ok o else x) ≡ ok (some r)
    → x ≡ ok (some r)
unless_frozen o x r n h = ground arith

-- What a frozen record says of the Episode that it was taken from.
pub record IsAccepted {T : Type 0} (target : EpisodeState) (e : Episode T)
    (r : OracleEvaluationRecord) : Type 0 where
  pub judged :
      r.evaluation_validity ≡ (if is_oracle_failure e.validity then oracle_failure else valid)
  pub failed :
      is_oracle_failure e.validity ≡ true
      → (r.task_verdict ≡ inconclusive)
        × (r.accepted_results ≡ [])
        × (r.validity_detail ≡ e.validity_detail)
        × (is_none e.validity_detail ≡ false)
  pub succeeded :
      is_oracle_failure e.validity ≡ false
      → (is_none r.execution_record_digest ≡ false)
        × (r.accepted_results ≡ e.verification)
        × (r.task_verdict ≡ (if any is_critical_failure e.verification then fail else pass))
        × (r.validity_detail ≡ none)
  pub reached : is_oracle_failure e.validity ≡ false → target ≡ invalid → e.verification ≢ []
  pub cited : r.evidence_ids ≡ sorted_set (cited_evidence r.accepted_results)

module _ {T : Type 0} where
  -- A record comes out of `accept` only past the early returns and the checks.
  accept-some :
      (target : EpisodeState) (e : Episode T) (id version contents input : String)
      (execution : Option String) (r : OracleEvaluationRecord)
      → accept target e id version contents input execution ≡ ok (some r)
      → (r ≡ evaluation_of e id version contents input execution)
        × (check_validity r ≡ ok tt)
        × (is_oracle_failure e.validity ≡ false → is_none execution ≡ false)
        × (is_oracle_failure e.validity ≡ false → target ≡ invalid → e.verification ≢ [])
  unfolding accept
  accept-some target e id version contents input execution r h =
      let made = evaluation_of e id version contents input execution in
      ground (arith, new_evaluation_record-ok made r)

  accept-IsAccepted :
      (target : EpisodeState) (e : Episode T) (id version contents input : String)
      (execution : Option String) (r : OracleEvaluationRecord)
      → accept target e id version contents input execution ≡ ok (some r)
      → IsAccepted target e r
  unfolding evaluation_of check_validity
  accept-IsAccepted target e id version contents input execution r h =
      let (made, checked, executed, reached) =
        accept-some target e id version contents input execution r h in
      record {
        judged = ground arith;
        failed = λ f. ground arith;
        succeeded = λ f. ground arith;
        reached = reached;
        cited = ground arith;
      }

  identified-IsAccepted :
      (target : EpisodeState) (e : Episode T) (id version contents input execution : Option String)
      (r : OracleEvaluationRecord)
      → accept_identified target e id version contents input execution ≡ ok (some r)
      → IsAccepted target e r
  identified-IsAccepted target e (some id) (some version) (some contents) (some input) execution r
        h =
      accept-IsAccepted target e id version contents input execution r h
  identified-IsAccepted target e none version contents input execution r h = cc
  identified-IsAccepted target e (some id) none contents input execution r h = cc
  identified-IsAccepted target e (some id) (some version) none input execution r h = cc
  identified-IsAccepted target e (some id) (some version) (some contents) none execution r h = cc

  from-IsAccepted :
      (target : EpisodeState) (e : Episode T) (started request execution : Option AvpEvent)
      (r : OracleEvaluationRecord)
      → freeze_from target e started request execution ≡ ok (some r)
      → IsAccepted target e r
  from-IsAccepted target e (some started) (some request) execution r h =
      identified-IsAccepted target e (non_empty (get "oracle_id" started.payload))
        (non_empty (get "oracle_version" started.payload))
        (non_empty (get "oracle_package_digest" started.payload))
        (non_empty (get "input_digest" request.payload)) (digest_of execution) r h
  from-IsAccepted target e none request execution r h = cc
  from-IsAccepted target e (some started) none execution r h = cc

  pub freeze-IsAccepted :
      (target : EpisodeState) (e : Episode T) (r : OracleEvaluationRecord)
      → e.oracle_evaluation ≡ none
      → freeze_oracle_evaluation target e ≡ ok (some r)
      → IsAccepted target e r
  unfolding freeze_oracle_evaluation
  freeze-IsAccepted target e r n h =
      from-IsAccepted target e _ _ _ r (unless_frozen e.oracle_evaluation _ r n h)
