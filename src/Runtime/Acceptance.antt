-- ===== src/Runtime/Acceptance.antt =====
-- oracle_runner/models.py, OracleEvaluationRecord: the immutable record of what the verifier
-- accepted from an Oracle, with the checks that its construction makes.
use agent_verification_proto.Base.{
  String, ◌≡◌, Bool, ◌||◌, not, true, false, Option, none, some, List, [], ◌∷◌, all, is_unique,
  is_none, is_some, if◌then◌else◌, Result, ok, ◌>>◌, raise_if, arith,
}
use agent_verification_proto.Base.Text.{is_empty, is_sha256}
use agent_verification_proto.Models.{
  TaskVerdict, Validity, ValidityDetail, VerificationResult, is_valid, is_oracle_failure,
  is_inconclusive, has_length,
}
use agent_verification_proto.Runtime.State.{RuntimeError, value_error}

pub record OracleEvaluationRecord : Type 0 where
  pub oracle_id : String
  pub oracle_version : String
  pub package_digest : String
  pub input_digest : String
  pub execution_record_digest : Option String
  pub evaluation_validity : Validity
  pub task_verdict : TaskVerdict
  pub accepted_results : List VerificationResult
  pub evidence_ids : List String
  pub validity_detail : Option ValidityDetail

abbrev is_nil {ℓ} : {A : Type ℓ} → List A → Bool
is_nil [] = true
is_nil (_ ∷ _) = false

-- `_require_sha256` of the execution digest, when there is one.
abbrev absent_or_sha256 : Option String → Bool
absent_or_sha256 none = true
absent_or_sha256 (some digest) = is_sha256 digest

-- What the last branch of `__post_init__` checks, by the validity of the evaluation.
unfoldable pub check_validity : OracleEvaluationRecord → Result RuntimeError (Unit {0})
check_validity r =
    if is_oracle_failure r.evaluation_validity
    then (raise_if
        (is_none r.validity_detail
          || (not (is_inconclusive r.task_verdict) || not (is_nil r.accepted_results)))
        value_error)
    else raise_if (is_none r.execution_record_digest || is_some r.validity_detail) value_error

-- OracleEvaluationRecord.__post_init__
unfoldable pub new_evaluation_record :
    OracleEvaluationRecord → Result RuntimeError OracleEvaluationRecord
new_evaluation_record r = do
  raise_if (is_empty r.oracle_id || is_empty r.oracle_version) value_error
  raise_if (not (is_sha256 r.package_digest)) value_error
  raise_if (not (is_sha256 r.input_digest)) value_error
  raise_if (not (absent_or_sha256 r.execution_record_digest)) value_error
  raise_if (not (is_valid r.evaluation_validity || is_oracle_failure r.evaluation_validity))
      value_error
  raise_if (not (is_unique r.evidence_ids)) value_error
  raise_if (not (all (has_length 1 256) r.evidence_ids)) value_error
  raise_if (not (all (λ item. is_valid item.validity) r.accepted_results)) value_error
  check_validity r
  ok r

-- A record that is constructed is the given one, and has passed the last check.
pub new_evaluation_record-ok :
    (r s : OracleEvaluationRecord)
    → new_evaluation_record r ≡ ok s
    → (s ≡ r) × (check_validity r ≡ ok tt)
unfolding new_evaluation_record
new_evaluation_record-ok r s h = ground arith
