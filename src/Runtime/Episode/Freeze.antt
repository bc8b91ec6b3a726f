-- ===== src/Runtime/Episode/Freeze.antt =====
-- When a step freezes an Oracle evaluation, and what it freezes.
use agent_verification_proto.Base.{
  ◌≡◌, refl, ◌∙◌, ◌⊎◌, inl, inr, true, Option, none, some, Method, Result, ok, raise, arith,
  is_unique,
}
use agent_verification_proto.Base.Sets.{is_unique-sorted_set}
use agent_verification_proto.Models.{AvpEvent}
use agent_verification_proto.Runtime.State.{
  EpisodeState, RuntimeError, completed, invalid, assert_transition,
}
use agent_verification_proto.Runtime.Lifecycle.{TransitionCause, EpisodeTransition}
use agent_verification_proto.Runtime.Acceptance.{OracleEvaluationRecord}
use agent_verification_proto.Runtime.Evaluation.Judgement.{IsAccepted, freeze-IsAccepted}
use agent_verification_proto.Runtime.Record.{Episode, emit}
use agent_verification_proto.Runtime.Evaluation.{freeze_oracle_evaluation, cited_evidence}
use agent_verification_proto.Runtime.Episode.{
  transition, transition_if, freeze_and_commit, commit, commit_result, next_record, freeze_for,
}

module _ {T : Type 0} (record_event : AvpEvent → Method RuntimeError T (Unit {0})) where
  commit_evaluation :
      (target : EpisodeState) (made : Result RuntimeError EpisodeTransition) (e : Episode T)
      → (commit_result record_event target made e).1.oracle_evaluation ≡ e.oracle_evaluation
  unfolding commit emit
  commit_evaluation target (raise error) e = refl
  commit_evaluation target (ok entry) e = ground arith

  -- A step changes the accepted evaluation only by freezing it.
  freeze_evaluation :
      (target : EpisodeState) (cause : Option TransitionCause) (e : Episode T)
      (frozen : Result RuntimeError (Option OracleEvaluationRecord))
      → let after = (freeze_and_commit record_event target cause frozen e).1 in
        (after.oracle_evaluation ≡ e.oracle_evaluation) ⊎ (frozen ≡ ok after.oracle_evaluation)
  freeze_evaluation target cause e (raise error) = inl refl
  freeze_evaluation target cause e (ok evaluation) =
      let frozen : Episode T = record e { oracle_evaluation = evaluation } in
      inr (ground (arith, commit_evaluation target (next_record target cause frozen) frozen))

  transition_evaluation :
      (target : EpisodeState) (cause : Option TransitionCause) (e : Episode T)
      → let after = (transition record_event target cause e).1 in
        (after.oracle_evaluation ≡ e.oracle_evaluation)
        ⊎ (freeze_for target e ≡ ok after.oracle_evaluation)
  unfolding transition
  transition_evaluation target cause e = by_assertion (assert_transition e.state target)
    where
      by_assertion :
          (asserted : Result RuntimeError (Unit {0}))
          → let after = (transition_if record_event target cause asserted e).1 in
            (after.oracle_evaluation ≡ e.oracle_evaluation)
            ⊎ (freeze_for target e ≡ ok after.oracle_evaluation)
      by_assertion (raise error) = inl refl
      by_assertion (ok _) = freeze_evaluation target cause e (freeze_for target e)

  pub transition_keeps_evaluation :
      (target : EpisodeState) (cause : Option TransitionCause) (e : Episode T)
      (r : OracleEvaluationRecord)
      → e.oracle_evaluation ≡ some r
      → (transition record_event target cause e).1.oracle_evaluation ≡ some r
  unfolding freeze_oracle_evaluation
  transition_keeps_evaluation target cause e r h = elim (transition_evaluation target cause e) [
    | inl same ↦ same ∙ h
    | inr frozen ↦ ground arith
  ]

module _ {T : Type 0} (record_event : AvpEvent → Method RuntimeError T (Unit {0})) where
  -- A step that brings an accepted evaluation where there was none goes to COMPLETED or INVALID,
  -- and the record is the judgement of the Episode's own results: INCONCLUSIVE and without results
  -- on an Oracle failure; else FAIL exactly when a critical result fails, PASS otherwise, over all
  -- the results, with an execution record, and on INVALID only if there are results. The
  -- evidence identifiers are the sorted set of those that the accepted results cite, without
  -- repetition.
  pub transition-IsAccepted :
      (target : EpisodeState) (cause : Option TransitionCause) (e : Episode T)
      (r : OracleEvaluationRecord)
      → e.oracle_evaluation ≡ none
      → (transition record_event target cause e).1.oracle_evaluation ≡ some r
      → ((target ≡ completed) ⊎ (target ≡ invalid))
        × IsAccepted target e r
        × (is_unique r.evidence_ids ≡ true)
  transition-IsAccepted target cause e r n h =
      elim (transition_evaluation record_event target cause e) [
        | inl same ↦ cc
        | inr frozen ↦
            let now : freeze_for target e ≡ ok (some r) = cc in
            let accepted = freeze-IsAccepted target e r n (froze now) in
            (
              boundary now,
              accepted,
              rw accepted.cited (is_unique-sorted_set (cited_evidence r.accepted_results)),
            )
      ]
    where
      froze : freeze_for target e ≡ ok (some r) → freeze_oracle_evaluation target e ≡ ok (some r)
      froze now = ground arith

      boundary : freeze_for target e ≡ ok (some r) → (target ≡ completed) ⊎ (target ≡ invalid)
      boundary now = ground arith
