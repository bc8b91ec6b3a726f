-- ===== src/Relational/Resource/Uses.antt =====
-- Any sequence of uses of a relational resource.
use agent_verification_proto.Base.{
  ℕ, zero, suc, String, Bool, true, false, not, some, List, [], ◌∷◌, any, ◌≡◌, refl, ◌∙◌, sym, all,
  ok, raise, is_ok, arith, Option-cases, inl, inr,
}
use agent_verification_proto.Base.Json.{Value}
use agent_verification_proto.Relational.Values.{
  reference_error, RelationalRow, StateImage, RelationalSnapshot,
}
use agent_verification_proto.Relational.Lexical.{Lexicon}
use agent_verification_proto.Relational.Diff.{diff}
use agent_verification_proto.Relational.Resource.{
  RelationalResource, PendingMutation, MutationHandle, own, foreign, same_mutation, ensure_live,
  project, project_state, final_projection, state_image, subject_view, settlement_complete,
  nth_pending, begin_subject_mutation, settle_subject_mutation, enter_quiescing, snapshot, reset,
  restore, set_logical_binding_valid, set_execution_input_identity, release,
}

-- The methods that may change a resource.
pub data Use : Type 0 where
  mutating : (relation_id : String) → List RelationalRow → Use
  settling : MutationHandle → (commit : Bool) → Use
  entering snapshotting resetting releasing : Use
  restoring : RelationalSnapshot → Use
  binding : Bool → Use
  identifying : String → Use

-- The uses that write a state of another moment.
abbrev pub is_rewinding : Use → Bool
is_rewinding resetting = true
is_rewinding (restoring s) = true
is_rewinding _ = false

live_lem : (r : RelationalResource) → is_ok (ensure_live r) ≡ true → ensure_live r ≡ ok tt
live_lem r h = ground (arith, h)

final_lem :
    (projection_id : String) (r : RelationalResource)
    → is_ok (ensure_live r) ≡ true
    → r.quiescing ≡ true
    → settlement_complete r ≡ true
    → final_projection projection_id r
      ≡ project_state projection_id r.manifest r.manifest_digest r.state
unfolding final_projection project
final_lem projection_id r live q c = rw (live_lem r live, c, q) refl

module _ (lexicon : Lexicon) (canonical : Value → String) (digest : Value → String) where
  -- One use, with its result dropped.
  unfoldable pub step : Use → RelationalResource → RelationalResource
  step (mutating relation_id rows) r =
      (begin_subject_mutation lexicon canonical digest relation_id rows r).1
  step (settling handle commit) r = (settle_subject_mutation handle commit r).1
  step entering r = (enter_quiescing r).1
  step snapshotting r = (snapshot r).1
  step resetting r = (reset lexicon canonical digest r).1
  step releasing r = release r
  step (restoring s) r = (restore lexicon canonical digest s r).1
  step (binding valid) r = set_logical_binding_valid valid r
  step (identifying identity) r = (set_execution_input_identity identity r).1

  unfoldable pub run : List Use → RelationalResource → RelationalResource
  run [] r = r
  run (u ∷ us) r = run us (step u r)

  -- The state of `r` and the boundary it stands behind are those of `after`.
  abbrev pub IsFrozen : RelationalResource → RelationalResource → Type 0
  IsFrozen r after =
      (after.state ≡ r.state)
      × (after.manifest ≡ r.manifest)
      × (after.manifest_digest ≡ r.manifest_digest)
      × (after.quiescing ≡ true)
      × (settlement_complete after ≡ true)

  settled_of_nth :
      (n : ℕ) (ps : List PendingMutation) (p : PendingMutation)
      → all (λ p. p.settled) ps ≡ true
      → nth_pending n ps ≡ some p
      → p.settled ≡ true
  unfolding nth_pending
  settled_of_nth n [] p h e = absurd (ground (arith, e))
  settled_of_nth zero (q ∷ ps) p h e = ground (arith, h, e)
  settled_of_nth (suc n) (q ∷ ps) p h e = settled_of_nth n ps p (ground (arith, h)) e

  settled_of_same :
      (p : PendingMutation) (ps : List PendingMutation)
      → all (λ p. p.settled) ps ≡ true
      → any (same_mutation p) ps ≡ true
      → p.settled ≡ true
  settled_of_same p [] h e = absurd (ground (arith, e))
  settled_of_same p (q ∷ ps) h e = ground (arith, h, e, settled_of_same p ps)

  step-IsFrozen :
      (u : Use) (r : RelationalResource)
      → is_rewinding u ≡ false
      → r.quiescing ≡ true
      → settlement_complete r ≡ true
      → IsFrozen r (step u r)
  unfolding step begin_subject_mutation settle_subject_mutation enter_quiescing snapshot release
      set_logical_binding_valid set_execution_input_identity settlement_complete
  step-IsFrozen (mutating relation_id rows) r h q c = ground (arith, q, c)
  step-IsFrozen (settling (own place) commit) r h q c =
      elim (Option-cases (nth_pending place r.pending))
        as (λ _. IsFrozen r (step (settling (own place) commit) r)) [
          | inl e ↦ ground (arith, e, q, c)
          | inr (p, e) ↦ ground (arith, e, settled_of_nth place r.pending p c e, q, c)
        ]
  step-IsFrozen (settling (foreign p) commit) r h q c =
      ground (arith, settled_of_same p r.pending c, q, c)
  step-IsFrozen entering r h q c = ground (arith, q, c)
  step-IsFrozen snapshotting r h q c = ground (arith, q, c)
  step-IsFrozen resetting r h q c = absurd (ground (arith, h))
  step-IsFrozen releasing r h q c = ground (arith, q, c)
  step-IsFrozen (restoring s) r h q c = absurd (ground (arith, h))
  step-IsFrozen (binding valid) r h q c = ground (arith, q, c)
  step-IsFrozen (identifying identity) r h q c = ground (arith, q, c)

  run-IsFrozen :
      (uses : List Use) (r : RelationalResource)
      → all (λ u. not (is_rewinding u)) uses ≡ true
      → r.quiescing ≡ true
      → settlement_complete r ≡ true
      → IsFrozen r (run uses r)
  unfolding run
  run-IsFrozen [] r h q c = (refl, refl, refl, q, c)
  run-IsFrozen (u ∷ us) r h q c =
      let (s, m, d, q1, c1) = step-IsFrozen u r (ground (arith, h)) q c in
      let (s2, m2, d2, q2, c2) = run-IsFrozen us (step u r) (ground (arith, h)) q1 c1 in
      (s2 ∙ s, m2 ∙ m, d2 ∙ d, q2, c2)

  -- Behind the settled QUIESCING boundary the final projection stands still: whatever the resource is
  -- used for but a reset or a restore, as long as it is live, the projection is the same.
  pub final_projection-run :
      (projection_id : String) (uses : List Use) (r : RelationalResource)
      → all (λ u. not (is_rewinding u)) uses ≡ true
      → r.quiescing ≡ true
      → settlement_complete r ≡ true
      → is_ok (ensure_live r) ≡ true
      → is_ok (ensure_live (run uses r)) ≡ true
      → final_projection projection_id (run uses r) ≡ final_projection projection_id r
  final_projection-run projection_id uses r h q c live live_after =
      let (s, m, d, q1, c1) = run-IsFrozen uses r h q c in
      final_lem projection_id (run uses r) live_after q1 c1
      ∙ cc (s, m, d)
      ∙ sym (final_lem projection_id r live q c)

  -- What a released resource still is.
  abbrev pub IsReleased : RelationalResource → RelationalResource → Type 0
  IsReleased r after =
      (after.released ≡ true) × (after.state ≡ r.state) × (after.pending ≡ r.pending)

  dead_lem : (r : RelationalResource) → r.released ≡ true → ensure_live r ≡ raise reference_error
  unfolding ensure_live
  dead_lem r h = ground (arith, h)

  step-IsReleased : (u : Use) (r : RelationalResource) → r.released ≡ true → IsReleased r (step u r)
  unfolding step begin_subject_mutation settle_subject_mutation enter_quiescing snapshot state_image
      reset restore release set_logical_binding_valid set_execution_input_identity
  step-IsReleased (mutating relation_id rows) r h = ground (arith, h, dead_lem r h)
  step-IsReleased (settling handle commit) r h = ground (arith, h, dead_lem r h)
  step-IsReleased entering r h = ground (arith, h, dead_lem r h)
  step-IsReleased snapshotting r h = ground (arith, h, dead_lem r h)
  step-IsReleased resetting r h = ground (arith, h, dead_lem r h)
  step-IsReleased releasing r h = ground (arith, h, dead_lem r h)
  step-IsReleased (restoring s) r h = ground (arith, h, dead_lem r h)
  step-IsReleased (binding valid) r h = ground (arith, h, dead_lem r h)
  step-IsReleased (identifying identity) r h = ground (arith, h, dead_lem r h)

  -- Every method that asks whether the resource is live raises RelationalReferenceError.
  abbrev pub IsDead : RelationalResource → Type 0
  IsDead r =
      ((projection_id : String) → project projection_id r ≡ raise reference_error)
      × ((projection_id : String) → final_projection projection_id r ≡ raise reference_error)
      × ((authorized : List (String × String)) → subject_view authorized r ≡ raise reference_error)
      × ((before after : StateImage) → diff canonical digest before after r ≡ raise reference_error)
      × (state_image r ≡ raise reference_error)
      × ((snapshot r).0 ≡ raise reference_error)
      × ((relation_id : String) (rows : List RelationalRow)
          → (begin_subject_mutation lexicon canonical digest relation_id rows r).0
            ≡ raise reference_error)
      × ((handle : MutationHandle) (commit : Bool)
          → (settle_subject_mutation handle commit r).0 ≡ raise reference_error)
      × ((enter_quiescing r).0 ≡ raise reference_error)
      × ((reset lexicon canonical digest r).0 ≡ raise reference_error)
      × ((s : RelationalSnapshot)
          → (restore lexicon canonical digest s r).0 ≡ raise reference_error)

  released-IsDead : (r : RelationalResource) → r.released ≡ true → IsDead r
  unfolding project final_projection subject_view diff state_image snapshot begin_subject_mutation
      settle_subject_mutation enter_quiescing reset restore
  released-IsDead r h =
      let dead = dead_lem r h in
      (
        λ projection_id. rw dead refl,
        λ projection_id. rw dead refl,
        λ authorized. rw dead refl,
        λ before after. rw dead refl,
        rw dead refl,
        rw dead refl,
        λ relation_id rows. rw dead refl,
        λ handle commit. rw dead refl,
        rw dead refl,
        rw dead refl,
        λ s. rw dead refl,
      )

  -- No use brings a released resource back: its state and its mutations stay as they are, and each of
  -- these methods raises RelationalReferenceError: project, final_projection, subject_view, diff,
  -- state_image, snapshot, begin_subject_mutation, settle_subject_mutation, enter_quiescing, reset and
  -- restore.
  pub run_released :
      (uses : List Use) (r : RelationalResource)
      → r.released ≡ true
      → IsReleased r (run uses r) × IsDead (run uses r)
  unfolding run
  run_released [] r h = ((h, refl, refl), released-IsDead r h)
  run_released (u ∷ us) r h =
      let (released, state, pending) = step-IsReleased u r h in
      let (after, dead) = run_released us (step u r) released in
      ((after.0, after.1 ∙ state, after.2 ∙ pending), dead)
