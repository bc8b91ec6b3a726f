-- ===== src/Runtime/State/Graph.antt =====
-- The lifecycle relation as a step relation, and what follows for every path through it.
use agent_verification_proto.Base.{ℕ, suc, ◌+◌, ◌≤◌, ◌≡◌, refl, ◌↔◌, true, ok, raise, arith}
use agent_verification_proto.Runtime.State.{
  EpisodeState, created, provisioning, ready, running, paused, quiescing, verifying, completed,
  aborted, invalid, infra_failed, assert_transition, is_terminal, invalid_episode_transition,
}

-- A state in which an Episode may still be aborted, invalidated or lose its infrastructure.
pub data IsActive : EpisodeState → Type 0 where
  active_provisioning : IsActive provisioning
  active_ready : IsActive ready
  active_running : IsActive running
  active_paused : IsActive paused
  active_quiescing : IsActive quiescing
  active_verifying : IsActive verifying

-- The diagram of spec/core/episode-lifecycle.md, arrow by arrow.
infix 40 ◌⟶◌
pub data ◌⟶◌ : EpisodeState → EpisodeState → Type 0 where
  provision : created ⟶ provisioning
  settle : provisioning ⟶ ready
  start : ready ⟶ running
  pause : running ⟶ paused
  resume : paused ⟶ running
  quiesce : running ⟶ quiescing
  verify : quiescing ⟶ verifying
  complete : verifying ⟶ completed
  abandon : created ⟶ aborted
  abort : {s : EpisodeState} → IsActive s → s ⟶ aborted
  invalidate : {s : EpisodeState} → IsActive s → s ⟶ invalid
  lose : {s : EpisodeState} → IsActive s → s ⟶ infra_failed

pub ruleset arrows = (
  provision, settle, start, pause, resume, quiesce, verify, complete, abandon, abort, invalidate,
  lose, active_provisioning, active_ready, active_running, active_paused, active_quiescing,
  active_verifying,
)

pub assert_transition-⟶ : (s t : EpisodeState) → assert_transition s t ≡ ok tt → s ⟶ t
unfolding assert_transition
assert_transition-⟶ created t h = grind (arith, arrows)
assert_transition-⟶ _ t h = grind (arith, arrows)

pub ⟶-assert_transition : {s t : EpisodeState} → s ⟶ t → assert_transition s t ≡ ok tt
unfolding assert_transition
⟶-assert_transition provision = refl
⟶-assert_transition settle = refl
⟶-assert_transition start = refl
⟶-assert_transition pause = refl
⟶-assert_transition resume = refl
⟶-assert_transition quiesce = refl
⟶-assert_transition verify = refl
⟶-assert_transition complete = refl
⟶-assert_transition abandon = refl
⟶-assert_transition (abort active_provisioning) = refl
⟶-assert_transition (abort active_ready) = refl
⟶-assert_transition (abort active_running) = refl
⟶-assert_transition (abort active_paused) = refl
⟶-assert_transition (abort active_quiescing) = refl
⟶-assert_transition (abort active_verifying) = refl
⟶-assert_transition (invalidate active_provisioning) = refl
⟶-assert_transition (invalidate active_ready) = refl
⟶-assert_transition (invalidate active_running) = refl
⟶-assert_transition (invalidate active_paused) = refl
⟶-assert_transition (invalidate active_quiescing) = refl
⟶-assert_transition (invalidate active_verifying) = refl
⟶-assert_transition (lose active_provisioning) = refl
⟶-assert_transition (lose active_ready) = refl
⟶-assert_transition (lose active_running) = refl
⟶-assert_transition (lose active_paused) = refl
⟶-assert_transition (lose active_quiescing) = refl
⟶-assert_transition (lose active_verifying) = refl

-- The code accepts a transition exactly when the diagram has the arrow.
pub assert_transition_iff : (s t : EpisodeState) → (assert_transition s t ≡ ok tt) ↔ (s ⟶ t)
assert_transition_iff s t = (assert_transition-⟶ s t, ⟶-assert_transition)

-- A state is terminal exactly when every transition out of it is refused.
pub is_terminal_iff :
    (s : EpisodeState)
    → (is_terminal s ≡ true)
      ↔ ((t : EpisodeState) → assert_transition s t ≡ raise invalid_episode_transition)
unfolding is_terminal assert_transition
is_terminal_iff created = (λ h. cc, λ h. cc (h aborted))
is_terminal_iff provisioning = (λ h. cc, λ h. cc (h aborted))
is_terminal_iff ready = (λ h. cc, λ h. cc (h aborted))
is_terminal_iff running = (λ h. cc, λ h. cc (h aborted))
is_terminal_iff paused = (λ h. cc, λ h. cc (h aborted))
is_terminal_iff quiescing = (λ h. cc, λ h. cc (h aborted))
is_terminal_iff verifying = (λ h. cc, λ h. cc (h aborted))
is_terminal_iff _ = (λ h t. refl, λ h. refl)

-- How far a state is from the end of the shortest way through, in steps without pauses.
abbrev pub remaining : EpisodeState → ℕ
remaining created = 6
remaining provisioning = 5
remaining ready = 4
remaining running = 3
remaining paused = 4
remaining quiescing = 2
remaining verifying = 1
remaining _ = 0

abbrev pub is_pause : EpisodeState → ℕ
is_pause paused = 2
is_pause _ = 0

-- Each step uses up one of the remaining ones, and a pause gives two back.
pub remaining_falls :
    (s t : EpisodeState)
    → assert_transition s t ≡ ok tt
    → suc (remaining t) ≤ remaining s + is_pause t
unfolding assert_transition
remaining_falls created t h = ground arith
remaining_falls _ t h = ground arith
