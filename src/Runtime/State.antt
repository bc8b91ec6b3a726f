-- ===== src/Runtime/State.antt =====
-- runtime/state.py: the states of an Episode and the relation of legal transitions.
pub mod Graph
use agent_verification_proto.Base.{
  ℕ, String, Bool, true, false, List, [], ◌∷◌, any, eqb, if◌then◌else◌, Result, ok, raise,
}

pub data EpisodeState : Type 0 where
  created provisioning ready running paused quiescing verifying : EpisodeState
  completed aborted invalid infra_failed : EpisodeState

-- What the runtime raises. `telemetry_failure` is an exception of the telemetry session.
pub data RuntimeError : Type 0 where
  invalid_episode_transition value_error telemetry_failure : RuntimeError

abbrev pub value : EpisodeState → String
value created = "CREATED"
value provisioning = "PROVISIONING"
value ready = "READY"
value running = "RUNNING"
value paused = "PAUSED"
value quiescing = "QUIESCING"
value verifying = "VERIFYING"
value completed = "COMPLETED"
value aborted = "ABORTED"
value invalid = "INVALID"
value infra_failed = "INFRA_FAILED"

-- The members of the enum in their order, to compare them.
abbrev pub position : EpisodeState → ℕ
position created = 0
position provisioning = 1
position ready = 2
position running = 3
position paused = 4
position quiescing = 5
position verifying = 6
position completed = 7
position aborted = 8
position invalid = 9
position infra_failed = 10

-- `a is b`
abbrev pub is_state : EpisodeState → EpisodeState → Bool
is_state a b = eqb (position a) (position b)

abbrev pub is_among : EpisodeState → List EpisodeState → Bool
is_among state states = any (is_state state) states

-- _TRANSITIONS
abbrev pub transitions : EpisodeState → List EpisodeState
transitions created = provisioning ∷ aborted ∷ []
transitions provisioning = ready ∷ aborted ∷ invalid ∷ infra_failed ∷ []
transitions ready = running ∷ aborted ∷ invalid ∷ infra_failed ∷ []
transitions running = quiescing ∷ aborted ∷ invalid ∷ infra_failed ∷ paused ∷ []
transitions paused = running ∷ aborted ∷ invalid ∷ infra_failed ∷ []
transitions quiescing = verifying ∷ aborted ∷ invalid ∷ infra_failed ∷ []
transitions verifying = completed ∷ aborted ∷ invalid ∷ infra_failed ∷ []
transitions completed = []
transitions aborted = []
transitions invalid = []
transitions infra_failed = []

unfoldable pub assert_transition : EpisodeState → EpisodeState → Result RuntimeError (Unit {0})
assert_transition current target =
    if is_among target (transitions current) then ok tt else raise invalid_episode_transition

-- _TERMINAL
abbrev pub terminal : List EpisodeState
terminal = completed ∷ aborted ∷ invalid ∷ infra_failed ∷ []

unfoldable pub is_terminal : EpisodeState → Bool
is_terminal state = is_among state terminal
