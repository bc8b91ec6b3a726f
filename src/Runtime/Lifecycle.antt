-- ===== src/Runtime/Lifecycle.antt =====
-- runtime/lifecycle.py: the immutable records of lifecycle transitions.
use Prim.Native.Char.{Char, code}
use Prim.Native.String.{count}
use agent_verification_proto.Base.{
  ℕ, String, ◌≡◌, refl, Bool, ◌||◌, ◌&&◌, not, false, Option, none, some, ltb, eqb, Result, ok,
  ◌>>◌, raise_if,
}
use agent_verification_proto.Base.Text.{◌<>◌, lower, is_empty, all_chars, is_alnum}
use agent_verification_proto.Base.Json.{num, string, obj, Fields, end, field}
use agent_verification_proto.Base.Integers.{pos}
use agent_verification_proto.Runtime.State.{
  EpisodeState, value, is_state, RuntimeError, value_error, created, provisioning, ready, running,
  paused, quiescing, verifying, completed, aborted, invalid, infra_failed,
}

pub record TransitionCause : Type 0 where
  pub code : String
  pub detail : Option String

abbrev is_cause_char : Char → Bool
is_cause_char c =
    is_alnum c || eqb (code c) b'.' || eqb (code c) b'_' || eqb (code c) b':' || eqb (code c) b'-'

-- The pattern ^[A-Za-z0-9][A-Za-z0-9._:-]*$
abbrev is_cause_code : String → Bool
is_cause_code String.[] = false
is_cause_code (String.◌∷◌ c rest) = is_alnum c && all_chars is_cause_char rest

abbrev is_too_long : Option String → Bool
is_too_long none = false
is_too_long (some detail) = ltb 2048 (count detail)

unfoldable pub new_cause : String → Option String → Result RuntimeError TransitionCause
new_cause code detail = do
  raise_if (is_empty code || ltb 128 (count code)) value_error
  raise_if (not (is_cause_code code)) value_error
  raise_if (is_too_long detail) value_error
  ok (record { code = code; detail = detail })

abbrev detail_field : Option String → Fields
detail_field none = end
detail_field (some detail) = field "detail" (string detail) end

-- TransitionCause.to_dict
unfoldable pub cause_dict : TransitionCause → Fields
cause_dict cause = field "code" (string cause.code) (detail_field cause.detail)

pub record EpisodeTransition : Type 0 where
  pub episode_id : String
  pub sequence : ℕ
  pub previous_state : EpisodeState
  pub resulting_state : EpisodeState
  pub cause : TransitionCause

unfoldable pub new_transition :
    String
    → ℕ
    → EpisodeState
    → EpisodeState
    → TransitionCause
    → Result RuntimeError EpisodeTransition
new_transition episode_id sequence previous_state resulting_state cause = do
  raise_if (is_empty episode_id || ltb 256 (count episode_id)) value_error
  raise_if (ltb sequence 1) value_error
  raise_if (is_state previous_state resulting_state) value_error
  ok (record {
    episode_id = episode_id;
    sequence = sequence;
    previous_state = previous_state;
    resulting_state = resulting_state;
    cause = cause;
  })

-- EpisodeTransition.to_dict
unfoldable pub transition_dict : EpisodeTransition → Fields
unfolding cause_dict
transition_dict record_of = field "episodeId" (string record_of.episode_id) (
    field "sequence" (num (pos record_of.sequence)) (
      field "previousState" (string (value record_of.previous_state)) (
        field "resultingState" (string (value record_of.resulting_state))
          (field "cause" (obj (cause_dict record_of.cause)) end))))

unfoldable pub default_transition_cause :
    EpisodeState → EpisodeState → Result RuntimeError TransitionCause
unfolding new_cause lower
default_transition_cause previous resulting =
    new_cause ("runtime.lifecycle." <> lower (value previous) <> "." <> lower (value resulting))
      none

-- The cause that is made up when none is given is always valid, and names both states.
pub default_transition_cause_total :
    (previous resulting : EpisodeState)
    → default_transition_cause previous resulting
      ≡ ok (record {
        code = "runtime.lifecycle." <> lower (value previous) <> "." <> lower (value resulting);
        detail = none;
      })
unfolding default_transition_cause
default_transition_cause_total created created = refl
default_transition_cause_total created _ = refl
default_transition_cause_total provisioning created = refl
default_transition_cause_total provisioning _ = refl
default_transition_cause_total ready created = refl
default_transition_cause_total ready _ = refl
default_transition_cause_total running created = refl
default_transition_cause_total running _ = refl
default_transition_cause_total paused created = refl
default_transition_cause_total paused _ = refl
default_transition_cause_total quiescing created = refl
default_transition_cause_total quiescing _ = refl
default_transition_cause_total verifying created = refl
default_transition_cause_total verifying _ = refl
default_transition_cause_total completed created = refl
default_transition_cause_total completed _ = refl
default_transition_cause_total aborted created = refl
default_transition_cause_total aborted _ = refl
default_transition_cause_total invalid created = refl
default_transition_cause_total invalid _ = refl
default_transition_cause_total infra_failed created = refl
default_transition_cause_total infra_failed _ = refl
