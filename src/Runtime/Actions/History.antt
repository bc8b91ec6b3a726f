-- ===== src/Runtime/Actions/History.antt =====
-- The canonical history of an Episode after any actions: a numbered path through the diagram.
use agent_verification_proto.Base.{
  ℕ, suc, ◌+◌, ◌*◌, ◌≤◌, String, ◌≡◌, refl, sym, subst, ◌∙◌, inl, inr, true, Option, List, [], ◌∷◌,
  ◌++◌, length, Method, raise, if◌then◌else◌, arith,
}
use agent_verification_proto.Models.{AvpEvent}
use agent_verification_proto.Runtime.State.{
  EpisodeState, RuntimeError, created, paused, is_state, is_terminal, invalid_episode_transition,
}
use agent_verification_proto.Runtime.State.Graph.{
  ◌⟶◌, remaining, is_pause, remaining_falls, ⟶-assert_transition, is_terminal_iff,
}
use agent_verification_proto.Runtime.Lifecycle.{TransitionCause, EpisodeTransition}
use agent_verification_proto.Runtime.Record.{Episode, new_episode}
use agent_verification_proto.Runtime.Episode.{transition}
use agent_verification_proto.Runtime.Episode.Commit.{
  SameLifecycle, IsCommitted, emit-SameLifecycle, transition-IsAtomic, bind_replay_source-cases,
}
use agent_verification_proto.Runtime.Actions.{Action, emitting, moving, linking, perform, run}

-- The records lead from `s` to `t`: numbered from `n`, end to end, along arrows of the diagram.
abbrev pub IsPath : ℕ → EpisodeState → List EpisodeTransition → EpisodeState → Type 0
IsPath n s [] t = s ≡ t
IsPath n s (r ∷ rs) t =
    (r.sequence ≡ n)
    × (r.previous_state ≡ s)
    × (s ⟶ r.resulting_state)
    × IsPath (n + 1) r.resulting_state rs t

IsPath-append :
    (n : ℕ) (s t u : EpisodeState) (rs : List EpisodeTransition) (r : EpisodeTransition)
    → IsPath n s rs t
    → r.sequence ≡ length rs + n
    → r.previous_state ≡ t
    → t ⟶ u
    → r.resulting_state ≡ u
    → IsPath n s (rs ++ r ∷ []) u
IsPath-append n s t u [] r h q p a e = (
  omega arith,
  p ∙ sym h,
  subst (λ x. x ⟶ r.resulting_state) (sym h) (subst (λ y. t ⟶ y) (sym e) a),
  e,
)
IsPath-append n s t u (x ∷ rs) r h q p a e =
    (h.0, h.1, h.2, IsPath-append (n + 1) x.resulting_state t u rs r h.3 (omega arith) p a e)

pub record IsRecorded {T : Type 0} (e : Episode T) : Type 0 where
  pub path : IsPath 1 created e.transition_records e.state

new_episode-IsRecorded :
    {T : Type 0} (id : String) (telemetry : Option T) → IsRecorded (new_episode id telemetry)
unfolding new_episode
new_episode-IsRecorded id telemetry = record { path = refl }

same-IsRecorded : {T : Type 0} {a b : Episode T} → SameLifecycle a b → IsRecorded a → IsRecorded b
same-IsRecorded s h = record { path = rw (s.same_state, s.same_records) h.path }

commit-IsRecorded :
    {T : Type 0} {a b : Episode T} {target : EpisodeState} {entry : EpisodeTransition}
    → IsCommitted a b target entry
    → IsRecorded a
    → IsRecorded b
commit-IsRecorded {a = a} {target = target} {entry = entry} c h = record {
  path =
      rw (c.new_state, c.appended)
        (IsPath-append 1 created a.state target a.transition_records entry h.path c.numbered
          c.left_state c.arrow c.entered);
}

module _ {T : Type 0} (record_event : AvpEvent → Method RuntimeError T (Unit {0})) where
  transition-IsRecorded :
      (target : EpisodeState) (cause : Option TransitionCause) (e : Episode T)
      → IsRecorded e
      → IsRecorded (transition record_event target cause e).1
  transition-IsRecorded target cause e h = elim (transition-IsAtomic record_event target cause e) [
    | inl (_, s, r, _, _, _) ↦ record { path = rw (s, r) h.path }
    | inr (entry, c) ↦ commit-IsRecorded c h
  ]

  perform-IsRecorded :
      (action : Action) (e : Episode T) → IsRecorded e → IsRecorded (perform record_event action e)
  unfolding perform
  perform-IsRecorded (emitting event_type plane time payload state evidence) e h =
      same-IsRecorded
        (emit-SameLifecycle record_event event_type plane time payload state evidence e) h
  perform-IsRecorded (moving target cause) e h = transition-IsRecorded target cause e h
  perform-IsRecorded (linking source) e h = elim (bind_replay_source-cases source e) [
    | inl (_, same) ↦ rw same h
    | inr (_, _, _, _, linked) ↦ rw linked (record { path = h.path })
  ]
  perform-IsRecorded _ e h = record { path = h.path }

  run-IsRecorded :
      (actions : List Action) (e : Episode T)
      → IsRecorded e
      → IsRecorded (run record_event actions e)
  unfolding run
  run-IsRecorded [] e h = h
  run-IsRecorded (action ∷ actions) e h =
      run-IsRecorded actions (perform record_event action e) (perform-IsRecorded action e h)

  -- After any actions on a new Episode its records are a path from CREATED to its present state.
  pub history :
      (id : String) (telemetry : Option T) (actions : List Action)
      → let e = run record_event actions (new_episode id telemetry) in
        IsPath 1 created e.transition_records e.state
  history id telemetry actions =
      (run-IsRecorded actions (new_episode id telemetry) (new_episode-IsRecorded id telemetry)).path

-- How many of the records pause the Episode.
abbrev pub pauses : List EpisodeTransition → ℕ
pauses [] = 0
pauses (r ∷ rs) = if is_state r.resulting_state paused then suc (pauses rs) else pauses rs

is_pause-eq :
    (t : EpisodeState) (n : ℕ) → is_pause t + 2 * n ≡ 2 * (if is_state t paused then suc n else n)
is_pause-eq created n = omega arith
is_pause-eq _ n = omega arith

IsPath-bound :
    (n : ℕ) (s t : EpisodeState) (rs : List EpisodeTransition)
    → IsPath n s rs t
    → length rs + remaining t ≤ remaining s + 2 * pauses rs
IsPath-bound n s t [] h = rw h (omega arith)
IsPath-bound n s t (r ∷ rs) h = omega (
  arith,
  remaining_falls s r.resulting_state (⟶-assert_transition h.2),
  IsPath-bound (n + 1) r.resulting_state t rs h.3,
  is_pause-eq r.resulting_state (pauses rs),
)

module _ {T : Type 0} (record_event : AvpEvent → Method RuntimeError T (Unit {0})) where
  -- An Episode makes at most six transitions, and two more for each time that it is paused.
  pub history_bounded :
      (id : String) (telemetry : Option T) (actions : List Action)
      → let e = run record_event actions (new_episode id telemetry) in
        length e.transition_records + remaining e.state ≤ 6 + 2 * pauses e.transition_records
  history_bounded id telemetry actions =
      let e = run record_event actions (new_episode id telemetry) in
      IsPath-bound 1 created e.state e.transition_records
        (history record_event id telemetry actions)

  transition_terminal :
      (target : EpisodeState) (cause : Option TransitionCause) (e : Episode T)
      → is_terminal e.state ≡ true
      → transition record_event target cause e ≡ (raise invalid_episode_transition, e)
  unfolding transition
  transition_terminal target cause e h = rw ((is_terminal_iff e.state).0 h target)

  perform_terminal :
      (action : Action) (e : Episode T)
      → is_terminal e.state ≡ true
      → ((perform record_event action e).state ≡ e.state)
        × ((perform record_event action e).transition_records ≡ e.transition_records)
  unfolding perform
  perform_terminal (emitting event_type plane time payload state evidence) e h =
      let same = emit-SameLifecycle record_event event_type plane time payload state evidence e in
      (same.same_state, same.same_records)
  perform_terminal (moving target cause) e h = ground (arith, transition_terminal target cause e h)
  perform_terminal (linking source) e h = elim (bind_replay_source-cases source e) [
    | inl (_, same) ↦ rw same (refl, refl)
    | inr (_, _, _, _, linked) ↦ rw linked (refl, refl)
  ]
  perform_terminal _ e h = (refl, refl)

  -- Once terminal, an Episode keeps its state and its history, whatever is done to it.
  pub run_terminal :
      (actions : List Action) (e : Episode T)
      → is_terminal e.state ≡ true
      → ((run record_event actions e).state ≡ e.state)
        × ((run record_event actions e).transition_records ≡ e.transition_records)
  unfolding run
  run_terminal [] e h = (refl, refl)
  run_terminal (action ∷ actions) e h =
      let (s, r) = perform_terminal action e h in
      let (s', r') = run_terminal actions (perform record_event action e) (rw s h) in
      (s' ∙ s, r' ∙ r)
