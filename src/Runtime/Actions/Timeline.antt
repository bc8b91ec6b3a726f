-- ===== src/Runtime/Actions/Timeline.antt =====
-- The event timeline of an Episode after any actions: its numbering, and the projection of the
-- lifecycle records onto it.
use agent_verification_proto.Base.{
  ℕ, ◌+◌, String, ◌≡◌, refl, sym, ap, ◌∙◌, inl, inr, true, false, Option, List, [], ◌∷◌, ◌++◌, map,
  length, Method, if◌then◌else◌, ◌==◌, eq_iff, arith,
}
use agent_verification_proto.Base.Json.{Fields}
use agent_verification_proto.Models.{AvpEvent}
use agent_verification_proto.Runtime.State.{EpisodeState, RuntimeError}
use agent_verification_proto.Runtime.Lifecycle.{TransitionCause, EpisodeTransition, transition_dict}
use agent_verification_proto.Runtime.Record.{Episode, new_episode, emit}
use agent_verification_proto.Runtime.Episode.{transition}
use agent_verification_proto.Runtime.Episode.Commit.{
  IsEmitted, IsCommitted, emit-SameLifecycle, emit-IsEmitted, transition-IsAtomic,
  bind_replay_source-cases,
}
use agent_verification_proto.Runtime.Actions.{
  Action, emitting, moving, linking, are_foreign, perform, run,
}
use mathlib.Core.List.{map-append, append-nil}

-- The payloads of the lifecycle events, in their order.
abbrev pub lifecycle_payloads : List AvpEvent → List Fields
lifecycle_payloads [] = []
lifecycle_payloads (event ∷ events) =
    if event.event_type == "episode.transition"
    then event.payload ∷ lifecycle_payloads events
    else lifecycle_payloads events

lifecycle_payloads-append :
    (xs ys : List AvpEvent)
    → lifecycle_payloads (xs ++ ys) ≡ lifecycle_payloads xs ++ lifecycle_payloads ys
lifecycle_payloads-append [] ys = refl
lifecycle_payloads-append (x ∷ xs) ys = ground (arith, lifecycle_payloads-append xs ys)

-- The events of one Episode, numbered from `n`.
abbrev pub IsNumbered : String → ℕ → List AvpEvent → Type 0
IsNumbered id n [] = Unit
IsNumbered id n (event ∷ events) =
    (event.sequence ≡ n) × (event.episode_id ≡ id) × IsNumbered id (n + 1) events

IsNumbered-append :
    (id : String) (n : ℕ) (events : List AvpEvent) (event : AvpEvent)
    → IsNumbered id n events
    → event.sequence ≡ length events + n
    → event.episode_id ≡ id
    → IsNumbered id n (events ++ event ∷ [])
IsNumbered-append id n [] event h q o = (omega arith, o, tt)
IsNumbered-append id n (x ∷ events) event h q o =
    (h.0, h.1, IsNumbered-append id (n + 1) events event h.2 (omega arith) o)

pub record IsProjected {T : Type 0} (e : Episode T) : Type 0 where
  pub numbered : IsNumbered e.episode_id 1 e.events
  pub projected : lifecycle_payloads e.events ≡ map transition_dict e.transition_records

emit-IsNumbered :
    {id kind : String} {payload : Fields} {before after : List AvpEvent}
    → IsEmitted id kind payload before after
    → IsNumbered id 1 before
    → IsNumbered id 1 after
emit-IsNumbered {id = id} {before = before} m h =
    rw m.appended (IsNumbered-append id 1 before m.event h m.numbered m.owner)

payloads-snoc :
    (before : List AvpEvent) (event : AvpEvent)
    → lifecycle_payloads (before ++ event ∷ []) ≡ (
        if event.event_type == "episode.transition"
        then lifecycle_payloads before ++ event.payload ∷ []
        else lifecycle_payloads before)
payloads-snoc before event =
    ground
      (arith, lifecycle_payloads-append before (event ∷ []), append-nil (lifecycle_payloads before))

-- An event of another kind leaves the projection alone.
emitted_other :
    {id kind : String} {payload : Fields} {before after : List AvpEvent}
    → IsEmitted id kind payload before after
    → (kind == "episode.transition") ≡ false
    → lifecycle_payloads after ≡ lifecycle_payloads before
emitted_other {kind = kind} {before = before} m h =
    ap lifecycle_payloads m.appended
    ∙ ground (
      arith,
      payloads-snoc before m.event,
      eq_iff m.event.event_type "episode.transition",
      eq_iff kind "episode.transition",
    )

emitted_lifecycle :
    {id : String} {payload : Fields} {before after : List AvpEvent}
    → IsEmitted id "episode.transition" payload before after
    → lifecycle_payloads after ≡ lifecycle_payloads before ++ payload ∷ []
emitted_lifecycle {before = before} m =
    ap lifecycle_payloads m.appended
    ∙ ground (arith, payloads-snoc before m.event, eq_iff m.event.event_type "episode.transition")

new_episode-IsProjected :
    {T : Type 0} (id : String) (telemetry : Option T) → IsProjected (new_episode id telemetry)
unfolding new_episode
new_episode-IsProjected id telemetry = record { numbered = tt; projected = refl }

commit-IsProjected :
    {T : Type 0} {a b : Episode T} {target : EpisodeState} {entry : EpisodeTransition}
    → IsCommitted a b target entry
    → IsProjected a
    → IsProjected b
commit-IsProjected {a = a} {entry = entry} c h = record {
  numbered = rw c.same_id (emit-IsNumbered c.observed h.numbered);
  projected =
      emitted_lifecycle c.observed
      ∙ rw (h.projected, c.appended)
          (sym (map-append transition_dict a.transition_records (entry ∷ [])));
}

module _ {T : Type 0} (record_event : AvpEvent → Method RuntimeError T (Unit {0})) where
  emit-IsProjected :
      (event_type plane : String) (logical_time : ℕ) (payload state : Fields)
      (evidence : List String) (e : Episode T)
      → (event_type == "episode.transition") ≡ false
      → IsProjected e
      → IsProjected (emit record_event event_type plane logical_time payload state evidence e).1
  emit-IsProjected event_type plane time payload state evidence e foreign h =
      let same = emit-SameLifecycle record_event event_type plane time payload state evidence e in
      let m = emit-IsEmitted record_event event_type plane time payload state evidence e in
      record {
        numbered = rw same.same_id (emit-IsNumbered m h.numbered);
        projected = rw same.same_records (emitted_other m foreign ∙ h.projected);
      }

  transition-IsProjected :
      (target : EpisodeState) (cause : Option TransitionCause) (e : Episode T)
      → IsProjected e
      → IsProjected (transition record_event target cause e).1
  transition-IsProjected target cause e h = elim (transition-IsAtomic record_event target cause e) [
    | inl (_, _, r, v, i, _) ↦ record {
      numbered = rw (i, v) h.numbered;
      projected = rw (r, v) h.projected;
    }
    | inr (entry, c) ↦ commit-IsProjected c h
  ]

  perform-IsProjected :
      (action : Action) (e : Episode T)
      → are_foreign (action ∷ []) ≡ true
      → IsProjected e
      → IsProjected (perform record_event action e)
  unfolding perform
  perform-IsProjected (emitting event_type plane time payload state evidence) e f h =
      emit-IsProjected event_type plane time payload state evidence e (ground arith) h
  perform-IsProjected (moving target cause) e f h = transition-IsProjected target cause e h
  perform-IsProjected (linking source) e f h = elim (bind_replay_source-cases source e) [
    | inl (_, same) ↦ rw same h
    | inr (_, _, _, _, linked) ↦
        rw linked (record { numbered = h.numbered; projected = h.projected })
  ]
  perform-IsProjected _ e f h = record { numbered = h.numbered; projected = h.projected }

  run-IsProjected :
      (actions : List Action) (e : Episode T)
      → are_foreign actions ≡ true
      → IsProjected e
      → IsProjected (run record_event actions e)
  unfolding run
  run-IsProjected [] e f h = h
  run-IsProjected (action ∷ actions) e f h =
      run-IsProjected actions (perform record_event action e) (ground arith)
        (perform-IsProjected action e (ground arith) h)

  -- After any actions on a new Episode, of which none emits an event of the lifecycle kind but by a
  -- transition, the lifecycle events of the timeline are the canonical records, each once and in
  -- order, and all events belong to the Episode and are numbered from 1 without a gap.
  pub timeline :
      (id : String) (telemetry : Option T) (actions : List Action)
      → are_foreign actions ≡ true
      → IsProjected (run record_event actions (new_episode id telemetry))
  timeline id telemetry actions f =
      run-IsProjected actions (new_episode id telemetry) f (new_episode-IsProjected id telemetry)
