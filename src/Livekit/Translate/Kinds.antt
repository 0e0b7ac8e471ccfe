-- ===== src/Livekit/Translate/Kinds.antt =====
-- `Translate`: the type and the body of the event that it makes, for each disposition.
use mathlib.Core.Path.{subst}
use session_analysis_platfor.Prelude.{
  ◌≡◌, refl, ap, ◌∙◌, Bool, true, false, Bool-cases, Option-cases, inl, inr, [], Option, none, some,
  Bytes, is_empty, str_eq, any, arith,
}
use session_analysis_platfor.Prelude.Int.{ℤ}
use session_analysis_platfor.Session.{
  Event, EventType, correlated_event_types, event_room_started, event_room_finished,
  event_participant_joined, event_participant_left, event_track_published, event_track_unpublished,
}
use session_analysis_platfor.EventId.{UuidPackage}
use session_analysis_platfor.Livekit.Json.{JsonPackage}
use session_analysis_platfor.Livekit.Payload.{Payload, unmarshal}
use session_analysis_platfor.Livekit.Translate.{
  Disposition, ingest, reject, store, canonical, rejected, lookup, classify, event_of, identified,
  or_empty, with_room, with_participant, with_track, translate_payload, after_decode, translate,
  TranslateError,
}

abbrev pub is_correlated : EventType → Bool
is_correlated t = any (str_eq t) correlated_event_types

-- the names of `canonical` are the correlated types
canonical_value :
    (name : Bytes) (t : EventType) → lookup name canonical ≡ some t → is_correlated t ≡ true
unfolding lookup str_eq event_room_started event_room_finished event_participant_joined
    event_participant_left event_track_published event_track_unpublished
canonical_value name t h = ground arith

canonical_miss : (name : Bytes) → lookup name canonical ≡ none → is_correlated name ≡ false
unfolding lookup event_room_started event_room_finished event_participant_joined
    event_participant_left event_track_published event_track_unpublished
canonical_miss name h = ground arith

-- the disposition's part of the event's type
abbrev type_for : Disposition → Bytes → EventType
type_for store name = name
type_for ingest name = or_empty (lookup name canonical)
type_for reject name = or_empty (lookup name canonical)

pub event_of_type :
    (p : Payload) (d : Disposition) (body : Bytes) → (event_of p d body).type ≡ type_for d p.event
unfolding event_of with_room with_participant with_track
event_of_type p d body = ground arith

event_of_payload :
    (p : Payload) (d : Disposition) (body : Bytes) → (event_of p d body).payload ≡ body
unfolding event_of with_room with_participant with_track
event_of_payload p d body = ground arith

-- What each disposition says about the event, and about the body that it was made of.
abbrev pub IsOfKind : Disposition → Event → Bytes → Type 0
IsOfKind ingest ev body = (is_correlated ev.type ≡ true) × (ev.payload ≡ body)
IsOfKind store ev body =
    (is_correlated ev.type ≡ false)
    × (any (str_eq ev.type) rejected ≡ false)
    × (is_empty ev.type ≡ false)
    × (ev.payload ≡ body)
IsOfKind reject ev body = (any (str_eq ev.type) rejected ≡ true) × (ev.payload ≡ [])

abbrev KindOnSuccess : Bytes → Event × Disposition × Option TranslateError → Type 0
KindOnSuccess body (ev, d, none) = IsOfKind d ev body
KindOnSuccess body (ev, d, some e) = Unit

module _ (json : JsonPackage) (uuid : UuidPackage) where
  translate_payload-KindOnSuccess :
      (p : Payload) (body : Bytes) (ordinal : ℤ)
      → KindOnSuccess body (translate_payload json uuid p body ordinal)
  unfolding translate_payload identified classify
  translate_payload-KindOnSuccess p body ordinal = elim (Bool-cases (is_empty p.event)) [
    | inl e ↦ rw e tt
    | inr named ↦ elim (Option-cases (lookup p.event canonical)) [
      | inr (t, e) ↦
          rw (named, e)
            (
              ap is_correlated (event_of_type p ingest body ∙ ap or_empty e)
                  ∙ canonical_value p.event t e,
              event_of_payload p ingest body,
            )
      | inl miss ↦ elim (Bool-cases (any (str_eq p.event) rejected)) [
        | inl out ↦ rw (named, miss, out) (out, refl)
        | inr new ↦
            rw (named, miss, new)
              (let q = event_of_type p store body in
                (
                  ap is_correlated q ∙ canonical_miss p.event miss,
                  ap (λ t. any (str_eq t) rejected) q ∙ new,
                  ap is_empty q ∙ named,
                  event_of_payload p store body,
                ))
      ]
    ]
  ]

  after_decode-KindOnSuccess :
      (o : Option Payload) (body : Bytes) (ordinal : ℤ)
      → KindOnSuccess body (after_decode json uuid o body ordinal)
  unfolding after_decode
  after_decode-KindOnSuccess none body ordinal = tt
  after_decode-KindOnSuccess (some p) body ordinal = translate_payload-KindOnSuccess p body ordinal

  -- A delivery that is translated without error to an event to ingest has a type that correlation
  -- consumes; one to store has a type that is not empty, not consumed and not out of scope; both keep
  -- the body as their payload. One to reject has a type that is out of scope, and no payload.
  pub translate-IsOfKind :
      (body : Bytes) (ordinal : ℤ) (ev : Event) (d : Disposition)
      → translate json uuid body ordinal ≡ (ev, d, none)
      → IsOfKind d ev body
  unfolding translate
  translate-IsOfKind body ordinal ev d h =
      subst (KindOnSuccess body) h (after_decode-KindOnSuccess (unmarshal json body) body ordinal)
