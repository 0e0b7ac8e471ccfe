-- ===== src/Metrics/Register/Order.antt =====
-- `NewIngest`: which instruments it asks for, and the error that it returns.
use session_analysis_platfor.Prelude.{
  ◌≡◌, refl, ap, sym, ◌∙◌, Option-cases, inl, inr, List, [], ◌∷◌, ◌++◌, append_assoc, append-nil,
  Option, none, some, Bytes,
}
use session_analysis_platfor.Metrics.{Instrument, duration}
use session_analysis_platfor.Metrics.Register.{
  Meter, name_of, counters, register, register_all, registration, built, new_ingest,
}

-- an answer, or the next one where there is no error
abbrev pub or_next : Option Bytes → Option Bytes → Option Bytes
or_next (some e) next = some e
or_next none next = next

abbrev pub unless : Option Bytes → List Bytes → List Bytes
unless (some e) names = []
unless none names = names

-- the first error among the answers to some instruments
abbrev pub first_refusal : Meter → List Instrument → Option Bytes
first_refusal meter [] = none
first_refusal meter (i ∷ is) = or_next (meter (name_of i)) (first_refusal meter is)

-- the names up to the first one that is refused, that one included
abbrev pub up_to_refusal : Meter → List Instrument → List Bytes
up_to_refusal meter [] = []
up_to_refusal meter (i ∷ is) = name_of i ∷ unless (meter (name_of i)) (up_to_refusal meter is)

register_all_stopped :
    (meter : Meter) (is : List Instrument) (e : Bytes) (asked : List Bytes)
    → register_all meter is (record { err = some e; asked = asked })
      ≡ record { err = some e; asked = asked }
unfolding register_all register
register_all_stopped meter [] e asked = refl
register_all_stopped meter (i ∷ is) e asked = register_all_stopped meter is e asked

register_all_lem :
    (meter : Meter) (is : List Instrument) (asked : List Bytes)
    → register_all meter is (record { err = none; asked = asked })
      ≡ record { err = first_refusal meter is; asked = asked ++ up_to_refusal meter is }
unfolding register_all register
register_all_lem meter [] asked =
    ap (λ names. record { err = none; asked = names }) (sym (append-nil asked))
register_all_lem meter (i ∷ is) asked = elim (Option-cases (meter (name_of i))) [
  | inl e ↦ rw e (
      register_all_lem meter is (asked ++ name_of i ∷ [])
      ∙ ap (λ names. record { err = first_refusal meter is; asked = names })
          (append_assoc asked (name_of i ∷ []) _))
  | inr (x, e) ↦ rw e (register_all_stopped meter is x _)
]

-- the instruments in the order in which `NewIngest` asks for them
abbrev pub instruments : List Instrument
instruments = counters ++ duration ∷ []

-- `NewIngest` asks for its instruments in order and stops at the first that is refused; it returns
-- that one's error, and the instrument set where none is refused.
pub new_ingest_lem :
    (meter : Meter)
    → (new_ingest meter ≡ built (first_refusal meter instruments))
      × ((registration meter).asked ≡ up_to_refusal meter instruments)
unfolding new_ingest registration register_all
new_ingest_lem meter =
    let e = register_all_lem meter instruments [] in (ap (λ r. built r.err) e, ap (λ r. r.asked) e)
