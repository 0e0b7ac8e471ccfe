-- ===== src/Examples/Tables.antt =====
-- `RecordEvent` at concrete tables.
use session_analysis_platfor.Prelude.{
  ◌≡◌, refl, true, false, none, some, any, count_if, str_eq, opt_str_eq, [], ◌∷◌, codes,
}
use session_analysis_platfor.Time.{before, time_eq}
use session_analysis_platfor.Session.{
  event_participant_joined, event_participant_left, event_room_finished, end_participant_left,
}
use session_analysis_platfor.Store.{no_result, close_out_of_order}
use session_analysis_platfor.Postgres.Tables.{covered, nullable, classify_close}
use session_analysis_platfor.Postgres.Statements.{
  end_row, done, event_row, same_key, insert_event, join_row, open_join, row_is_open, sid_matches,
  room_matches, close_where, close_by_sid, close_room, close_by_identity, is_latest, latest, later,
  identity_matches, has_id_of,
}
use session_analysis_platfor.Postgres.Record.{
  commit, exec, fall_back, close, apply_join_effect, after_effect, record_event,
}
use session_analysis_platfor.Postgres.Record.Outcomes.{stored_result}
use session_analysis_platfor.Postgres.Keys.{key_eq}
use session_analysis_platfor.Postgres.Invariant.{WellFormed, record_event-WellFormed}
use session_analysis_platfor.Postgres.Atomic.{record_event_atomic, record_event_idempotent}
use session_analysis_platfor.Postgres.OutOfOrder.{record_event_out_of_order_lost}
use session_analysis_platfor.Postgres.Race.{close_by_identity_behind, second_departure}
use session_analysis_platfor.Postgres.Replies.{with_ended}
use session_analysis_platfor.Postgres.Departure.{Departs, record_event_departure}
use session_analysis_platfor.Postgres.Stay.{arrival_and_departure}
use session_analysis_platfor.Postgres.Closing.{record_event_room_finished}
use session_analysis_platfor.Examples.Data.{
  second, departed_again, calm, joined, departed, departed_anew, departed_early, room_over, no_rows,
  one_open,
}

pub open_alice :
    record_event calm joined no_rows ≡ (one_open, record stored_result { join_opened = true }, none)
unfolding record_event after_effect commit apply_join_effect exec insert_event open_join covered
    before same_key str_eq event_participant_joined
open_alice = refl

left_too_early :
    record_event calm departed_early one_open ≡ (one_open, stored_result, some close_out_of_order)
unfolding record_event after_effect commit apply_join_effect close fall_back close_by_sid
    close_where classify_close exec insert_event covered before time_eq same_key event_row join_row
    nullable sid_matches row_is_open str_eq opt_str_eq event_participant_joined
    event_participant_left
left_too_early = refl

room_over-IsEnd : room_over.type ≡ event_room_finished
unfolding event_room_finished
room_over-IsEnd = refl

pub no_rows-WellFormed : WellFormed no_rows
no_rows-WellFormed = record {
  event_keys = tt;
  join_ids = tt;
  started_ids = tt;
  ends = tt;
  placed = tt;
}

one_open-WellFormed : WellFormed one_open
unfolding event_row join_row covered before key_eq
one_open-WellFormed = record {
  event_keys = (refl, tt);
  join_ids = (refl, tt);
  started_ids = (refl, tt);
  ends = (tt, tt);
  placed = (refl, tt);
}

record_event-WellFormed_example : WellFormed (record_event calm departed one_open).0
record_event-WellFormed_example = record_event-WellFormed calm departed one_open one_open-WellFormed

record_event_idempotent_example :
    ((record_event calm joined one_open).0 ≡ one_open)
    × ((record_event calm joined one_open).1 ≡ no_result)
record_event_idempotent_example =
    record_event_idempotent calm calm joined no_rows one_open _ open_alice

record_event_out_of_order_lost_example :
    (one_open ≡ one_open)
    × (stored_result.stored ≡ true)
    × (any (same_key departed_early) one_open.events ≡ false)
record_event_out_of_order_lost_example =
    record_event_out_of_order_lost calm departed_early one_open one_open stored_result
      left_too_early

room_over_closes :
    record_event calm room_over one_open
    ≡ ((record_event calm room_over one_open).0, record stored_result { joins_closed = 1 }, none)
unfolding record_event after_effect commit apply_join_effect close_room close_where classify_close
    exec insert_event covered before time_eq same_key event_row join_row nullable room_matches
    row_is_open str_eq opt_str_eq event_participant_joined event_participant_left
    event_room_finished
room_over_closes = refl

record_event_atomic_example : one_open ≡ one_open
record_event_atomic_example =
    record_event_atomic calm departed_early one_open one_open stored_result close_out_of_order tt
      left_too_early

record_event_room_finished_example :
    (any (room_matches room_over) (record_event calm room_over one_open).0.joins ≡ false)
    × (1 ≡ count_if (room_matches room_over) one_open.joins)
record_event_room_finished_example =
    record_event_room_finished calm room_over one_open (record_event calm room_over one_open).0
      (record stored_result { joins_closed = 1 }) room_over-IsEnd room_over_closes refl

-- alice leaves under a SID that her open join does not have
departs_anew : record_event calm departed_anew one_open ≡ (
  (record_event calm departed_anew one_open).0,
  record stored_result { joins_closed = 1 },
  none,
)
unfolding record_event after_effect commit apply_join_effect close fall_back close_by_sid
    close_by_identity close_where classify_close exec insert_event covered before time_eq same_key
    event_row join_row nullable sid_matches row_is_open str_eq opt_str_eq event_participant_joined
    event_participant_left is_latest latest later identity_matches has_id_of
departs_anew = refl

departed_anew-IsDeparture : departed_anew.type ≡ event_participant_left
unfolding event_participant_left
departed_anew-IsDeparture = refl

record_event_departure_example :
    Departs calm departed_anew one_open.joins
      (record_event calm departed_anew one_open).0.joins
      1
      false
record_event_departure_example =
    record_event_departure calm departed_anew one_open (record_event calm departed_anew one_open).0
      (record stored_result { joins_closed = 1 }) one_open-WellFormed departed_anew-IsDeparture
      departs_anew refl

closed_by_sid :
    close_by_sid (second 500) end_participant_left departed one_open
    ≡ done 1 (with_ended (sid_matches departed) (second 500) end_participant_left departed one_open)
unfolding close_by_sid close_where before event_row join_row nullable sid_matches row_is_open str_eq
    opt_str_eq
closed_by_sid = refl

closed_by_identity :
    close_by_identity (second 500) end_participant_left departed one_open
    ≡ done 1 (
        with_ended
          (is_latest departed one_open)
          (second 500)
          end_participant_left
          departed
          one_open)
unfolding close_by_identity close_where before event_row join_row identity_matches row_is_open
    str_eq is_latest latest later has_id_of
closed_by_identity = refl

second_departure_example :
    (close_by_sid
        (second 501)
        end_participant_left
        departed_again
        (with_ended (sid_matches departed) (second 500) end_participant_left departed one_open)
      ≡ done 0
          (with_ended (sid_matches departed) (second 500) end_participant_left departed one_open))
    × (close_by_identity_behind one_open (second 501) end_participant_left departed_again (
          with_ended
            (is_latest departed one_open)
            (second 500)
            end_participant_left
            departed
            one_open)
        ≡ close_by_identity (second 501) end_participant_left departed_again one_open)
second_departure_example =
    second_departure (second 500) (second 501) end_participant_left end_participant_left departed
      departed_again one_open
      (with_ended (sid_matches departed) (second 500) end_participant_left departed one_open)
      (with_ended (is_latest departed one_open) (second 500) end_participant_left departed one_open)
      1 1 (record { backend = refl; room = refl; identity = refl; sid = refl }) closed_by_sid
      closed_by_identity

departs_by_sid :
    record_event calm departed one_open
    ≡ ((record_event calm departed one_open).0, record stored_result { joins_closed = 1 }, none)
unfolding record_event after_effect commit apply_join_effect close fall_back close_by_sid
    close_where classify_close exec insert_event covered before time_eq same_key event_row join_row
    nullable sid_matches row_is_open str_eq opt_str_eq event_participant_joined
    event_participant_left
departs_by_sid = refl

arrival_and_departure_example :
    (record_event calm departed one_open).0.joins
    ≡ end_row
        (second 500)
        end_participant_left
        departed
        (join_row (second 500) (codes "join-1") joined)
      ∷ []
unfolding event_participant_joined event_participant_left
arrival_and_departure_example =
    arrival_and_departure calm calm joined departed no_rows one_open
      (record_event calm departed one_open).0 (record stored_result { join_opened = true })
      (record stored_result { joins_closed = 1 }) no_rows-WellFormed refl refl
      (record { backend = refl; room = refl; sid = refl; has_sid = refl }) open_alice refl refl
      departs_by_sid refl
