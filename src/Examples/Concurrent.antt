-- ===== src/Examples/Concurrent.antt =====
-- Calls of `RecordEvent` that run at once.
use session_analysis_platfor.Prelude.{
  ◌≡◌, ◌≤◌, refl, [], ◌∷◌, none, count_if, str_eq, true, if◌then◌else◌,
}
use session_analysis_platfor.Time.{before, time_eq}
use session_analysis_platfor.Session.{event_participant_joined}
use session_analysis_platfor.Store.{no_result}
use session_analysis_platfor.Store.Contract.{same_event}
use session_analysis_platfor.Postgres.Tables.{covered}
use session_analysis_platfor.Postgres.Statements.{insert_event, open_join, same_key, event_row}
use session_analysis_platfor.Postgres.Record.{opened, exec, apply_join_effect, after_effect, commit}
use session_analysis_platfor.Postgres.Record.Outcomes.{stored_result}
use session_analysis_platfor.Postgres.Record.Concurrent.{
  Call, finished, System, answered, holding, start_call, finish_call, idle, first, later, answers,
  inserts, finishes, Reach, here, next,
}
use session_analysis_platfor.Postgres.Record.Concurrent.Interleaved.{
  affects, reply_of, effect_said, finish_said, Move, joins_change, Moves, start, then_move,
}
use session_analysis_platfor.Postgres.Record.Concurrent.Recorded.{Recorded, Moves-Recorded}
use session_analysis_platfor.Postgres.Record.Concurrent.Once.{applied, applied_at_most_once}
use session_analysis_platfor.Postgres.Record.Concurrent.Serial.{Serial, Reach-Serial}
use session_analysis_platfor.Postgres.Events.{in_event_raw}
use session_analysis_platfor.Postgres.Invariant.{WellFormed}
use session_analysis_platfor.Postgres.Record.Concurrent.Accounts.{Tallied, Reach-Tallied}
use session_analysis_platfor.Postgres.History.Runs.{History, Reach-History}
use session_analysis_platfor.Examples.Tables.{no_rows-WellFormed}
use session_analysis_platfor.Examples.Data.{calm, second, joined, departed, no_rows, one_open}

-- alice's arrival, her departure, and her arrival delivered again
abbrev arrival : Call
arrival = record { world = calm; event = joined }

abbrev departure : Call
departure = record { world = record calm { now = second 510 }; event = departed }

abbrev arrival_again : Call
arrival_again = record { world = record calm { now = second 520 }; event = joined }

abbrev at_the_end : System
at_the_end = record {
  database = (finish_call departure one_open).0;
  in_flight = [];
  log =
      finished departure (finish_call departure one_open).1 (finish_call departure one_open).2
      ∷ finished arrival_again no_result none
      ∷ finished arrival (record stored_result { join_opened = true }) none
      ∷ [];
}

arrival_inserts : start_call arrival no_rows ≡ holding
unfolding start_call exec insert_event covered before
arrival_inserts = refl

departure_inserts : start_call departure no_rows ≡ holding
unfolding start_call exec insert_event covered before
departure_inserts = refl

arrival_ends :
    finish_call arrival no_rows ≡ (one_open, record stored_result { join_opened = true }, none)
unfolding finish_call after_effect apply_join_effect exec commit open_join str_eq
    event_participant_joined
arrival_ends = refl

again_is_old : start_call arrival_again one_open ≡ answered (one_open, no_result, none)
unfolding start_call exec insert_event covered before same_key str_eq time_eq commit event_row
again_is_old = refl

-- both calls insert their rows, the first to do so commits first, and then its event comes again
run : Reach (idle no_rows) at_the_end
unfolding same_event str_eq time_eq
run =
    next
      (next
        (next
          (next (next here (inserts arrival arrival_inserts refl))
            (inserts departure departure_inserts refl))
          (finishes arrival (departure ∷ []) one_open _ none (later first) arrival_ends))
        (answers arrival_again one_open no_result none again_is_old))
      (finishes departure [] _ _ _ first refl)

Reach-Serial_example : Serial no_rows at_the_end.log at_the_end.database
Reach-Serial_example = Reach-Serial run

Reach-Tallied_example :
    WellFormed at_the_end.database × Tallied no_rows at_the_end.log at_the_end.database
Reach-Tallied_example = Reach-Tallied run no_rows-WellFormed (tt, (tt, (tt, tt)))

Reach-History_example :
    WellFormed at_the_end.database × History no_rows at_the_end.log at_the_end.database
Reach-History_example = Reach-History run no_rows-WellFormed

-- two calls hold their keys, and the first one's event comes again
abbrev both_hold : System
both_hold = record { database = no_rows; in_flight = departure ∷ arrival ∷ []; log = [] }

-- Another client ends alice's join while her arrival is behind its insert, and removes it behind its
-- commit; then the arrival comes again.
abbrev disturbed : System
disturbed = record {
  database = record one_open { joins = [] };
  in_flight = [];
  log =
      finished arrival_again no_result none
      ∷ finished arrival (record stored_result { join_opened = true }) none
      ∷ [];
}

arrival_ends_beside :
    finish_said arrival
      (affects 1 one_open.joins)
      (affects 0 [])
      (record no_rows { joins = one_open.joins })
    ≡ (one_open, record stored_result { join_opened = true }, none)
unfolding finish_said effect_said reply_of opened after_effect commit str_eq
    event_participant_joined
arrival_ends_beside = refl

again_is_old_beside :
    start_call arrival_again (record one_open { joins = [] })
    ≡ answered (record one_open { joins = [] }, no_result, none)
unfolding start_call exec insert_event covered before same_key str_eq time_eq commit event_row
again_is_old_beside = refl

disturbed_run : Moves (idle no_rows) disturbed
disturbed_run =
    then_move
      (then_move
        (then_move
          (then_move (then_move start (Move.inserts arrival arrival_inserts refl))
            (joins_change one_open.joins))
          (Move.finishes arrival [] (affects 1 one_open.joins) (affects 0 []) one_open _ none first
            arrival_ends_beside))
        (joins_change []))
      (Move.answers arrival_again _ no_result none again_is_old_beside)

applied_at_most_once_example :
    count_if (applied joined) disturbed.log ≤ (if in_event_raw no_rows joined then 0 else 1)
applied_at_most_once_example = applied_at_most_once joined disturbed_run

Moves-Recorded_example : Recorded no_rows disturbed.log disturbed.database
Moves-Recorded_example = Moves-Recorded disturbed_run (tt, (tt, tt))
