-- ===== src/Examples/Stays.antt =====
-- A participant's stay among the calls for others.
use session_analysis_platfor.Prelude.{
  ◌≡◌, refl, ap, true, false, [], ◌∷◌, none, some, codes, get_elem?, str_eq, opt_str_eq,
  ne_of_str_eq,
}
use session_analysis_platfor.Time.{before, time_eq}
use session_analysis_platfor.Session.{
  Event, event_participant_joined, event_participant_left, event_room_finished,
  end_participant_left,
}
use session_analysis_platfor.Postgres.Tables.{covered, nullable}
use session_analysis_platfor.Postgres.Statements.{
  insert_event, close_where, close_by_sid, same_key, event_row, join_row, end_row, row_is_open,
  sid_matches, close_by_identity, is_latest, latest, identity_matches, has_id_of,
}
use session_analysis_platfor.Postgres.Record.{
  record_event, exec, apply_join_effect, after_effect, commit, close, fall_back,
}
use session_analysis_platfor.Postgres.Record.Outcomes.{stored_result}
use session_analysis_platfor.Postgres.Record.Concurrent.{
  Call, finished, System, holding, start_call, finish_call, idle, first, inserts, finishes, Reach,
  here, next,
}
use session_analysis_platfor.Postgres.Stay.Others.{IsBeside, other_participant, stay_among_others}
use session_analysis_platfor.Examples.Data.{
  calm, second, an_event, joined, departed, no_rows, one_open,
}
use session_analysis_platfor.Examples.Tables.{no_rows-WellFormed, open_alice}

-- bob leaves alice's room; his arrival was never delivered
abbrev bob_left : Event
bob_left = record (an_event (codes "e8") (codes "participant_left") 130) {
  participant_identity = codes "bob";
  participant_sid = codes "PA_9";
}

abbrev bob_leaves : Call
bob_leaves = record { world = record calm { now = second 505 }; event = bob_left }

abbrev bob_gone : System
bob_gone = record {
  database = record one_open {
    events = event_row (second 500) joined ∷ event_row (second 505) bob_left ∷ [];
  };
  in_flight = [];
  log = finished bob_leaves (record stored_result { close_unmatched = true }) none ∷ [];
}

bob_inserts : start_call bob_leaves one_open ≡ holding
unfolding start_call exec insert_event covered before same_key str_eq time_eq event_row
bob_inserts = refl

bob_ends :
    finish_call bob_leaves one_open
    ≡ (bob_gone.database, record stored_result { close_unmatched = true }, none)
unfolding finish_call after_effect commit apply_join_effect close fall_back close_by_sid
    close_by_identity close_where exec before time_eq join_row nullable sid_matches row_is_open
    str_eq opt_str_eq event_participant_joined event_participant_left is_latest latest
    identity_matches has_id_of
bob_ends = refl

between : Reach (idle one_open) bob_gone
between =
    next (next here (inserts bob_leaves bob_inserts refl))
      (finishes bob_leaves [] _ _ _ first bob_ends)

bob_left-IsBeside : IsBeside joined bob_left
unfolding nullable str_eq opt_str_eq event_room_finished
bob_left-IsBeside =
    other_participant (ne_of_str_eq _ _ refl)
      (λ e. let b : false ≡ true = ap (λ o. opt_str_eq o (codes "PA_9")) e in cc b)
      (ne_of_str_eq _ _ refl)

alice_leaves : record_event calm departed bob_gone.database ≡ (
  (record_event calm departed bob_gone.database).0,
  record stored_result { joins_closed = 1 },
  none,
)
unfolding record_event after_effect commit apply_join_effect close fall_back close_by_sid
    close_where exec insert_event covered before time_eq same_key event_row join_row nullable
    sid_matches row_is_open str_eq opt_str_eq event_participant_joined event_participant_left
alice_leaves = refl

stay_among_others_example :
    (get_elem? bob_gone.database.joins 0 ≡ some (join_row (second 500) (codes "join-1") joined))
    × (get_elem? (record_event calm departed bob_gone.database).0.joins 0
        ≡ some (
            end_row
              (second 500)
              end_participant_left
              departed
              (join_row (second 500) (codes "join-1") joined)))
unfolding event_participant_joined event_participant_left
stay_among_others_example =
    stay_among_others calm calm joined departed no_rows one_open
      (record_event calm departed bob_gone.database).0 (record stored_result { join_opened = true })
      (record stored_result { joins_closed = 1 }) bob_gone no_rows-WellFormed refl refl
      (record { backend = refl; room = refl; sid = refl; has_sid = refl }) open_alice refl refl
      between (bob_left-IsBeside, tt) alice_leaves refl
