-- ===== src/Postgres/Closing.antt =====
-- Which joins the end of a room ends.
use session_analysis_platfor.Prelude.{
  ◌≡◌, ◌≢◌, refl, sym, ◌∙◌, true, false, List, [], ◌∷◌, none, Bytes, arith, any, count_if,
  update_if, str_eq, str_eq_refl, ne_of_str_eq,
}
use session_analysis_platfor.Session.{
  Event, event_participant_joined, event_participant_left, event_room_finished, end_room_finished,
}
use session_analysis_platfor.Store.{Result}
use session_analysis_platfor.Postgres.Tables.{JoinRow, Database}
use session_analysis_platfor.Postgres.Statements.{row_is_open, end_row, room_matches, close_room}
use session_analysis_platfor.Postgres.Replies.{with_event, close_where-Yields}
use session_analysis_platfor.Postgres.Record.{World, record_event}
use session_analysis_platfor.Postgres.Record.Success.{record_event_success}
use session_analysis_platfor.Postgres.Record.Outcomes.{stored_result, apply_join_effect-Yields}

-- rows that were ended do not match again
room_matches-update_if :
    (w : World) (reason : Bytes) (ev : Event) (rs : List JoinRow)
    → any (room_matches ev) (update_if (room_matches ev) (end_row w.now reason ev) rs) ≡ false
unfolding room_matches row_is_open end_row
room_matches-update_if w reason ev [] = refl
room_matches-update_if w reason ev (r ∷ rs) = ground (arith, room_matches-update_if w reason ev rs)

-- the three types with an effect are told apart
pub types_differ :
    (event_room_finished ≢ event_participant_joined)
    × (event_room_finished ≢ event_participant_left)
    × (event_participant_left ≢ event_participant_joined)
unfolding str_eq event_room_finished event_participant_joined event_participant_left
types_differ = (ne_of_str_eq _ _ refl, ne_of_str_eq _ _ refl, ne_of_str_eq _ _ refl)

abbrev RoomIsEmptied : Event → Database → Result → Database → Type 0
RoomIsEmptied ev db res db' =
    res.stored ≡ true
    → (any (room_matches ev) db'.joins ≡ false)
      × (res.joins_closed ≡ count_if (room_matches ev) db.joins)

-- When a room's end is stored without error, no join of that backend's room is open any more, and
-- `JoinsClosed` is the number of those that were.
pub record_event_room_finished :
    (w : World) (ev : Event) (db db' : Database) (res : Result)
    → ev.type ≡ event_room_finished
    → record_event w ev db ≡ (db', res, none)
    → res.stored ≡ true
    → (any (room_matches ev) db'.joins ≡ false)
      × (res.joins_closed ≡ count_if (room_matches ev) db.joins)
unfolding close_room
record_event_room_finished w ev db db' res t h =
    record_event_success (RoomIsEmptied ev db) w ev db (λ _ s. cc s)
      (λ _ _.
        apply_join_effect-Yields _ stored_result w ev (with_event w.now ev db)
          (λ j. absurd (types_differ.0 (sym t ∙ j))) (λ l. absurd (types_differ.1 (sym t ∙ l)))
          (λ _.
            close_where-Yields w.now ev (with_event w.now ev db) _ (room_matches ev)
              end_room_finished
              (λ _ _. (room_matches-update_if w end_room_finished ev db.joins, refl)))
          (λ _ _ f. absurd (true-ne-false t f)))
      db' res h
  where
    true-ne-false : ev.type ≡ event_room_finished → str_eq ev.type event_room_finished ≡ false → ⊥
    true-ne-false p q = cc (str_eq_refl event_room_finished, q, p)
