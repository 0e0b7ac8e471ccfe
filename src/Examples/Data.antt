-- ===== src/Examples/Data.antt =====
-- The events, tables and worlds that the runs use.
use session_analysis_platfor.Prelude.{ℕ, ◌+◌, [], ◌∷◌, none, Bytes, codes}
use session_analysis_platfor.Prelude.Int.{pos}
use session_analysis_platfor.Time.{Time}
use session_analysis_platfor.Session.{Event, zero_event}
use session_analysis_platfor.Postgres.Tables.{Database}
use session_analysis_platfor.Postgres.Statements.{event_row, join_row}
use session_analysis_platfor.Postgres.Record.{World, Commit}

abbrev pub second : ℕ → Time
second n = record { sec = pos (63842774400 + n); nsec = 0 }

abbrev pub calm : World
calm = record {
  now = second 500;
  new_join_id = codes "join-1";
  begin_fails = none;
  insert_fails = none;
  effect_fails = none;
  fallback_fails = none;
  commit = Commit.commits;
}

abbrev pub an_event : Bytes → Bytes → ℕ → Event
an_event id type at = record zero_event {
  id = id;
  backend = codes "livekit";
  type = type;
  occurred_at = second at;
  room_name = codes "standup";
  participant_identity = codes "alice";
  participant_sid = codes "PA_1";
}

abbrev pub started : Event
started = an_event (codes "e0") (codes "room_started") 90

abbrev pub joined : Event
joined = an_event (codes "e1") (codes "participant_joined") 100

abbrev pub departed : Event
departed = an_event (codes "e2") (codes "participant_left") 160

abbrev pub departed_anew : Event
departed_anew = record departed { participant_sid = codes "PA_2" }

abbrev pub departed_again : Event
departed_again = record departed { id = codes "e6"; occurred_at = second 170 }

abbrev pub departed_early : Event
departed_early = an_event (codes "e3") (codes "participant_left") 40

abbrev pub room_over : Event
room_over = an_event (codes "e4") (codes "room_finished") 200

abbrev pub no_rows : Database
no_rows = record { partitions = (second 0, second 86400) ∷ []; events = []; joins = [] }

-- alice's join is stored and open
abbrev pub one_open : Database
one_open = record {
  partitions = (second 0, second 86400) ∷ [];
  events = event_row (second 500) joined ∷ [];
  joins = join_row (second 500) (codes "join-1") joined ∷ [];
}
