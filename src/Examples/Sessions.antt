-- ===== src/Examples/Sessions.antt =====
-- A session that a participant has rejoined.
use session_analysis_platfor.Prelude.{◌≡◌, [], ◌∷◌, none, some, codes, length}
use session_analysis_platfor.Prelude.Int.{pos}
use session_analysis_platfor.Session.{
  Join, Session, is_open, session_started_at, session_is_open, reconnects,
}
use session_analysis_platfor.Session.Rejoined.{rejoined, or_time, session_rejoined}
use session_analysis_platfor.Examples.Data.{second}

abbrev rejoin : Join
rejoin = record {
  id = codes "join-2";
  backend = codes "livekit";
  room_name = codes "standup";
  participant_identity = codes "alice";
  room_sid = [];
  participant_sid = codes "PA_2";
  started_at = second 170;
  ended_at = none;
  end_reason = [];
  started_event_id = codes "e5";
  ended_event_id = [];
}

abbrev one_join : Session
one_join = record {
  backend = codes "livekit";
  room_name = codes "standup";
  participant_identity = codes "alice";
  gap = pos 30000000000;
  joins = record rejoin { started_at = second 100; ended_at = some (second 160) } ∷ [];
}

session_rejoined_example :
    (session_is_open (rejoined rejoin one_join) ≡ some (is_open rejoin))
    × (reconnects (rejoined rejoin one_join) ≡ pos (length one_join.joins))
    × (session_started_at (rejoined rejoin one_join)
        ≡ some (or_time (session_started_at one_join) rejoin.started_at))
session_rejoined_example = session_rejoined rejoin one_join
