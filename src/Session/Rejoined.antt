-- ===== src/Session/Rejoined.antt =====
-- The derived session under one more join.
use session_analysis_platfor.Prelude.{
  ◌≡◌, refl, ap, List, [], ◌∷◌, ◌++◌, Option, none, some, length, length-append, arith,
}
use session_analysis_platfor.Prelude.Int.{pos}
use session_analysis_platfor.Time.{Time}
use session_analysis_platfor.Session.{
  Join, Session, is_open, first, last, session_started_at, session_is_open, reconnects,
}

-- the participant has joined again within the threshold
abbrev pub rejoined : Join → Session → Session
rejoined j s = record s { joins = s.joins ++ j ∷ [] }

last-snoc : (js : List Join) (j : Join) → last (js ++ j ∷ []) ≡ some j
unfolding last
last-snoc [] j = refl
last-snoc (k ∷ []) j = refl
last-snoc (k ∷ l ∷ js) j = last-snoc (l ∷ js) j

abbrev pub or_time : Option Time → Time → Time
or_time none t = t
or_time (some u) t = u

session_started_at-snoc :
    (js : List Join) (j : Join) (s : Session)
    → session_started_at (record s { joins = js ++ j ∷ [] })
      ≡ some (or_time (session_started_at (record s { joins = js })) j.started_at)
unfolding session_started_at first
session_started_at-snoc [] j s = refl
session_started_at-snoc (k ∷ js) j s = refl

reconnects-snoc :
    (js : List Join) (j : Join) (s : Session)
    → reconnects (record s { joins = js ++ j ∷ [] }) ≡ pos (length js)
unfolding reconnects
reconnects-snoc [] j s = refl
reconnects-snoc (k ∷ js) j s = ap pos (omega (arith, length-append {0} js (j ∷ [])))

-- A session with one join more is open exactly if that join is, has as many reconnects as it had
-- joins, and keeps its start, where it had any; a first join starts it. None of these is undefined.
pub session_rejoined :
    (j : Join) (s : Session)
    → (session_is_open (rejoined j s) ≡ some (is_open j))
      × (reconnects (rejoined j s) ≡ pos (length s.joins))
      × (session_started_at (rejoined j s) ≡ some (or_time (session_started_at s) j.started_at))
unfolding session_is_open
session_rejoined j s = (
  rw (session_is_open, last-snoc s.joins j) refl,
  reconnects-snoc s.joins j s,
  session_started_at-snoc s.joins j s,
)
