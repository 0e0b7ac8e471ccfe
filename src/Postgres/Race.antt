-- ===== src/Postgres/Race.antt =====
-- Two departures of one participant at once, in two transactions. The second one's statement starts
-- before the first one's commit, and waits for the rows that the first one has updated. At
-- PostgreSQL's default isolation, READ COMMITTED, a subquery is evaluated on the snapshot of the
-- statement's start, and the WHERE of the UPDATE once more on the rows that the first one has left.
use mathlib.Core.Path.{subst}
use session_analysis_platfor.Prelude.{
  ℕ, ◌≡◌, refl, ap, sym, Bool, false, ◌&&◌, Bool-cases, inl, inr, List, [], ◌∷◌, Option, none, some,
  Bytes, codes, arith, any, count_if, update_if, str_eq, opt_str_eq,
}
use session_analysis_platfor.Session.{Event}
use session_analysis_platfor.Time.{Time, before}
use session_analysis_platfor.Postgres.Tables.{JoinRow, Database, pg}
use session_analysis_platfor.Postgres.Statements.{
  Reply, refused, done, row_is_open, end_row, close_where, close_by_sid, close_by_identity,
  sid_matches, identity_matches, latest, has_id_of, is_latest,
}
use session_analysis_platfor.Postgres.Replies.{with_ended}
use session_analysis_platfor.Postgres.Latest.{none_passing, count_if_none, update_if_none}

-- `closeByIdentity` on rows that another transaction has updated since the statement's snapshot: the
-- outer WHERE tests the id alone
unfoldable pub close_by_identity_behind : Database → Time → Bytes → Event → Database → Reply ℕ
close_by_identity_behind snapshot now reason ev db =
    close_where (is_latest ev snapshot) now reason ev db

-- a test that ending a row does not change
IsStable : (JoinRow → Bool) → Type 0
IsStable p =
    (now : Time) (reason : Bytes) (ev : Event) (r : JoinRow) → p (end_row now reason ev r) ≡ p r

has_id_of-IsStable : (o : Option JoinRow) → IsStable (has_id_of o)
unfolding IsStable has_id_of end_row
has_id_of-IsStable none now reason ev r = refl
has_id_of-IsStable (some l) now reason ev r = refl

is_latest-IsStable : (ev : Event) (db : Database) → IsStable (is_latest ev db)
unfolding is_latest
is_latest-IsStable ev db = has_id_of-IsStable (latest (identity_matches ev) db.joins)

module _ (now now' : Time) (reason reason' : Bytes) (ev ev' : Event) (p : JoinRow → Bool)
    (k : IsStable p) where
  ended_once : List JoinRow → List JoinRow
  ended_once rs = update_if p (end_row now reason ev) rs

  any-ended_once :
      (rs : List JoinRow)
      → any (λ r. p r && before ev'.occurred_at r.started_at) (ended_once rs)
        ≡ any (λ r. p r && before ev'.occurred_at r.started_at) rs
  unfolding ended_once IsStable end_row
  any-ended_once [] = refl
  any-ended_once (r ∷ rs) = ground (arith, k now reason ev r, any-ended_once rs)

  count_if-ended_once : (rs : List JoinRow) → count_if p (ended_once rs) ≡ count_if p rs
  unfolding ended_once IsStable
  count_if-ended_once [] = refl
  count_if-ended_once (r ∷ rs) = ground (arith, k now reason ev r, count_if-ended_once rs)

  -- the second end replaces the first
  update_if-ended_once :
      (rs : List JoinRow)
      → update_if p (end_row now' reason' ev') (ended_once rs)
        ≡ update_if p (end_row now' reason' ev') rs
  unfolding ended_once IsStable end_row
  update_if-ended_once [] = refl
  update_if-ended_once (r ∷ rs) = ground (arith, k now reason ev r, update_if-ended_once rs)

  close_where_again :
      (db : Database)
      → close_where p now' reason' ev' (with_ended p now reason ev db)
        ≡ close_where p now' reason' ev' db
  unfolding close_where ended_once
  close_where_again db =
      rw (any-ended_once db.joins, count_if-ended_once db.joins, update_if-ended_once db.joins) refl

close_where_done :
    (p : JoinRow → Bool) (now : Time) (reason : Bytes) (ev : Event) (db db' : Database) (n : ℕ)
    → close_where p now reason ev db ≡ done n db'
    → db' ≡ with_ended p now reason ev db
unfolding close_where
close_where_done p now reason ev db db' n h =
    elim (Bool-cases (any (λ r. p r && before ev.occurred_at r.started_at) db.joins)) [
      | inl bad ↦
          let e : close_where p now reason ev db
              ≡ refused (pg (record { code = codes "22000"; constraint_name = [] })) =
            rw bad refl in
          cc (e, h)
      | inr fine ↦
          let e : close_where p now reason ev db
              ≡ done (count_if p db.joins) (with_ended p now reason ev db) =
            rw fine refl in
          cc (e, h)
    ]

close_where_none :
    (p : JoinRow → Bool) (now : Time) (reason : Bytes) (ev : Event) (db : Database)
    → any p db.joins ≡ false
    → close_where p now reason ev db ≡ done 0 db
unfolding close_where
close_where_none p now reason ev db h =
    rw
      (
        none_passing p (λ r. before ev.occurred_at r.started_at) db.joins h,
        count_if_none p db.joins h,
        update_if_none p (end_row now reason ev) db.joins h,
      )
      refl

-- two events of one participant's join
pub record SameJoin (ev ev' : Event) : Type 0 where
  pub backend : ev'.backend ≡ ev.backend
  pub room : ev'.room_name ≡ ev.room_name
  pub identity : ev'.participant_identity ≡ ev.participant_identity
  pub sid : ev'.participant_sid ≡ ev.participant_sid

module _ (ev ev' : Event) (s : SameJoin ev ev') where
  same_identity : identity_matches ev' ≡ identity_matches ev
  unfolding identity_matches
  same_identity = λ i r.
      str_eq r.backend (s.backend i)
      && str_eq r.room_name (s.room i)
      && str_eq r.participant_identity (s.identity i)
      && row_is_open r

  same_sid : sid_matches ev' ≡ sid_matches ev
  unfolding sid_matches
  same_sid = λ i r.
      str_eq r.backend (s.backend i)
      && str_eq r.room_name (s.room i)
      && opt_str_eq r.participant_sid (s.sid i)
      && row_is_open r

  same_latest : (db : Database) → is_latest ev' db ≡ is_latest ev db
  unfolding is_latest
  same_latest db = ap (λ p. has_id_of (latest p db.joins)) same_identity

sid_matches-update_if :
    (now : Time) (reason : Bytes) (ev : Event) (rs : List JoinRow)
    → any (sid_matches ev) (update_if (sid_matches ev) (end_row now reason ev) rs) ≡ false
unfolding sid_matches row_is_open end_row
sid_matches-update_if now reason ev [] = refl
sid_matches-update_if now reason ev (r ∷ rs) =
    ground (arith, sid_matches-update_if now reason ev rs)

-- Two departures of one participant's join at once, where the first has ended its rows and committed.
-- By SID, the second finds no open row and changes nothing. By identity, on its own older snapshot,
-- it ends the same row again: its reply and the rows are those that it would have had alone, so that
-- the first one's end is lost and the join is counted as closed twice.
pub second_departure :
    (now now' : Time) (reason reason' : Bytes) (ev ev' : Event) (db db1 db2 : Database) (n m : ℕ)
    → SameJoin ev ev'
    → close_by_sid now reason ev db ≡ done n db1
    → close_by_identity now reason ev db ≡ done m db2
    → (close_by_sid now' reason' ev' db1 ≡ done 0 db1)
      × (close_by_identity_behind db now' reason' ev' db2 ≡ close_by_identity now' reason' ev' db)
unfolding close_by_sid close_by_identity close_by_identity_behind
second_departure now now' reason reason' ev ev' db db1 db2 n m s h k = (
  close_where_none (sid_matches ev') now' reason' ev' db1 (
      subst (λ d. any (sid_matches ev') d.joins ≡ false)
        (sym (close_where_done (sid_matches ev) now reason ev db db1 n h))
        (subst (λ p. any p (with_ended (sid_matches ev) now reason ev db).joins ≡ false)
          (sym (same_sid ev ev' s)) (sid_matches-update_if now reason ev db.joins))),
  subst (λ d. close_where (is_latest ev' db) now' reason' ev' d ≡ alone)
      (sym (close_where_done (is_latest ev db) now reason ev db db2 m k))
      (subst
        (λ p.
          close_where p now' reason' ev' (with_ended (is_latest ev db) now reason ev db)
          ≡ close_where p now' reason' ev' db)
        (sym (same_latest ev ev' s db))
        (close_where_again now now' reason reason' ev ev' (is_latest ev db)
          (is_latest-IsStable ev db) db)),
)
  where
    alone : Reply ℕ
    alone = close_where (is_latest ev' db) now' reason' ev' db
