-- ===== src/Postgres/Record/Cases.antt =====
-- The ways that `record_event` can leave the database, as a principle for invariants and for
-- relations between the database before and after.
use session_analysis_platfor.Prelude.{
  ℕ, zero, suc, ◌≡◌, refl, ◌⊎◌, List, inl, inr, Bool-cases, Bool, Option, none, some, Bytes,
  is_empty, str_eq, eq_of_str_eq,
}
use session_analysis_platfor.Session.{
  Event, event_participant_joined, event_participant_left, event_room_finished,
  end_participant_left, end_room_finished,
}
use session_analysis_platfor.Store.{Result}
use session_analysis_platfor.Postgres.Tables.{JoinRow, Database, DriverError}
use session_analysis_platfor.Postgres.Replies.{
  Leaves, Leaves-of, open_join-Yields, close_where-Yields,
}
use session_analysis_platfor.Postgres.Statements.{
  Reply, refused, done, insert_event, open_join, close_where, close_by_sid, close_by_identity,
  close_room, sid_matches, is_latest, room_matches,
}
use session_analysis_platfor.Postgres.Record.{
  World, Effect, effect, effect_error, opened, left, finished, exec, fall_back, close,
  apply_join_effect, Commit, commit, after_effect, after_insert, after_begin, record_event,
}

abbrev pub EffectLeaves {κ} : (Database → Type κ) → Effect → Type κ
EffectLeaves Q (effect_error e) = Unit
EffectLeaves Q (effect res tx) = Q tx

-- `RecordEvent` ends joins for one of two reasons
abbrev pub IsEndReason : Bytes → Type 0
IsEndReason r = (r ≡ end_participant_left) ⊎ (r ≡ end_room_finished)

-- the tests that `RecordEvent` ends joins by
pub data Target (ev : Event) (tx : Database) : (JoinRow → Bool) → Type 0 where
  by_sid : Target ev tx (sid_matches ev)
  by_identity : Target ev tx (is_latest ev tx)
  by_room : Target ev tx (room_matches ev)

-- a statement that ends joins: the type of event that it runs for, and the reason that it writes
pub data Cause (ev : Event) (tx : Database) : (JoinRow → Bool) → Bytes → Type 0 where
  sid_left : ev.type ≡ event_participant_left → Cause ev tx (sid_matches ev) end_participant_left
  identity_left :
      ev.type ≡ event_participant_left → Cause ev tx (is_latest ev tx) end_participant_left
  room_over : ev.type ≡ event_room_finished → Cause ev tx (room_matches ev) end_room_finished

pub Cause-Target :
    {ev : Event} {tx : Database} {p : JoinRow → Bool} {reason : Bytes}
    → Cause ev tx p reason
    → Target ev tx p
Cause-Target (sid_left t) = by_sid
Cause-Target (identity_left t) = by_identity
Cause-Target (room_over t) = by_room

pub Cause-IsEndReason :
    {ev : Event} {tx : Database} {p : JoinRow → Bool} {reason : Bytes}
    → Cause ev tx p reason
    → IsEndReason reason
Cause-IsEndReason (sid_left t) = inl refl
Cause-IsEndReason (identity_left t) = inl refl
Cause-IsEndReason (room_over t) = inr refl

Leaves-exec {ℓ κ} :
    {A : Type ℓ} (Q : Database → Type κ) (f : Option DriverError) (r : Reply A)
    → Leaves Q r
    → Leaves Q (exec f r)
unfolding exec
Leaves-exec Q none r h = h
Leaves-exec Q (some e) r h = tt

module _ {κ} (Q : Database → Type κ) (w : World) (ev : Event) where
  Leaves-fall_back :
      (r : Reply ℕ) (rest : Database → Reply ℕ)
      → Leaves Q r
      → ((tx : Database) → Q tx → Leaves Q (rest tx))
      → Leaves Q (fall_back r rest)
  unfolding fall_back
  Leaves-fall_back (refused e) rest h k = tt
  Leaves-fall_back (done zero tx) rest h k = k tx h
  Leaves-fall_back (done (suc n) tx) rest h k = h

  EffectLeaves-opened : (res : Result) (r : Reply ℕ) → Leaves Q r → EffectLeaves Q (opened res r)
  unfolding opened
  EffectLeaves-opened res (refused e) h = tt
  EffectLeaves-opened res (done n tx) h = h

  EffectLeaves-left : (res : Result) (r : Reply ℕ) → Leaves Q r → EffectLeaves Q (left res r)
  unfolding left
  EffectLeaves-left res (refused e) h = tt
  EffectLeaves-left res (done n tx) h = h

  EffectLeaves-finished :
      (res : Result) (r : Reply ℕ) → Leaves Q r → EffectLeaves Q (finished res r)
  unfolding finished
  EffectLeaves-finished res (refused e) h = tt
  EffectLeaves-finished res (done n tx) h = h

  pub commit_leaves :
      (c : Commit) (step : Bytes) (res : Result) (db tx : Database)
      → Q db
      → Q tx
      → Q (commit c step res db tx).0
  unfolding commit
  commit_leaves Commit.commits step res db tx h k = k
  commit_leaves (Commit.aborts e) step res db tx h k = h
  commit_leaves (Commit.answer_lost e) step res db tx h k = k

  pub after_effect_leaves :
      (db : Database) (e : Effect) → Q db → EffectLeaves Q e → Q (after_effect w db e).0
  unfolding after_effect
  after_effect_leaves db (effect_error e) h k = h
  after_effect_leaves db (effect res tx) h k = commit_leaves w.commit _ res db tx h k

  module _
      (opens : (tx : Database)
        → ev.type ≡ event_participant_joined
        → Q tx
        → Leaves Q (open_join w.now w.new_join_id ev tx))
      (closes : (p : JoinRow → Bool) (reason : Bytes) (tx : Database)
        → Cause ev tx p reason
        → Q tx
        → Leaves Q (close_where p w.now reason ev tx)) where
    close-Leaves :
        ev.type ≡ event_participant_left
        → (tx : Database) → Q tx
        → Leaves Q (close w ev end_participant_left tx)
    unfolding close close_by_sid close_by_identity
    close-Leaves t tx h = elim (Bool-cases (is_empty ev.participant_sid)) [
      | inl e ↦ rw e (Leaves-exec Q w.fallback_fails _ (closes _ _ tx (identity_left t) h))
      | inr e ↦ rw e (
          Leaves-fall_back _ _ (Leaves-exec Q w.effect_fails _ (closes _ _ tx (sid_left t) h))
            (λ tx' h'. Leaves-exec Q w.fallback_fails _ (closes _ _ tx' (identity_left t) h')))
    ]

    pub apply_join_effect_leaves :
        (res : Result) (tx : Database) → Q tx → EffectLeaves Q (apply_join_effect w ev res tx)
    unfolding apply_join_effect close_room
    apply_join_effect_leaves res tx h =
        elim (Bool-cases (str_eq ev.type event_participant_joined)) [
          | inl j ↦ rw j (
              EffectLeaves-opened res _
                (Leaves-exec Q w.effect_fails _ (opens tx (eq_of_str_eq ev.type _ j) h)))
          | inr j ↦ elim (Bool-cases (str_eq ev.type event_participant_left)) [
            | inl l ↦
                rw (j, l) (EffectLeaves-left res _ (close-Leaves (eq_of_str_eq ev.type _ l) tx h))
            | inr l ↦ elim (Bool-cases (str_eq ev.type event_room_finished)) [
              | inl f ↦
                  rw (j, l, f)
                    (EffectLeaves-finished res _ (
                      Leaves-exec Q w.effect_fails _
                        (closes _ _ tx (room_over (eq_of_str_eq ev.type _ f)) h)))
              | inr f ↦ rw (j, l, f) h
            ]
          ]
        ]

    after_insert_leaves :
        (db : Database) (r : Reply (Option Bytes))
        → Q db
        → Leaves Q r
        → Q (after_insert w ev db r).0
    unfolding after_insert
    after_insert_leaves db (refused e) h k = h
    after_insert_leaves db (done none tx) h k = commit_leaves w.commit _ _ db tx h k
    after_insert_leaves db (done (some id) tx) h k =
        after_effect_leaves db _ h (apply_join_effect_leaves _ tx k)

    after_begin_leaves :
        (db : Database) (b : Option DriverError)
        → Q db
        → Leaves Q (insert_event w.now ev db)
        → Q (after_begin w ev db b).0
    unfolding after_begin
    after_begin_leaves db (some e) h k = h
    after_begin_leaves db none h k = after_insert_leaves db _ h (Leaves-exec Q w.insert_fails _ k)

    -- What holds of the database, of the snapshot behind the insert, and goes on to hold behind
    -- opening and ending joins, holds when `record_event` returns, on every path.
    pub record_event_leaves :
        (db : Database) → Q db → Leaves Q (insert_event w.now ev db) → Q (record_event w ev db).0
    unfolding record_event
    record_event_leaves db h k = after_begin_leaves db w.begin_fails h k

-- What does not speak of the joins goes on to hold behind the effect on them.
module _ {κ} (Q : Database → Type κ) (w : World) (ev : Event)
    (beside : (joins : List JoinRow) (tx : Database) → Q tx → Q (record tx { joins = joins })) where
  pub apply_join_effect_beside :
      (res : Result) (tx : Database) → Q tx → EffectLeaves Q (apply_join_effect w ev res tx)
  apply_join_effect_beside =
      apply_join_effect_leaves Q w ev
        (λ tx _ h.
          Leaves-of Q _
            (open_join-Yields w.now ev tx (λ _. Q) w.new_join_id (λ _. h) (λ _ _. beside _ tx h)))
        (λ p reason tx _ h.
          Leaves-of Q _ (close_where-Yields w.now ev tx (λ _. Q) p reason (λ _. beside _ tx h)))
