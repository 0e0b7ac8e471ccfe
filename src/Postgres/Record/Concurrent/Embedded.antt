-- ===== src/Postgres/Record/Concurrent/Embedded.antt =====
-- Calls at once whose statements on the joins are one step, as a case of those whose statements
-- interleave with anything.
use session_analysis_platfor.Prelude.{
  ℕ, zero, suc, ◌≡◌, refl, sym, ap, ◌∙◌, Bool-cases, inl, inr, Bytes, is_empty, str_eq, Option, [],
  Bool,
}
use session_analysis_platfor.Session.{
  Event, event_participant_joined, event_participant_left, event_room_finished,
  end_participant_left, end_room_finished,
}
use session_analysis_platfor.Store.{Result}
use session_analysis_platfor.Postgres.Tables.{JoinRow, Database, DriverError}
use session_analysis_platfor.Postgres.Statements.{
  Reply, refused, done, open_join, close_where, close_by_sid, close_by_identity, close_room,
  is_latest, room_matches,
}
use session_analysis_platfor.Postgres.Replies.{
  Yields, with_event, open_join-Yields, close_where-Yields,
}
use session_analysis_platfor.Postgres.Record.{
  World, exec, opened, left, finished, close, fall_back, apply_join_effect, after_effect,
}
use session_analysis_platfor.Postgres.Record.Outcomes.{stored_result, Yields-exec}
use session_analysis_platfor.Postgres.Record.Concurrent.{
  Call, finish_call, System, Step, Reach, here, next,
}
use session_analysis_platfor.Postgres.Record.Concurrent.Interleaved.{
  Said, errs, affects, reply_of, close_said, effect_said, finish_said, Move, Moves, start,
  then_move,
}

-- the statement has changed the joins at most
abbrev OnJoins : Database → Reply ℕ → Type 0
OnJoins tx r = Yields (λ _ tx'. tx' ≡ record tx { joins = tx'.joins }) r

abbrev IsSaid : Database → Reply ℕ → Type 0
IsSaid tx r = (s : Said) × (r ≡ reply_of s tx)

OnJoins-IsSaid : (tx : Database) (r : Reply ℕ) → OnJoins tx r → IsSaid tx r
unfolding reply_of
OnJoins-IsSaid tx (refused e) h = (errs e, refl)
OnJoins-IsSaid tx (done n tx') h = (affects n tx'.joins, ap (done n) h)

module _ (w : World) (ev : Event) (tx : Database) where
  open_join-IsSaid :
      (f : Option DriverError) → IsSaid tx (exec f (open_join w.now w.new_join_id ev tx))
  open_join-IsSaid f =
      OnJoins-IsSaid tx _
        (Yields-exec _ f _ (open_join-Yields w.now ev tx _ w.new_join_id (λ _. refl) (λ _ _. refl)))

  close_where-IsSaid :
      (f : Option DriverError) (p : JoinRow → Bool) (reason : Bytes)
      → IsSaid tx (exec f (close_where p w.now reason ev tx))
  close_where-IsSaid f p reason =
      OnJoins-IsSaid tx _
        (Yields-exec _ f _ (close_where-Yields w.now ev tx _ p reason (λ _. refl)))

-- stands for a statement that is not run
abbrev unused : Said
unused = affects 0 []

-- behind the first statement of `close`
fall_back-said :
    (tx : Database) (r : Reply ℕ) (rest : Database → Reply ℕ)
    → IsSaid tx r
    → ((tx' : Database) → IsSaid tx' (rest tx'))
    → (first : Said) × (fallback : Said) × (fall_back r rest
        ≡ fall_back (reply_of first tx) (reply_of fallback))
unfolding reply_of fall_back
fall_back-said tx r rest (errs e, h) k = (errs e, unused, rw h refl)
fall_back-said tx r rest (affects zero js, h) k =
    let (s, e) = k (record tx { joins = js }) in (affects 0 js, s, rw h e)
fall_back-said tx r rest (affects (suc n) js, h) k = (affects (suc n) js, unused, rw h refl)

module _ (w : World) (ev : Event) (tx : Database) where
  close_said_lem :
      (first : Said) × (fallback : Said) × (close w ev end_participant_left tx
        ≡ close_said ev first fallback tx)
  unfolding close close_said close_by_sid close_by_identity
  close_said_lem = elim (Bool-cases (is_empty ev.participant_sid)) [
    | inl e ↦
        let (s, h) =
          close_where-IsSaid w ev tx w.fallback_fails (is_latest ev tx) end_participant_left in
        (s, s, rw e h)
    | inr e ↦ rw e (
        fall_back-said tx _ _ (close_where-IsSaid w ev tx w.effect_fails _ _)
          (λ tx'. close_where-IsSaid w ev tx' w.fallback_fails _ _))
  ]

  apply_join_effect_said :
      (res : Result)
      → (first : Said) × (fallback : Said) × (apply_join_effect w ev res tx
          ≡ effect_said ev res first fallback tx)
  unfolding apply_join_effect effect_said close_room
  apply_join_effect_said res = elim (Bool-cases (str_eq ev.type event_participant_joined)) [
    | inl j ↦
        let (s, h) = open_join-IsSaid w ev tx w.effect_fails in (s, s, rw j (ap (opened res) h))
    | inr j ↦ elim (Bool-cases (str_eq ev.type event_participant_left)) [
      | inl l ↦ let (s, s', h) = close_said_lem in (s, s', rw (j, l) (ap (left res) h))
      | inr l ↦ elim (Bool-cases (str_eq ev.type event_room_finished)) [
        | inl f ↦
            let (s, h) =
              close_where-IsSaid w ev tx w.effect_fails (room_matches ev) end_room_finished in
            (s, s, rw (j, l, f) (ap (finished res) h))
        | inr f ↦ (unused, unused, rw (j, l, f) refl)
      ]
    ]
  ]

-- what a call does in one step behind its insert, as statements that come to something
pub finish_call-said :
    (c : Call) (db : Database)
    → (first : Said) × (fallback : Said) × (finish_call c db ≡ finish_said c first fallback db)
unfolding finish_call finish_said
finish_call-said c db =
    let (s, s', h) =
      apply_join_effect_said c.world c.event (with_event c.world.now c.event db) stored_result in
    (s, s', ap (after_effect c.world db) h)

Step-Move : {s t : System} → Step s t → Move s t
Step-Move (Step.answers c db res err e) = Move.answers c db res err e
Step-Move (Step.inserts c e free) = Move.inserts c e free
Step-Move {s} (Step.finishes c rest db res err t e) =
    let (first, fallback, h) = finish_call-said c s.database in
    Move.finishes c rest first fallback db res err t (sym h ∙ e)

-- Calls whose statements on the joins are one step are a case of calls whose statements come to
-- anything.
pub Reach-Moves : {s t : System} → Reach s t → Moves s t
Reach-Moves here = start
Reach-Moves (next r st) = then_move (Reach-Moves r) (Step-Move st)
