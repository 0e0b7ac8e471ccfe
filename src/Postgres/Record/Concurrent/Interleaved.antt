-- ===== src/Postgres/Record/Concurrent/Interleaved.antt =====
-- Calls of `RecordEvent` at once whose statements on the joins interleave with anything: what the
-- joins are to a statement, what it answers, and what becomes of the joins is left open, as locks,
-- snapshots and other clients may decide it. What the code makes of the answers is not.
use session_analysis_platfor.Prelude.{
  ℕ, zero, suc, refl, ◌≡◌, true, false, Bool-cases, inl, inr, List, ◌∷◌, Option, any, is_empty,
  if◌then◌else◌, str_eq,
}
use session_analysis_platfor.Session.{
  Event, event_participant_joined, event_participant_left, event_room_finished,
}
use session_analysis_platfor.Store.{Result, no_result, StoreError}
use session_analysis_platfor.Postgres.Tables.{JoinRow, Database, DriverError}
use session_analysis_platfor.Postgres.Statements.{Reply, refused, done}
use session_analysis_platfor.Postgres.Replies.{Yields, with_event}
use session_analysis_platfor.Postgres.Record.{
  Effect, effect, opened, left, finished, fall_back, after_effect,
}
use session_analysis_platfor.Postgres.Record.Cases.{after_effect_leaves}
use session_analysis_platfor.Postgres.Record.Success.{OnSuccess, after_effect-OnSuccess}
use session_analysis_platfor.Postgres.Record.Outcomes.{
  Outcome, stored_result, EffectYields, opened-Yields, left-Yields, finished-Yields,
}
use session_analysis_platfor.Postgres.Atomic.{EffectLeaves-of}
use session_analysis_platfor.Postgres.Record.Concurrent.{
  Call, answered, holding, start_call, Finished, System, Taken, holds_key,
}

-- What a statement on the joins comes to: an error, or rows affected and the joins behind it.
pub data Said : Type 0 where
  errs : DriverError → Said
  affects : ℕ → List JoinRow → Said

unfoldable pub reply_of : Said → Database → Reply ℕ
reply_of (errs e) tx = refused e
reply_of (affects n joins) tx = done n (record tx { joins = joins })

-- `close`, by what its statements come to
unfoldable pub close_said : Event → Said → Said → Database → Reply ℕ
close_said ev first fallback tx =
    if is_empty ev.participant_sid
    then reply_of fallback tx
    else fall_back (reply_of first tx) (reply_of fallback)

-- `applyJoinEffect`, by what its statements come to
unfoldable pub effect_said : Event → Result → Said → Said → Database → Effect
effect_said ev res first fallback tx =
    if str_eq ev.type event_participant_joined
    then opened res (reply_of first tx)
    else if str_eq ev.type event_participant_left
    then left res (close_said ev first fallback tx)
    else if str_eq ev.type event_room_finished
    then finished res (reply_of first tx)
    else effect res tx

-- `RecordEvent` from `applyJoinEffect` on, by what its statements come to
unfoldable pub finish_said : Call → Said → Said → Database → Outcome
finish_said c first fallback db = after_effect c.world db (
    effect_said c.event (record no_result { stored = true }) first fallback
      (with_event c.world.now c.event db))

pub data Move (s : System) : System → Type 0 where
  answers :
      (c : Call) (db : Database) (res : Result) (err : Option StoreError)
      → start_call c s.database ≡ answered (db, res, err)
      → Move s (record s { database = db; log = Finished.finished c res err ∷ s.log })
  inserts :
      (c : Call)
      → start_call c s.database ≡ holding
      → any (holds_key c.event) s.in_flight ≡ false
      → Move s (record s { in_flight = c ∷ s.in_flight })
  finishes :
      (c : Call) (rest : List Call) (first fallback : Said) (db : Database) (res : Result)
      (err : Option StoreError)
      → Taken c s.in_flight rest
      → finish_said c first fallback s.database ≡ (db, res, err)
      → Move s
          (record { database = db; in_flight = rest; log = Finished.finished c res err ∷ s.log })
  joins_change :
      (joins : List JoinRow) → Move s (record s { database = record s.database { joins = joins } })

pub data Moves (s : System) : System → Type 0 where
  start : Moves s s
  then_move : {t u : System} → Moves s t → Move t u → Moves s u

-- What holds whatever the joins are, holds behind a call's statements on them.
module _ {κ} (tx : Database) where
  reply_of-Yields :
      (P : ℕ → Database → Type κ) (s : Said)
      → ((n : ℕ) (joins : List JoinRow) → P n (record tx { joins = joins }))
      → Yields P (reply_of s tx)
  unfolding reply_of
  reply_of-Yields P (errs e) h = tt
  reply_of-Yields P (affects n joins) h = h n joins

  fall_back-Yields :
      (P : ℕ → Database → Type κ) (first fallback : Said)
      → ((n : ℕ) (joins : List JoinRow) → P n (record tx { joins = joins }))
      → Yields P (fall_back (reply_of first tx) (reply_of fallback))
  unfolding reply_of fall_back
  fall_back-Yields P (errs e) fallback h = tt
  fall_back-Yields P (affects zero joins) (errs e) h = tt
  fall_back-Yields P (affects zero joins) (affects n joins') h = h n joins'
  fall_back-Yields P (affects (suc n) joins) fallback h = h (suc n) joins

  close_said-Yields :
      (P : ℕ → Database → Type κ) (ev : Event) (first fallback : Said)
      → ((n : ℕ) (joins : List JoinRow) → P n (record tx { joins = joins }))
      → Yields P (close_said ev first fallback tx)
  unfolding close_said
  close_said-Yields P ev first fallback h = elim (Bool-cases (is_empty ev.participant_sid)) [
    | inl e ↦ rw e (reply_of-Yields P fallback h)
    | inr e ↦ rw e (fall_back-Yields P first fallback h)
  ]

  pub effect_said-Yields :
      (Q : Result → Database → Type κ) (ev : Event) (res : Result) (first fallback : Said)
      → ((res' : Result) (joins : List JoinRow)
          → res'.stored ≡ res.stored
          → Q res' (record tx { joins = joins }))
      → EffectYields (λ _. Unit) Q (effect_said ev res first fallback tx)
  unfolding effect_said
  effect_said-Yields Q ev res first fallback h =
      elim (Bool-cases (str_eq ev.type event_participant_joined)) [
        | inl j ↦ rw j (opened-Yields Q res _ (reply_of-Yields _ first (λ n joins. h _ joins refl)))
        | inr j ↦ elim (Bool-cases (str_eq ev.type event_participant_left)) [
          | inl l ↦
              rw (j, l)
                (left-Yields Q res _
                  (close_said-Yields _ ev first fallback (λ n joins. h _ joins refl)))
          | inr l ↦ elim (Bool-cases (str_eq ev.type event_room_finished)) [
            | inl f ↦
                rw (j, l, f)
                  (finished-Yields Q res _ (reply_of-Yields _ first (λ n joins. h _ joins refl)))
            | inr f ↦ rw (j, l, f) (h res tx.joins refl)
          ]
        ]
      ]

-- what does not speak of the joins, behind the rest of a call
pub finish_said_leaves :
    (Q : Database → Type 0) (c : Call) (first fallback : Said) (db : Database)
    → ((joins : List JoinRow) (tx : Database) → Q tx → Q (record tx { joins = joins }))
    → Q db
    → Q (with_event c.world.now c.event db)
    → Q (finish_said c first fallback db).0
unfolding finish_said
finish_said_leaves Q c first fallback db beside h k = after_effect_leaves Q c.world c.event db _ h (
    EffectLeaves-of Q _ (
      effect_said-Yields _ (λ _. Q) c.event stored_result first fallback
        (λ _ joins _. beside joins _ k)))

-- a call that returns no error has inserted its row, and reports it
pub finish_said-OnSuccess :
    (Q : Result → Database → Type 0) (c : Call) (first fallback : Said) (db : Database)
    → ((res : Result) (joins : List JoinRow)
        → res.stored ≡ true
        → Q res (record (with_event c.world.now c.event db) { joins = joins }))
    → OnSuccess Q (finish_said c first fallback db)
unfolding finish_said
finish_said-OnSuccess Q c first fallback db h =
    after_effect-OnSuccess Q c.world db _
      (effect_said-Yields _ Q c.event stored_result first fallback h)
