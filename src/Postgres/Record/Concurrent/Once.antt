-- ===== src/Postgres/Record/Concurrent/Once.antt =====
-- How often calls that run at once take effect for one event.
use mathlib.Core.Path.{subst}
use session_analysis_platfor.Prelude.{
  ℕ, ◌+◌, ◌≤◌, ltb, ◌≡◌, refl, Bool, true, false, ◌&&◌, ◌||◌, Bool-cases, inl, inr, Option, none,
  some, if◌then◌else◌, count_if, arith, ◌∙◌, suc,
}
use session_analysis_platfor.Session.{Event}
use session_analysis_platfor.Store.{Result, no_result, StoreError}
use session_analysis_platfor.Store.Contract.{same_event, same_event-true_sym, succeeded}
use session_analysis_platfor.Postgres.Tables.{Database}
use session_analysis_platfor.Postgres.Record.{record_event}
use session_analysis_platfor.Postgres.Record.Success.{OnSuccess}
use session_analysis_platfor.Postgres.Atomic.{
  IsRecorded, IsRecorded-new, record_event_durable, record_event_duplicate,
}
use session_analysis_platfor.Postgres.Events.{
  in_event_raw, in_event_raw-same, in_event_raw-with_event,
}
use session_analysis_platfor.Postgres.Record.Concurrent.{
  Call, Finished, finished, System, idle, holds_key,
}
use session_analysis_platfor.Postgres.Record.Concurrent.Holding.{IsHolding, All-Taken}
use session_analysis_platfor.Postgres.Record.Concurrent.Interleaved.{
  Said, finish_said, finish_said_leaves, finish_said-OnSuccess, Move, answers, inserts, finishes,
  joins_change, Moves, start, then_move,
}
use session_analysis_platfor.Postgres.Record.Concurrent.Orderly.{
  IsOrderly, answered_whole, Moves-IsOrderly,
}

-- a result that reports an effect
abbrev pub takes_effect : Result → Bool
takes_effect r = r.stored || r.join_opened || ltb 0 r.joins_closed || r.close_unmatched

-- the call was for this event, returned no error and reports an effect
abbrev pub applied : Event → Finished → Bool
applied ev (finished c res err) = holds_key ev c && succeeded err && takes_effect res

-- one call more, where `was` and `is` say whether there is a row before and after it
tally :
    (was is call : Bool) (n m : ℕ)
    → n + m ≤ (if was then 1 else 0)
    → (was ≡ true → is ≡ true)
    → (was ≡ true → call ≡ false)
    → (call ≡ true → is ≡ true)
    → (if call then suc n else n) + m ≤ (if is then 1 else 0)
tally true is call n m before kept old new = rw (kept refl, old refl) before
tally false is true n m before kept old new = rw (new refl) (omega (arith, before))
tally false is false n m before kept old new = ground (arith, before)

-- a row of `event_raw` stays
finish_said_keeps_row :
    (c : Call) (said fallback : Said) (ev : Event) (db : Database)
    → in_event_raw db ev ≡ true
    → in_event_raw (finish_said c said fallback db).0 ev ≡ true
finish_said_keeps_row c said fallback ev db h =
    finish_said_leaves (λ tx. in_event_raw tx ev ≡ true) c said fallback db (λ _ _ k. k) h
      (in_event_raw-with_event c.world.now c.event ev db ∙ ground (arith, h))

-- a call that returns no error leaves its row
finish_said_durable :
    (c : Call) (said fallback : Said) (db db' : Database) (res : Result) (err : Option StoreError)
    → finish_said c said fallback db ≡ (db', res, err)
    → err ≡ none
    → in_event_raw db' c.event ≡ true
finish_said_durable c said fallback db db' res err e ok =
    let Q : Result → Database → Type 0 = λ _. IsRecorded c.event in
    subst (λ o. OnSuccess Q (db', res, o)) ok
      (subst (OnSuccess Q) e (
        finish_said-OnSuccess Q c said fallback db
          (λ _ _ _. IsRecorded-new c.world.now c.event db)))

module _ (ev : Event) where
  -- a call that reports an effect was for this event and returned no error
  applied_same :
      (c : Call) (res : Result) (err : Option StoreError)
      → applied ev (finished c res err) ≡ true
      → (same_event ev c.event ≡ true) × (err ≡ none)
  applied_same c res (some x) a = ground arith
  applied_same c res none a = (ground arith, refl)

  -- a call for an event that has a row reports no effect
  repeat_not_applied :
      (c : Call) (res : Result) (err : Option StoreError) (db db' : Database)
      → record_event c.world c.event db ≡ (db', res, err)
      → in_event_raw db ev ≡ true
      → applied ev (finished c res err) ≡ false
  repeat_not_applied c res err db db' e h = elim (Bool-cases (same_event ev c.event)) [
    | inr n ↦ rw n refl
    | inl y ↦
        let (_, r) =
          record_event_duplicate c.world c.event db (in_event_raw-same ev c.event db y h) in
        let q : res ≡ no_result = cc (r, e) in ground (arith, q)
  ]

  -- behind a call that reports an effect the event has a row, if every success leaves its row
  applied_has_row :
      (c : Call) (res : Result) (err : Option StoreError) (db : Database)
      → (err ≡ none → in_event_raw db c.event ≡ true)
      → applied ev (finished c res err) ≡ true
      → in_event_raw db ev ≡ true
  applied_has_row c res err db durable a =
      let (y, ok) = applied_same c res err a in
      in_event_raw-same c.event ev db (same_event-true_sym ev c.event y) (durable ok)

  -- a call behind its insert is for an event that has no row
  holder_not_applied :
      (c : Call) (res : Result) (err : Option StoreError) (db : Database)
      → in_event_raw db c.event ≡ false
      → in_event_raw db ev ≡ true
      → applied ev (finished c res err) ≡ false
  holder_not_applied c res err db fresh h = elim (Bool-cases (same_event ev c.event)) [
    | inr n ↦ rw n refl
    | inl y ↦ let old = in_event_raw-same ev c.event db y h in cc (fresh, old)
  ]

  -- the rows of the event, of which there is at most one
  rows : Database → ℕ
  rows db = if in_event_raw db ev then 1 else 0

  Move-rows :
      (n : ℕ) {s t : System}
      → Move s t
      → IsOrderly s
      → count_if (applied ev) s.log + n ≤ rows s.database
      → count_if (applied ev) t.log + n ≤ rows t.database
  unfolding rows
  Move-rows n {s} (answers c db res err e) o before =
      let (whole, same) = answered_whole c s.database db res err e in
      tally (in_event_raw s.database ev) (in_event_raw db ev) (applied ev (finished c res err)) _ _
        before (λ h. cc (same, h)) (repeat_not_applied c res err s.database db whole)
        (applied_has_row c res err db
          (λ ok. record_event_durable c.world c.event s.database db res (cc (whole, ok))))
  Move-rows n (inserts c e free) o before = before
  Move-rows n {s} (finishes c rest said fallback db res err t e) o before =
      let (h, _) = All-Taken (λ x. IsHolding x s.database) t o.holds in
      tally (in_event_raw s.database ev) (in_event_raw db ev) (applied ev (finished c res err)) _ _
        before
        (λ k.
          subst (λ x. in_event_raw x.0 ev ≡ true) e (finish_said_keeps_row c said fallback ev _ k))
        (holder_not_applied c res err s.database h.fresh)
        (applied_has_row c res err db (finish_said_durable c said fallback s.database db res err e))
  Move-rows n (joins_change joins) o before = before

  Moves-rows :
      {db : Database} {s : System}
      → Moves (idle db) s
      → count_if (applied ev) s.log + rows db ≤ rows s.database
  Moves-rows start = omega arith
  Moves-rows (then_move r m) = Move-rows _ m (Moves-IsOrderly r) (Moves-rows r)

  -- However calls of `record_event` run at once, each waiting for the key of its row while another
  -- call holds it, whatever their statements on the joins come to, and whatever becomes of the joins
  -- at any moment: of all calls for one event, those that return no error and report an effect, be
  -- it a stored event, an opened or an ended join, or a close without a match, are at most one, and
  -- none if the event had a row at the start.
  pub applied_at_most_once :
      {db : Database} {s : System}
      → Moves (idle db) s
      → count_if (applied ev) s.log ≤ (if in_event_raw db ev then 0 else 1)
  unfolding rows
  applied_at_most_once {db} {s} r =
      let h = Moves-rows r in
      elim (Bool-cases (in_event_raw db ev)) [
        | inl y ↦ elim (Bool-cases (in_event_raw s.database ev)) [
          | inl a ↦ ground (arith, h)
          | inr a ↦ ground (arith, h)
        ]
        | inr n ↦ elim (Bool-cases (in_event_raw s.database ev)) [
          | inl a ↦ ground (arith, h)
          | inr a ↦ ground (arith, h)
        ]
      ]
