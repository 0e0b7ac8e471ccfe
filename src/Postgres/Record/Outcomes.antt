-- ===== src/Postgres/Record/Outcomes.antt =====
-- What `record_event` returns together with the database that it leaves, branch by branch.
use session_analysis_platfor.Prelude.{
  ℕ, zero, suc, ltb, ◌==◌, ◌≡◌, Bool-cases, inl, inr, true, false, Option, none, some, Bytes, codes,
  is_empty, any, if◌then◌else◌, str_eq, eq_of_str_eq,
}
use session_analysis_platfor.Session.{
  Event, event_participant_joined, event_participant_left, event_room_finished,
  end_participant_left, end_room_finished,
}
use session_analysis_platfor.Store.{
  Result, no_result, StoreError, partition_missing, close_out_of_order, failure,
}
use session_analysis_platfor.Postgres.Tables.{Database, DriverError, covered, is_partition_missing}
use session_analysis_platfor.Postgres.Replies.{Yields, with_event, insert_event-Yields}
use session_analysis_platfor.Postgres.Statements.{
  Reply, refused, done, same_key, insert_event, open_join, close_by_sid, close_by_identity,
  close_room,
}
use session_analysis_platfor.Postgres.Record.{
  World, Effect, effect, effect_error, opened, left, finished, exec, fall_back, close,
  apply_join_effect, commit, after_effect, after_insert, after_begin, record_event,
}

pub Yields-exec {ℓ κ} :
    {A : Type ℓ} (Q : A → Database → Type κ) (f : Option DriverError) (r : Reply A)
    → Yields Q r
    → Yields Q (exec f r)
unfolding exec
Yields-exec Q none r h = h
Yields-exec Q (some e) r h = tt

-- behind the first statement of `close`: the fallback where no row was ended
abbrev pub FallsBack {κ} : (ℕ → Database → Type κ) → (Database → Reply ℕ) → ℕ → Database → Type κ
FallsBack Q rest zero tx = Yields Q (rest tx)
FallsBack Q rest (suc n) tx = Q (suc n) tx

Yields-fall_back {κ} :
    (Q : ℕ → Database → Type κ) (rest : Database → Reply ℕ) (f : Option DriverError) (r : Reply ℕ)
    → Yields (FallsBack Q rest) r
    → Yields Q (fall_back r (λ tx. exec f (rest tx)))
unfolding fall_back
Yields-fall_back Q rest f (refused e) h = tt
Yields-fall_back Q rest f (done zero tx) h = Yields-exec Q f _ h
Yields-fall_back Q rest f (done (suc n) tx) h = h

module _ {κ} (w : World) (ev : Event) (tx : Database) where
  pub close-Yields :
      (Q : ℕ → Database → Type κ) (reason : Bytes)
      → (is_empty ev.participant_sid ≡ false
          → Yields
              (FallsBack Q (close_by_identity w.now reason ev))
              (close_by_sid w.now reason ev tx))
      → (is_empty ev.participant_sid ≡ true → Yields Q (close_by_identity w.now reason ev tx))
      → Yields Q (close w ev reason tx)
  unfolding close
  close-Yields Q reason sid alone = elim (Bool-cases (is_empty ev.participant_sid)) [
    | inl e ↦ rw e (Yields-exec Q w.fallback_fails _ (alone e))
    | inr e ↦
        rw e (Yields-fall_back Q _ w.fallback_fails _ (Yields-exec _ w.effect_fails _ (sid e)))
  ]

abbrev pub EffectYields {κ} : (StoreError → Type κ) → (Result → Database → Type κ) → Effect → Type κ
EffectYields E Q (effect_error e) = E e
EffectYields E Q (effect res tx) = Q res tx

module _ {κ} (Q : Result → Database → Type κ) (res : Result) where
  pub opened-Yields :
      (r : Reply ℕ)
      → Yields (λ n. Q (record res { join_opened = ltb 0 n })) r
      → EffectYields (λ _. Unit) Q (opened res r)
  unfolding opened
  opened-Yields (refused e) h = tt
  opened-Yields (done n tx) h = h

  pub left-Yields :
      (r : Reply ℕ)
      → Yields (λ n. Q (record res { joins_closed = n; close_unmatched = n == 0 })) r
      → EffectYields (λ _. Unit) Q (left res r)
  unfolding left
  left-Yields (refused e) h = tt
  left-Yields (done n tx) h = h

  pub finished-Yields :
      (r : Reply ℕ)
      → Yields (λ n. Q (record res { joins_closed = n })) r
      → EffectYields (λ _. Unit) Q (finished res r)
  unfolding finished
  finished-Yields (refused e) h = tt
  finished-Yields (done n tx) h = h

  -- The result and the snapshot behind `applyJoinEffect`, by the event's type.
  pub apply_join_effect-Yields :
      (w : World) (ev : Event) (tx : Database)
      → (ev.type ≡ event_participant_joined
          → Yields
              (λ n. Q (record res { join_opened = ltb 0 n }))
              (open_join w.now w.new_join_id ev tx))
      → (ev.type ≡ event_participant_left
          → Yields
              (λ n. Q (record res { joins_closed = n; close_unmatched = n == 0 }))
              (close w ev end_participant_left tx))
      → (ev.type ≡ event_room_finished
          → Yields
              (λ n. Q (record res { joins_closed = n }))
              (close_room w.now end_room_finished ev tx))
      → (str_eq ev.type event_participant_joined ≡ false
          → str_eq ev.type event_participant_left ≡ false
          → str_eq ev.type event_room_finished ≡ false
          → Q res tx)
      → EffectYields (λ _. Unit) Q (apply_join_effect w ev res tx)
  unfolding apply_join_effect
  apply_join_effect-Yields w ev tx opens lefts rooms other =
      elim (Bool-cases (str_eq ev.type event_participant_joined)) [
        | inl j ↦
            rw j
              (opened-Yields _ (Yields-exec _ w.effect_fails _ (opens (eq_of_str_eq ev.type _ j))))
        | inr j ↦ elim (Bool-cases (str_eq ev.type event_participant_left)) [
          | inl l ↦ rw (j, l) (left-Yields _ (lefts (eq_of_str_eq ev.type _ l)))
          | inr l ↦ elim (Bool-cases (str_eq ev.type event_room_finished)) [
            | inl f ↦
                rw (j, l, f)
                  (finished-Yields _
                    (Yields-exec _ w.effect_fails _ (rooms (eq_of_str_eq ev.type _ f))))
            | inr f ↦ rw (j, l, f) (other j l f)
          ]
        ]
      ]

-- the errors before the join effect: no close was tried
abbrev pub IsInsertError : StoreError → Type 0
IsInsertError partition_missing = Unit
IsInsertError close_out_of_order = ⊥
IsInsertError (failure m) = Unit

insert_error :
    (e : DriverError)
    → IsInsertError (
        if is_partition_missing e
        then partition_missing
        else failure (codes "postgres: insert event"))
insert_error e = elim (Bool-cases (is_partition_missing e)) [ inl p ↦ rw p tt | inr p ↦ rw p tt ]

abbrev pub Outcome : Type 0
Outcome = Database × Result × Option StoreError

-- the result of a new event before its effect is applied
abbrev pub stored_result : Result
stored_result = record no_result { stored = true }

module _ {κ} (P : Outcome → Type κ) (w : World) (ev : Event) (db : Database) where
  pub after_effect_outcome :
      (e : Effect)
      → EffectYields
          (λ err. P (db, stored_result, some err))
          (λ res tx. P (commit w.commit (codes "postgres: commit") res db tx))
          e
      → P (after_effect w db e)
  unfolding after_effect
  after_effect_outcome (effect_error e) h = h
  after_effect_outcome (effect res tx) h = h

  InsertYields : Option Bytes → Database → Type κ
  InsertYields none tx = P (commit w.commit (codes "postgres: commit duplicate") no_result db tx)
  InsertYields (some id) tx = P (after_effect w db (apply_join_effect w ev stored_result tx))

  after_insert_outcome :
      (r : Reply (Option Bytes))
      → ((err : StoreError) → IsInsertError err → P (db, no_result, some err))
      → Yields InsertYields r
      → P (after_insert w ev db r)
  unfolding after_insert InsertYields
  after_insert_outcome (refused e) fails h = fails _ (insert_error e)
  after_insert_outcome (done none tx) fails h = h
  after_insert_outcome (done (some id) tx) fails h = h

  after_begin_outcome :
      (b : Option DriverError)
      → ((err : StoreError) → IsInsertError err → P (db, no_result, some err))
      → Yields InsertYields (insert_event w.now ev db)
      → P (after_begin w ev db b)
  unfolding after_begin
  after_begin_outcome (some e) fails h = fails _ tt
  after_begin_outcome none fails h = after_insert_outcome _ fails (Yields-exec _ w.insert_fails _ h)

  -- A call fails before its insert has an effect, or finds a duplicate and commits nothing, or
  -- applies the join effect behind the insert.
  pub record_event_outcome :
      ((err : StoreError) → IsInsertError err → P (db, no_result, some err))
      → (any (same_key ev) db.events ≡ true
          → P (commit w.commit (codes "postgres: commit duplicate") no_result db db))
      → (covered db.partitions ev.occurred_at ≡ true
          → any (same_key ev) db.events ≡ false
          → P (after_effect w db (apply_join_effect w ev stored_result (with_event w.now ev db))))
      → P (record_event w ev db)
  unfolding record_event InsertYields
  record_event_outcome fails old new =
      after_begin_outcome w.begin_fails fails
        (insert_event-Yields w.now ev db InsertYields (λ _ o. old o) new)
