-- ===== src/Postgres/Record/Progress.antt =====
-- When `RecordEvent` succeeds.
use session_analysis_platfor.Prelude.{
  ℕ, zero, suc, ◌≡◌, refl, inl, inr, Bool, true, false, ◌&&◌, Bool-cases, List, [], ◌∷◌, ◌++◌, none,
  Bytes, arith, any, update_if, is_empty, str_eq,
}
use session_analysis_platfor.Time.{Time, before}
use session_analysis_platfor.Session.{
  Event, event_participant_joined, event_participant_left, event_room_finished,
  end_participant_left, end_room_finished,
}
use session_analysis_platfor.Store.{Result}
use session_analysis_platfor.Postgres.Tables.{JoinRow, Database, covered}
use session_analysis_platfor.Postgres.Statements.{
  event_row, Reply, refused, done, same_key, insert_event, open_join, end_row, close_where,
  close_by_sid, close_by_identity, close_room, sid_matches, is_latest, room_matches,
}
use session_analysis_platfor.Postgres.Replies.{with_event}
use session_analysis_platfor.Postgres.Record.{
  World, Commit, commit, Effect, effect, effect_error, opened, left, finished, exec, fall_back,
  close, apply_join_effect, after_effect, after_insert, after_begin, record_event,
}
use session_analysis_platfor.Postgres.Record.Outcomes.{stored_result}
use session_analysis_platfor.Postgres.Record.Cases.{apply_join_effect_beside}
use session_analysis_platfor.Postgres.Record.Success.{record_event_success}
use session_analysis_platfor.Postgres.Atomic.{EffectYields-of, IsRecorded, record_event_durable}

-- nothing fails outside
pub record IsCalm (w : World) : Type 0 where
  pub begin : w.begin_fails ≡ none
  pub insert : w.insert_fails ≡ none
  pub effect : w.effect_fails ≡ none
  pub fallback : w.fallback_fails ≡ none
  pub commits : w.commit ≡ Commit.commits

abbrev pub starts_later : Event → JoinRow → Bool
starts_later ev r = before ev.occurred_at r.started_at

-- The event can be recorded: a partition covers its time, no join starts behind it, and the new
-- join's id is not taken.
pub record IsRecordable (w : World) (ev : Event) (db : Database) : Type 0 where
  pub has_partition : covered db.partitions ev.occurred_at ≡ true
  pub in_order : any (starts_later ev) db.joins ≡ false
  pub fresh : any (λ r. str_eq r.join_id w.new_join_id) db.joins ≡ false

-- the reply is no error
abbrev IsDone {ℓ} : {A : Type ℓ} → Reply A → Type 0
IsDone (refused e) = ⊥
IsDone (done n tx) = Unit

abbrev IsApplied : Effect → Type 0
IsApplied (effect_error e) = ⊥
IsApplied (effect res tx) = Unit

any_of_both :
    (p q : JoinRow → Bool) (rs : List JoinRow) → any q rs ≡ false → any (λ r. p r && q r) rs ≡ false
any_of_both p q [] h = refl
any_of_both p q (r ∷ rs) h = ground (arith, any_of_both p q rs)

-- ending joins does not change when they started
in_order-update_if :
    (p : JoinRow → Bool) (now : Time) (reason : Bytes) (ev : Event) (rs : List JoinRow)
    → any (starts_later ev) rs ≡ false
    → any (starts_later ev) (update_if p (end_row now reason ev) rs) ≡ false
unfolding end_row
in_order-update_if p now reason ev [] h = refl
in_order-update_if p now reason ev (r ∷ rs) h =
    ground (arith, in_order-update_if p now reason ev rs)

module _ (now : Time) (reason : Bytes) (ev : Event) where
  close_where-IsDone :
      (p : JoinRow → Bool) (db : Database)
      → any (starts_later ev) db.joins ≡ false
      → IsDone (close_where p now reason ev db)
  unfolding close_where
  close_where-IsDone p db h = rw (any_of_both p (starts_later ev) db.joins h) tt

  -- the reply is no error, and no join starts behind the event in its snapshot
  abbrev IsInOrder : Reply ℕ → Type 0
  IsInOrder (refused e) = ⊥
  IsInOrder (done n tx) = any (starts_later ev) tx.joins ≡ false

  close_where-IsInOrder :
      (p : JoinRow → Bool) (db : Database)
      → any (starts_later ev) db.joins ≡ false
      → IsInOrder (close_where p now reason ev db)
  unfolding close_where
  close_where-IsInOrder p db h =
      rw (any_of_both p (starts_later ev) db.joins h)
        (in_order-update_if p now reason ev db.joins h)

  fall_back-IsDone :
      (r : Reply ℕ) (rest : Database → Reply ℕ)
      → IsInOrder r
      → ((tx : Database) → any (starts_later ev) tx.joins ≡ false → IsDone (rest tx))
      → IsDone (fall_back r rest)
  unfolding fall_back
  fall_back-IsDone (refused e) rest h k = h
  fall_back-IsDone (done zero tx) rest h k = k tx h
  fall_back-IsDone (done (suc n) tx) rest h k = tt

opened-IsApplied : (res : Result) (r : Reply ℕ) → IsDone r → IsApplied (opened res r)
unfolding opened
opened-IsApplied res (refused e) h = h
opened-IsApplied res (done n tx) h = tt

left-IsApplied : (res : Result) (r : Reply ℕ) → IsDone r → IsApplied (left res r)
unfolding left
left-IsApplied res (refused e) h = h
left-IsApplied res (done n tx) h = tt

finished-IsApplied : (res : Result) (r : Reply ℕ) → IsDone r → IsApplied (finished res r)
unfolding finished
finished-IsApplied res (refused e) h = h
finished-IsApplied res (done n tx) h = tt

module _ (w : World) (ev : Event) (calm : IsCalm w) where
  open_join-IsDone :
      (db : Database)
      → any (λ r. str_eq r.join_id w.new_join_id) db.joins ≡ false
      → IsDone (open_join w.now w.new_join_id ev db)
  unfolding open_join
  open_join-IsDone db h = elim (Bool-cases (any (λ r. str_eq r.started_event_id ev.id) db.joins)) [
    | inl o ↦ rw o tt
    | inr n ↦ rw (n, h) tt
  ]

  close-IsDone :
      (reason : Bytes) (db : Database)
      → any (starts_later ev) db.joins ≡ false
      → IsDone (close w ev reason db)
  unfolding close close_by_sid close_by_identity exec
  close-IsDone reason db h = elim (Bool-cases (is_empty ev.participant_sid)) [
    | inl e ↦ rw (e, calm.fallback) (close_where-IsDone w.now reason ev (is_latest ev db) db h)
    | inr e ↦
        rw (e, calm.effect, calm.fallback)
          (fall_back-IsDone w.now reason ev _ _
            (close_where-IsInOrder w.now reason ev (sid_matches ev) db h)
            (λ tx k. close_where-IsDone w.now reason ev (is_latest ev tx) tx k))
  ]

  apply_join_effect-IsApplied :
      (res : Result) (db : Database)
      → IsRecordable w ev db
      → IsApplied (apply_join_effect w ev res db)
  unfolding apply_join_effect close_room exec
  apply_join_effect-IsApplied res db h =
      elim (Bool-cases (str_eq ev.type event_participant_joined)) [
        | inl j ↦ rw (j, calm.effect) (opened-IsApplied res _ (open_join-IsDone db h.fresh))
        | inr j ↦ elim (Bool-cases (str_eq ev.type event_participant_left)) [
          | inl l ↦
              rw (j, l) (left-IsApplied res _ (close-IsDone end_participant_left db h.in_order))
          | inr l ↦ elim (Bool-cases (str_eq ev.type event_room_finished)) [
            | inl f ↦
                rw (j, l, f, calm.effect)
                  (finished-IsApplied res _
                    (close_where-IsDone w.now end_room_finished ev (room_matches ev) db h.in_order))
            | inr f ↦ rw (j, l, f) tt
          ]
        ]
      ]

  after_effect-none : (db : Database) (e : Effect) → IsApplied e → (after_effect w db e).2 ≡ none
  unfolding after_effect commit
  after_effect-none db (effect_error e) h = absurd h
  after_effect-none db (effect res tx) h = rw calm.commits refl

  after_insert-none :
      (db : Database)
      → IsRecordable w ev db
      → (after_insert w ev db (insert_event w.now ev db)).2 ≡ none
  unfolding after_insert insert_event commit
  after_insert-none db h = elim (Bool-cases (any (same_key ev) db.events)) [
    | inl o ↦ rw (h.has_partition, o, calm.commits) refl
    | inr n ↦
        rw (h.has_partition, n)
          (after_effect-none db _ (
            apply_join_effect-IsApplied stored_result (with_event w.now ev db)
              (record { has_partition = h.has_partition; in_order = h.in_order; fresh = h.fresh })))
  ]

  calm-none : (db : Database) → IsRecordable w ev db → (record_event w ev db).2 ≡ none
  unfolding record_event after_begin exec
  calm-none db h = simp (calm.begin, calm.insert) (after_insert-none db h)

-- a call without an error has recorded its event
pub arrives :
    (w : World) (ev : Event) (db : Database)
    → (record_event w ev db).2 ≡ none
    → ((record_event w ev db).2 ≡ none) × IsRecorded ev (record_event w ev db).0
arrives w ev db ok =
    (ok, record_event_durable w ev db (record_event w ev db).0 (record_event w ev db).1 (cc ok))

-- A call for an event that can be recorded, in a world where nothing fails, returns no error, and its
-- event is in `event_raw` behind it.
pub record_event_succeeds :
    (w : World) (ev : Event) (db : Database)
    → IsCalm w
    → IsRecordable w ev db
    → ((record_event w ev db).2 ≡ none) × IsRecorded ev (record_event w ev db).0
record_event_succeeds w ev db calm h = arrives w ev db (calm-none w ev calm db h)

-- Where the event has no row yet, such a call adds its row behind the others.
pub record_event_adds_row :
    (w : World) (ev : Event) (db : Database)
    → IsCalm w
    → IsRecordable w ev db
    → any (same_key ev) db.events ≡ false
    → (record_event w ev db).0.events ≡ db.events ++ event_row w.now ev ∷ []
record_event_adds_row w ev db calm h new =
    let ok = calm-none w ev calm db h in
    let Q : Database → Type 0 = λ tx. tx.events ≡ db.events ++ event_row w.now ev ∷ [] in
    record_event_success (λ _. Q) w ev db (λ old. cc (old, new))
      (λ _ _.
        EffectYields-of Q _ (apply_join_effect_beside Q w ev (λ _ _ k. k) stored_result _ refl))
      (record_event w ev db).0 (record_event w ev db).1 (cc ok)
