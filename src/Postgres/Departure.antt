-- ===== src/Postgres/Departure.antt =====
-- Which joins a departure ends.
use mathlib.Core.List.{map}
use mathlib.Core.Path.{subst}
use session_analysis_platfor.Prelude.{
  ℕ, zero, suc, ◌==◌, ◌≡◌, ◌≢◌, refl, ap, sym, ◌∙◌, ◌⊎◌, inl, inr, Bool, true, false, List, [], ◌∷◌,
  Option, none, some, arith, any, count_if, update_if, is_empty, str_eq, str_eq_refl,
}
use session_analysis_platfor.Session.{Event, event_participant_left, end_participant_left}
use session_analysis_platfor.Store.{Result}
use session_analysis_platfor.Postgres.Tables.{JoinRow, Database}
use session_analysis_platfor.Postgres.Statements.{
  Reply, end_row, close_by_sid, close_by_identity, sid_matches, identity_matches, latest, has_id_of,
  is_latest,
}
use session_analysis_platfor.Postgres.Replies.{
  Yields, Yields-map, with_event, with_ended, close_where-Yields,
}
use session_analysis_platfor.Postgres.Record.{World, close, record_event}
use session_analysis_platfor.Postgres.Record.Success.{record_event_success}
use session_analysis_platfor.Postgres.Record.Outcomes.{
  FallsBack, stored_result, close-Yields, apply_join_effect-Yields,
}
use session_analysis_platfor.Postgres.Keys.{Distinct}
use session_analysis_platfor.Postgres.Invariant.{WellFormed, join_key}
use session_analysis_platfor.Postgres.Latest.{
  IsLatest, latest-none, latest-IsLatest, update_if_none, count_if_none, any-of_count,
  any-of_no_count, id_count,
}
use session_analysis_platfor.Postgres.Closing.{types_differ}

module _ (w : World) (ev : Event) where
  -- the rows with those of a test ended
  abbrev pub ended : (JoinRow → Bool) → List JoinRow → List JoinRow
  ended p rs = update_if p (end_row w.now end_participant_left ev) rs

  -- the event has no SID, or no open join of its room has that
  abbrev pub HasNoSid : List JoinRow → Type 0
  HasNoSid rs = (is_empty ev.participant_sid ≡ true) ⊎ (any (sid_matches ev) rs ≡ false)

  -- What a departure makes of the joins, and what it reports: it ends the open joins with its SID; where
  -- there are none, the latest open join of its identity; where there is none either, nothing.
  pub data Departs (rs : List JoinRow) : List JoinRow → ℕ → Bool → Type 0 where
    ends_by_sid :
        is_empty ev.participant_sid ≡ false
        → any (sid_matches ev) rs ≡ true
        → Departs rs (ended (sid_matches ev) rs) (count_if (sid_matches ev) rs) false
    ends_latest :
        (l : JoinRow)
        → HasNoSid rs
        → IsLatest (identity_matches ev) rs l
        → Departs rs (ended (λ r. str_eq r.join_id l.join_id) rs) 1 false
    ends_none : HasNoSid rs → any (identity_matches ev) rs ≡ false → Departs rs rs 0 true

  Departs-cast :
      (rs : List JoinRow) (xs ys : List JoinRow) (n m : ℕ) (b c : Bool)
      → xs ≡ ys
      → n ≡ m
      → b ≡ c
      → Departs rs xs n b
      → Departs rs ys m c
  Departs-cast rs xs ys n m b c p q e h =
      subst (λ zs. Departs rs zs m c) p
        (subst (λ k. Departs rs xs k c) q (subst (λ z. Departs rs xs n z) e h))

  none_is_latest : (rs : List JoinRow) → any (has_id_of none) rs ≡ false
  unfolding has_id_of
  none_is_latest [] = refl
  none_is_latest (r ∷ rs) = none_is_latest rs

  -- the second statement, by the row that its subquery gives
  picked-Departs :
      (rs : List JoinRow) (o : Option JoinRow)
      → latest (identity_matches ev) rs ≡ o
      → Distinct str_eq (map join_key rs)
      → HasNoSid rs
      → Departs rs
          (ended (has_id_of o) rs)
          (count_if (has_id_of o) rs)
          (count_if (has_id_of o) rs == 0)
  unfolding has_id_of
  picked-Departs rs none e d n =
      let z = count_if_none (has_id_of none) rs (none_is_latest rs) in
      Departs-cast rs _ _ _ _ _ _
        (sym (
          update_if_none (has_id_of none) (end_row w.now end_participant_left ev) rs
            (none_is_latest rs)))
        (sym z) (ap (λ k. k == 0) (sym z)) (ends_none n (latest-none (identity_matches ev) rs e))
  picked-Departs rs (some l) e d n =
      let last = latest-IsLatest (identity_matches ev) rs l e in
      let one = id_count rs l d last.listed in
      Departs-cast rs _ _ _ _ _ _ refl (sym one) (ap (λ k. k == 0) (sym one)) (ends_latest l n last)

  -- a snapshot behind `close`
  abbrev Closes : List JoinRow → ℕ → Database → Type 0
  Closes rs n tx = Departs rs tx.joins n (n == 0)

  identity-Departs :
      (tx : Database)
      → Distinct str_eq (map join_key tx.joins)
      → HasNoSid tx.joins
      → Yields (Closes tx.joins) (close_by_identity w.now end_participant_left ev tx)
  unfolding close_by_identity is_latest
  identity-Departs tx d n =
      close_where-Yields w.now ev tx (Closes tx.joins) (is_latest ev tx) end_participant_left
        (λ _. picked-Departs tx.joins _ refl d n)

  unchanged-Departs :
      (tx tx' : Database)
      → tx'.joins ≡ tx.joins
      → Distinct str_eq (map join_key tx.joins)
      → any (sid_matches ev) tx.joins ≡ false
      → Yields (Closes tx.joins) (close_by_identity w.now end_participant_left ev tx')
  unchanged-Departs tx tx' e d n =
      subst (λ rs. Yields (Closes rs) (close_by_identity w.now end_participant_left ev tx')) e
        (identity-Departs tx' (subst (λ rs. Distinct str_eq (map join_key rs)) (sym e) d)
          (inr (subst (λ rs. any (sid_matches ev) rs ≡ false) (sym e) n)))

  falls_back :
      (Q : ℕ → Database → Type 0) (rest : Database → Reply ℕ) (n : ℕ) (tx : Database)
      → (n ≢ 0 → Q n tx)
      → (n ≡ 0 → Yields Q (rest tx))
      → FallsBack Q rest n tx
  falls_back Q rest zero tx h k = k refl
  falls_back Q rest (suc n) tx h k = h (λ e. omega (arith, e))

  nonzero : (n : ℕ) → n ≢ 0 → (n == 0) ≡ false
  nonzero n h = ground arith

  -- behind the first statement: its rows are ended, or it has changed nothing
  sid-Departs :
      (tx : Database)
      → Distinct str_eq (map join_key tx.joins)
      → is_empty ev.participant_sid ≡ false
      → Yields
          (FallsBack (Closes tx.joins) (close_by_identity w.now end_participant_left ev))
          (close_by_sid w.now end_participant_left ev tx)
  unfolding close_by_sid
  sid-Departs tx d s = close_where-Yields w.now ev tx _ (sid_matches ev) end_participant_left (λ _.
      falls_back (Closes tx.joins) _ (count_if (sid_matches ev) tx.joins) _
        (λ some_.
          Departs-cast tx.joins _ _ _ _ _ _ refl refl (sym (nonzero _ some_))
            (ends_by_sid s (any-of_count (sid_matches ev) tx.joins some_)))
        (λ z.
          let n = any-of_no_count (sid_matches ev) tx.joins z in
          unchanged-Departs tx (with_ended (sid_matches ev) w.now end_participant_left ev tx)
            (update_if_none (sid_matches ev) (end_row w.now end_participant_left ev) tx.joins n) d
            n))

  close-Departs :
      (tx : Database)
      → Distinct str_eq (map join_key tx.joins)
      → Yields (Closes tx.joins) (close w ev end_participant_left tx)
  close-Departs tx d =
      close-Yields w ev tx (Closes tx.joins) end_participant_left (λ s. sid-Departs tx d s)
        (λ a. identity-Departs tx d (inl a))

-- a call that has stored a departure
abbrev StoresDeparture : World → Event → Database → Result → Database → Type 0
StoresDeparture w ev db res db' =
    res.stored ≡ true → Departs w ev db.joins db'.joins res.joins_closed res.close_unmatched

-- Over well-formed tables, when a departure is stored without error, the joins that it ends and the counts that it reports are
-- these: the open joins of its room with its SID, where there are any; else the one open join of its
-- identity in that room after which no other of these starts, whatever the SID; else none, and
-- `CloseUnmatched` is reported.
pub record_event_departure :
    (w : World) (ev : Event) (db db' : Database) (res : Result)
    → WellFormed db
    → ev.type ≡ event_participant_left
    → record_event w ev db ≡ (db', res, none)
    → res.stored ≡ true
    → Departs w ev db.joins db'.joins res.joins_closed res.close_unmatched
record_event_departure w ev db db' res v t h =
    record_event_success (StoresDeparture w ev db) w ev db (λ _ s. cc s)
      (λ _ _.
        apply_join_effect-Yields _ stored_result w ev (with_event w.now ev db)
          (λ j. absurd (types_differ.2 (sym t ∙ j)))
          (λ _.
            Yields-map {P = Closes w ev db.joins}
              {Q = λ n tx.
                StoresDeparture w ev db
                  (record stored_result { joins_closed = n; close_unmatched = n == 0 }) tx}
              (close w ev end_participant_left (with_event w.now ev db)) (λ n tx k _. k)
              (close-Departs w ev (with_event w.now ev db) v.join_ids))
          (λ f. absurd (types_differ.1 (sym f ∙ t)))
          (λ _ l _. cc (str_eq_refl event_participant_left, l, t)))
      db' res h
