-- ===== src/Postgres/Replies.antt =====
-- What each statement leaves behind, as rules: its branches are the premises.
use session_analysis_platfor.Prelude.{
  ℕ, ◌≡◌, Bool-cases, inl, inr, Bool, true, false, ◌&&◌, [], ◌∷◌, ◌++◌, Option, Bytes, any,
  count_if, update_if, str_eq,
}
use session_analysis_platfor.Session.{Event}
use session_analysis_platfor.Time.{Time, before}
use session_analysis_platfor.Postgres.Tables.{JoinRow, Database, covered}
use session_analysis_platfor.Postgres.Statements.{
  Reply, refused, done, event_row, same_key, insert_event, join_row, open_join, end_row,
  close_where,
}

-- a reply's value and snapshot satisfy `Q`
abbrev pub Yields {ℓ κ} : {A : Type ℓ} → (A → Database → Type κ) → Reply A → Type κ
Yields Q (refused e) = Unit
Yields Q (done n tx) = Q n tx

-- the snapshot alone
abbrev pub Leaves {ℓ κ} : {A : Type ℓ} → (Database → Type κ) → Reply A → Type κ
Leaves Q (refused e) = Unit
Leaves Q (done n tx) = Q tx

pub Leaves-zip {ℓ κ} :
    {A : Type ℓ} {P Q : Database → Type κ} {R : Database → Type κ} (r : Reply A)
    → ((tx : Database) → P tx → Q tx → R tx)
    → Leaves P r
    → Leaves Q r
    → Leaves R r
Leaves-zip (refused e) f p q = tt
Leaves-zip (done n tx) f p q = f tx p q

abbrev pub with_event : Time → Event → Database → Database
with_event now ev db = record db { events = db.events ++ event_row now ev ∷ [] }

abbrev pub with_join : Time → Bytes → Event → Database → Database
with_join now join_id ev db = record db { joins = db.joins ++ join_row now join_id ev ∷ [] }

abbrev pub with_ended : (JoinRow → Bool) → Time → Bytes → Event → Database → Database
with_ended p now reason ev db = record db { joins = update_if p (end_row now reason ev) db.joins }

module _ {κ} (now : Time) (ev : Event) (db : Database) where
  pub insert_event-Yields :
      (Q : Option Bytes → Database → Type κ)
      → (covered db.partitions ev.occurred_at ≡ true
          → any (same_key ev) db.events ≡ true
          → Q Option.none db)
      → (covered db.partitions ev.occurred_at ≡ true
          → any (same_key ev) db.events ≡ false
          → Q (Option.some ev.id) (with_event now ev db))
      → Yields Q (insert_event now ev db)
  unfolding insert_event
  insert_event-Yields Q old new = elim (Bool-cases (covered db.partitions ev.occurred_at)) [
    | inr c ↦ rw c tt
    | inl c ↦ elim (Bool-cases (any (same_key ev) db.events)) [
      | inl o ↦ rw (c, o) (old c o)
      | inr n ↦ rw (c, n) (new c n)
    ]
  ]

  pub open_join-Yields :
      (Q : ℕ → Database → Type κ) (join_id : Bytes)
      → (any (λ r. str_eq r.started_event_id ev.id) db.joins ≡ true → Q 0 db)
      → (any (λ r. str_eq r.started_event_id ev.id) db.joins ≡ false
          → any (λ r. str_eq r.join_id join_id) db.joins ≡ false
          → Q 1 (with_join now join_id ev db))
      → Yields Q (open_join now join_id ev db)
  unfolding open_join
  open_join-Yields Q join_id old new =
      elim (Bool-cases (any (λ r. str_eq r.started_event_id ev.id) db.joins)) [
        | inl o ↦ rw o (old o)
        | inr n ↦ elim (Bool-cases (any (λ r. str_eq r.join_id join_id) db.joins)) [
          | inl taken ↦ rw (n, taken) tt
          | inr fresh ↦ rw (n, fresh) (new n fresh)
        ]
      ]

  pub close_where-Yields :
      (Q : ℕ → Database → Type κ) (p : JoinRow → Bool) (reason : Bytes)
      → (any (λ r. p r && before ev.occurred_at r.started_at) db.joins ≡ false
          → Q (count_if p db.joins) (with_ended p now reason ev db))
      → Yields Q (close_where p now reason ev db)
  unfolding close_where
  close_where-Yields Q p reason good =
      elim (Bool-cases (any (λ r. p r && before ev.occurred_at r.started_at) db.joins)) [
        | inl bad ↦ rw bad tt
        | inr fine ↦ rw fine (good fine)
      ]

pub Leaves-of {ℓ κ} :
    {A : Type ℓ} (Q : Database → Type κ) (r : Reply A) → Yields (λ _. Q) r → Leaves Q r
Leaves-of Q (refused e) h = tt
Leaves-of Q (done n tx) h = h

pub Yields-map {ℓ κ μ} :
    {A : Type ℓ} {P : A → Database → Type κ} {Q : A → Database → Type μ} (r : Reply A)
    → ((n : A) (tx : Database) → P n tx → Q n tx)
    → Yields P r
    → Yields Q r
Yields-map (refused e) f p = tt
Yields-map (done n tx) f p = f n tx p

pub Yields-zip {ℓ κ μ} :
    {A : Type ℓ} {P Q : A → Database → Type κ} {W : Database → Type μ} (r : Reply A)
    → ((n : A) (tx : Database) → P n tx → W tx → Q n tx)
    → Yields P r
    → Leaves W r
    → Yields Q r
Yields-zip (refused e) f p h = tt
Yields-zip (done n tx) f p h = f n tx p h
