-- ===== src/Postgres/Record/Concurrent/Holding.antt =====
-- A call of `RecordEvent` behind its INSERT, beside other calls: what it waits to do stays possible.
use mathlib.Core.Path.{subst}
use session_analysis_platfor.Prelude.{
  ◌≡◌, refl, ◌∙◌, true, false, Bool-cases, Option-cases, inl, inr, List, [], ◌∷◌, none, Bytes, All,
  any, arith,
}
use session_analysis_platfor.Session.{Event}
use session_analysis_platfor.Store.{Result}
use session_analysis_platfor.Store.Contract.{same_event, same_event-false_sym}
use session_analysis_platfor.Postgres.Tables.{JoinRow, Database, covered}
use session_analysis_platfor.Postgres.Statements.{same_key, insert_event}
use session_analysis_platfor.Postgres.Replies.{with_event}
use session_analysis_platfor.Postgres.Record.{Commit, commit, exec, record_event}
use session_analysis_platfor.Postgres.Events.{in_event_raw-with_event}
use session_analysis_platfor.Postgres.Record.Concurrent.Interleaved.{
  Said, finish_said, finish_said_leaves,
}
use session_analysis_platfor.Postgres.Record.Concurrent.{
  Call, Started, answered, holding, start_call, finish_call, Taken, first, later, holds_key,
}

-- a call that can go on behind its INSERT
pub record IsHolding (c : Call) (db : Database) : Type 0 where
  pub begin : c.world.begin_fails ≡ none
  pub insert : c.world.insert_fails ≡ none
  pub has_partition : covered db.partitions c.event.occurred_at ≡ true
  pub fresh : any (same_key c.event) db.events ≡ false

-- what the first part of a call says about the whole call
unfoldable pub Foretells : Call → Database → Started → Type 0
Foretells c db (answered o) = (record_event c.world c.event db ≡ o) × (o.0 ≡ db)
Foretells c db holding = (record_event c.world c.event db ≡ finish_call c db) × IsHolding c db

commit_kept :
    (c : Commit) (step : Bytes) (res : Result) (db : Database) → (commit c step res db db).0 ≡ db
unfolding commit
commit_kept Commit.commits step res db = refl
commit_kept (Commit.aborts e) step res db = refl
commit_kept (Commit.answer_lost e) step res db = refl

pub start_call-Foretells : (c : Call) (db : Database) → Foretells c db (start_call c db)
unfolding Foretells start_call record_event finish_call exec insert_event
start_call-Foretells c db = elim (Option-cases c.world.begin_fails) [
  | inr (x, b) ↦ simp b (refl, refl)
  | inl b ↦ elim (Option-cases c.world.insert_fails) [
    | inr (x, i) ↦ simp (b, i) (refl, refl)
    | inl i ↦ elim (Bool-cases (covered db.partitions c.event.occurred_at)) [
      | inr out ↦ simp (b, i, out) (refl, refl)
      | inl k ↦ elim (Bool-cases (any (same_key c.event) db.events)) [
        | inl old ↦ simp (b, i, k, old) (refl, commit_kept c.world.commit _ _ db)
        | inr new ↦
            simp (b, i, k, new)
              (refl, record { begin = b; insert = i; has_partition = k; fresh = new })
      ]
    ]
  ]
]

pub start_call-holding : (c : Call) (db : Database) → IsHolding c db → start_call c db ≡ holding
unfolding start_call exec insert_event
start_call-holding c db h = simp (h.begin, h.insert, h.has_partition, h.fresh) refl

-- the row of another event does not take a call's key
module _ (c : Call) where
  CanInsert : Database → Type 0
  CanInsert tx =
      (covered tx.partitions c.event.occurred_at ≡ true)
      × (any (same_key c.event) tx.events ≡ false)

  with_event-CanInsert :
      (d : Call) (db : Database)
      → same_event d.event c.event ≡ false
      → CanInsert db
      → CanInsert (with_event d.world.now d.event db)
  unfolding CanInsert
  with_event-CanInsert d db other (k, n) =
      (k, in_event_raw-with_event d.world.now d.event c.event db ∙ rw (other, n) refl)

  finish_said-CanInsert :
      (d : Call) (said fallback : Said) (db : Database)
      → same_event d.event c.event ≡ false
      → CanInsert db
      → CanInsert (finish_said d said fallback db).0
  unfolding CanInsert
  finish_said-CanInsert d said fallback db other h =
      finish_said_leaves CanInsert d said fallback db (λ _ _ k. k) h
        (with_event-CanInsert d db other h)

-- no two calls hold one key
unfoldable pub Apart : List Call → Type 0
Apart [] = Unit
Apart (c ∷ cs) = All (λ d. same_event c.event d.event ≡ false) cs × Apart cs

module _ {ℓ} (P : Call → Type ℓ) where
  pub All-Taken : {c : Call} {cs ds : List Call} → Taken c cs ds → All P cs → P c × All P ds
  All-Taken first (h, hs) = (h, hs)
  All-Taken (later t) (h, hs) = let (k, ks) = All-Taken t hs in (k, (h, ks))

pub Apart-Taken :
    {c : Call} {cs ds : List Call}
    → Taken c cs ds
    → Apart cs
    → All (λ d. same_event c.event d.event ≡ false) ds × Apart ds
unfolding Apart
Apart-Taken first (h, a) = (h, a)
Apart-Taken {c} (later {d} t) (h, a) =
    let (k, ks) = All-Taken (λ x. same_event d.event x.event ≡ false) t h in
    let (other, b) = Apart-Taken t a in ((same_event-false_sym d.event c.event k, other), (ks, b))

pub no_holder :
    (ev : Event) (cs : List Call)
    → any (holds_key ev) cs ≡ false
    → All (λ d. same_event ev d.event ≡ false) cs
no_holder ev [] h = tt
no_holder ev (c ∷ cs) h = ground (arith, no_holder ev cs)

pub finish_said-IsHolding :
    (c : Call) (said fallback : Said) (ds : List Call) (db : Database)
    → All (λ d. same_event c.event d.event ≡ false) ds
    → All (λ d. IsHolding d db) ds
    → All (λ d. IsHolding d (finish_said c said fallback db).0) ds
unfolding CanInsert
finish_said-IsHolding c said fallback [] db others hs = tt
finish_said-IsHolding c said fallback (d ∷ ds) db (other, others) (h, hs) =
    let (k, n) = finish_said-CanInsert d c said fallback db other (h.has_partition, h.fresh) in
    (
      record { begin = h.begin; insert = h.insert; has_partition = k; fresh = n },
      finish_said-IsHolding c said fallback ds db others hs,
    )

pub joins-IsHolding :
    (ds : List Call) (db : Database) (joins : List JoinRow)
    → All (λ d. IsHolding d db) ds
    → All (λ d. IsHolding d (record db { joins = joins })) ds
joins-IsHolding [] db joins hs = tt
joins-IsHolding (d ∷ ds) db joins (h, hs) = (
  record { begin = h.begin; insert = h.insert; has_partition = h.has_partition; fresh = h.fresh },
  joins-IsHolding ds db joins hs,
)

pub holding_is_whole :
    (c : Call) (db : Database) → IsHolding c db → record_event c.world c.event db ≡ finish_call c db
unfolding Foretells
holding_is_whole c db h =
    (subst (Foretells c db) (start_call-holding c db h) (start_call-Foretells c db)).0
