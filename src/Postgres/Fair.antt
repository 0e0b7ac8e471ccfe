-- ===== src/Postgres/Fair.antt =====
-- The outcome of a call whose commit is answered, as its caller sees it.
use session_analysis_platfor.Prelude.{◌≡◌, refl, true, false, none, some, Bytes}
use session_analysis_platfor.Session.{Event}
use session_analysis_platfor.Store.{Result, no_result}
use session_analysis_platfor.Postgres.Tables.{Database}
use session_analysis_platfor.Postgres.Statements.{Reply}
use session_analysis_platfor.Postgres.Replies.{Yields}
use session_analysis_platfor.Postgres.Record.{
  World, Commit, commit, Effect, effect, effect_error, after_effect, record_event,
}
use session_analysis_platfor.Postgres.Record.Outcomes.{
  Outcome, EffectYields, stored_result, apply_join_effect-Yields, record_event_outcome,
}
use session_analysis_platfor.Postgres.Invariant.{WellFormed}
use session_analysis_platfor.Postgres.Atomic.{IsDefinite, KeptOnError, record_event-KeptOnError}
use session_analysis_platfor.Postgres.Counts.{
  Balanced, BalancedOnSuccess, record_event-BalancedOnSuccess,
}

-- a delivery that is not reported as stored reports nothing at all
abbrev SilentUnlessStored : Outcome → Type 0
SilentUnlessStored (db', res, e) = res.stored ≡ false → res ≡ no_result

commit-SilentUnlessStored :
    (c : Commit) (step : Bytes) (res : Result) (db tx : Database)
    → (res.stored ≡ false → res ≡ no_result)
    → SilentUnlessStored (commit c step res db tx)
unfolding commit
commit-SilentUnlessStored Commit.commits step res db tx h = h
commit-SilentUnlessStored (Commit.aborts e) step res db tx h = h
commit-SilentUnlessStored (Commit.answer_lost e) step res db tx h = h

after_effect-SilentUnlessStored :
    (w : World) (db : Database) (e : Effect)
    → EffectYields (λ _. Unit {0}) (λ res tx. res.stored ≡ true) e
    → SilentUnlessStored (after_effect w db e)
unfolding after_effect
after_effect-SilentUnlessStored w db (effect_error e) h = λ s. cc s
after_effect-SilentUnlessStored w db (effect res tx) h =
    commit-SilentUnlessStored w.commit _ res db tx (λ s. cc (h, s))

all_yield :
    {A : Type 0} (Q : A → Database → Type 0) (r : Reply A)
    → ((n : A) (tx : Database) → Q n tx)
    → Yields Q r
all_yield Q (Reply.refused e) f = tt
all_yield Q (Reply.done n tx) f = f n tx

record_event-SilentUnlessStored :
    (w : World) (ev : Event) (db : Database) → SilentUnlessStored (record_event w ev db)
record_event-SilentUnlessStored w ev db =
    record_event_outcome SilentUnlessStored w ev db (λ err _ _. refl)
      (λ _. commit-SilentUnlessStored w.commit _ no_result db db (λ _. refl))
      (λ _ _. after_effect-SilentUnlessStored w db _ (
        apply_join_effect-Yields (λ res tx. res.stored ≡ true) stored_result w ev _
          (λ _. all_yield _ _ (λ n tx. refl)) (λ _. all_yield _ _ (λ n tx. refl))
          (λ _. all_yield _ _ (λ n tx. refl)) (λ _ _ _. refl)))

abbrev pub IsFair : Database → Outcome → Type 0
IsFair db (db', res, none) = Balanced db res db' × (res.stored ≡ false → res ≡ no_result)
IsFair db (db', res, some e) = db' ≡ db

IsFair-of :
    (db : Database) (o : Outcome)
    → KeptOnError db o
    → BalancedOnSuccess db o
    → SilentUnlessStored o
    → IsFair db o
IsFair-of db (db', res, none) k b s = (b, s)
IsFair-of db (db', res, some e) k b s = k

pub record_event-IsFair :
    (w : World) (ev : Event) (db : Database)
    → IsDefinite w.commit
    → WellFormed db
    → IsFair db (record_event w ev db)
record_event-IsFair w ev db d v =
    IsFair-of db (record_event w ev db) (record_event-KeptOnError w ev db d)
      (record_event-BalancedOnSuccess w ev db v) (record_event-SilentUnlessStored w ev db)
