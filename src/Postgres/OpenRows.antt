-- ===== src/Postgres/OpenRows.antt =====
-- The tests that `RecordEvent` ends joins by pass open rows only; for the one by id this rests on
-- the ids being unique.
use mathlib.Core.List.{map}
use mathlib.Core.Path.{subst}
use session_analysis_platfor.Prelude.{
  ◌≡◌, refl, ap, sym, ◌⊎◌, inl, inr, Bool, true, false, List, [], ◌∷◌, Option, none, some, Bytes,
  arith, All, any, str_eq, str_eq_refl, eq_of_str_eq,
}
use session_analysis_platfor.Session.{Event}
use session_analysis_platfor.Postgres.Tables.{JoinRow, Database}
use session_analysis_platfor.Postgres.Statements.{
  row_is_open, sid_matches, identity_matches, room_matches, latest, has_id_of, is_latest,
}
use session_analysis_platfor.Postgres.Record.Cases.{Target, by_sid, by_identity, by_room}
use session_analysis_platfor.Postgres.Keys.{Distinct}
use session_analysis_platfor.Postgres.Invariant.{WellFormed, join_key}

-- a test passes, among the rows of a list, those only of which `P` holds
abbrev pub Passes {κ} : (JoinRow → Type κ) → (JoinRow → Bool) → List JoinRow → Type κ
Passes P p = All (λ r. p r ≡ true → P r)

abbrev pub PassesOpen : (JoinRow → Bool) → List JoinRow → Type 0
PassesOpen = Passes (λ r. row_is_open r ≡ true)

pub Passes-of {κ} :
    (P : JoinRow → Type κ) (p : JoinRow → Bool)
    → ((r : JoinRow) → p r ≡ true → P r)
    → (rs : List JoinRow) → Passes P p rs
Passes-of P p h [] = tt
Passes-of P p h (r ∷ rs) = (h r, Passes-of P p h rs)

abbrev pub In : JoinRow → List JoinRow → Type 0
In r [] = ⊥
In r (x ∷ xs) = (x ≡ r) ⊎ In r xs

-- the row that `latest` picks is in the list and passes the test
pub latest-In :
    (p : JoinRow → Bool) (rs : List JoinRow) (l : JoinRow) → latest p rs ≡ some l → In l rs
unfolding latest
latest-In p [] l h = cc
latest-In p (r ∷ rs) l h = ground (arith, latest-In p rs l)

pub latest_passes :
    (p : JoinRow → Bool) (rs : List JoinRow) (l : JoinRow) → latest p rs ≡ some l → p l ≡ true
unfolding latest
latest_passes p [] l h = cc
latest_passes p (r ∷ rs) l h = ground (arith, latest_passes p rs l)

-- no other row has a given id
absent-Passes {κ} :
    (P : JoinRow → Type κ) (k : Bytes) (rs : List JoinRow)
    → any (str_eq k) (map join_key rs) ≡ false
    → Passes P (λ r. str_eq r.join_id k) rs
absent-Passes P k [] n = tt
absent-Passes P k (r ∷ rs) n = (
  λ e. absurd (ground (arith, eq_of_str_eq r.join_id k e, str_eq_refl k)),
  absent-Passes P k rs (ground arith),
)

pub In-any :
    (k : Bytes) (rs : List JoinRow) (l : JoinRow)
    → In l rs
    → str_eq k l.join_id ≡ true
    → any (str_eq k) (map join_key rs) ≡ true
In-any k [] l i h = elim i [ ]
In-any k (r ∷ rs) l (inl e) h = ground (arith, ap join_key e)
In-any k (r ∷ rs) l (inr i) h = ground (arith, In-any k rs l i h)

-- With unique ids what holds of a row holds of the rows with its id.
id-Passes {κ} :
    (P : JoinRow → Type κ) (rs : List JoinRow) (l : JoinRow)
    → P l
    → Distinct str_eq (map join_key rs)
    → In l rs
    → Passes P (λ r. str_eq r.join_id l.join_id) rs
id-Passes P [] l o d i = elim i [ ]
id-Passes P (r ∷ rs) l o (n, d) (inl e) =
    (λ _. subst P (sym e) o, absent-Passes P l.join_id rs (rw (ap join_key e) at n))
id-Passes P (r ∷ rs) l o (n, d) (inr i) =
    (λ e. absurd (ground (arith, In-any r.join_id rs l i e)), id-Passes P rs l o d i)

has_id_of-Passes {κ} :
    (P : JoinRow → Type κ) (p : JoinRow → Bool) (rs : List JoinRow) (o : Option JoinRow)
    → ((r : JoinRow) → p r ≡ true → P r)
    → Distinct str_eq (map join_key rs)
    → latest p rs ≡ o
    → Passes P (has_id_of o) rs
unfolding has_id_of
has_id_of-Passes P p rs none k d e = Passes-of P _ (λ r h. absurd (cc h)) rs
has_id_of-Passes P p rs (some l) k d e =
    id-Passes P rs l (k l (latest_passes p rs l e)) d (latest-In p rs l e)

-- the row that the second statement of `close` ends is one of its identity
pub is_latest-Passes :
    (ev : Event) (tx : Database)
    → WellFormed tx
    → Passes (λ r. identity_matches ev r ≡ true) (is_latest ev tx) tx.joins
unfolding is_latest
is_latest-Passes ev tx v =
    has_id_of-Passes _ (identity_matches ev) tx.joins _ (λ r h. h) v.join_ids refl

-- Every test that `RecordEvent` ends joins by passes open rows only.
pub Target-PassesOpen :
    (ev : Event) (tx : Database) {p : JoinRow → Bool}
    → WellFormed tx
    → Target ev tx p
    → PassesOpen p tx.joins
unfolding is_latest sid_matches room_matches identity_matches
Target-PassesOpen ev tx v by_sid = Passes-of _ _ (λ r h. ground arith) tx.joins
Target-PassesOpen ev tx v by_room = Passes-of _ _ (λ r h. ground arith) tx.joins
Target-PassesOpen ev tx v by_identity =
    has_id_of-Passes _ (identity_matches ev) tx.joins _ (λ r h. ground arith) v.join_ids refl
