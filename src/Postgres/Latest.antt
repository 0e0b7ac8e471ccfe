-- ===== src/Postgres/Latest.antt =====
-- The row that the subquery of `closeByIdentity` picks.
use mathlib.Core.List.{map}
use mathlib.Core.Path.{subst}
use session_analysis_platfor.Prelude.{
  ◌≡◌, ◌≢◌, refl, ap, inl, inr, Bool-cases, Bool, true, false, ◌&&◌, List, [], ◌∷◌, Option, none,
  some, Bytes, arith, any, count_if, update_if, str_eq, str_eq_refl, eq_of_str_eq,
}
use session_analysis_platfor.Time.{before, before_irrefl, before_asym, not_before_trans}
use session_analysis_platfor.Postgres.Tables.{JoinRow}
use session_analysis_platfor.Postgres.Statements.{later, latest}
use session_analysis_platfor.Postgres.Keys.{Distinct}
use session_analysis_platfor.Postgres.Invariant.{join_key}
use session_analysis_platfor.Postgres.OpenRows.{In, In-any, latest-In, latest_passes}

-- Among the rows that pass a test, `l` is one that no other starts after.
pub record IsLatest (p : JoinRow → Bool) (rs : List JoinRow) (l : JoinRow) : Type 0 where
  pub passes : p l ≡ true
  pub listed : In l rs
  pub last : any (λ r. p r && before l.started_at r.started_at) rs ≡ false

pub latest-none : (p : JoinRow → Bool) (rs : List JoinRow) → latest p rs ≡ none → any p rs ≡ false
unfolding latest
latest-none p [] h = refl
latest-none p (r ∷ rs) h = ground (arith, latest-none p rs)

pub none_passing :
    (p q : JoinRow → Bool) (rs : List JoinRow) → any p rs ≡ false → any (λ r. p r && q r) rs ≡ false
none_passing p q [] h = refl
none_passing p q (r ∷ rs) h = ground (arith, none_passing p q rs)

none_later :
    (p : JoinRow → Bool) (rs : List JoinRow) (a b : JoinRow)
    → before a.started_at b.started_at ≡ false
    → any (λ r. p r && before b.started_at r.started_at) rs ≡ false
    → any (λ r. p r && before a.started_at r.started_at) rs ≡ false
none_later p [] a b h k = refl
none_later p (r ∷ rs) a b h k =
    ground (arith, not_before_trans a.started_at b.started_at r.started_at h, none_later p rs a b h)

-- `r` put before the rest, whose latest row is `o`
later_last :
    (p : JoinRow → Bool) (rs : List JoinRow) (r : JoinRow) (o : Option JoinRow)
    → latest p rs ≡ o
    → ((s : JoinRow) → o ≡ some s → any (λ x. p x && before s.started_at x.started_at) rs ≡ false)
    → (before (later r o).started_at r.started_at ≡ false)
      × (any (λ x. p x && before (later r o).started_at x.started_at) rs ≡ false)
unfolding later
later_last p rs r none h k = (
  before_irrefl r.started_at,
  none_passing p (λ x. before r.started_at x.started_at) rs (latest-none p rs h),
)
later_last p rs r (some s) h k = elim (Bool-cases (before r.started_at s.started_at)) [
  | inl b ↦ rw b (before_asym r.started_at s.started_at b, k s refl)
  | inr b ↦ rw b (before_irrefl r.started_at, none_later p rs r s b (k s refl))
]

latest_last :
    (p : JoinRow → Bool) (rs : List JoinRow) (l : JoinRow)
    → latest p rs ≡ some l
    → any (λ r. p r && before l.started_at r.started_at) rs ≡ false
unfolding latest
latest_last p [] l h = cc
latest_last p (r ∷ rs) l h = elim (Bool-cases (p r)) [
  | inr n ↦ ground (arith, latest_last p rs l)
  | inl y ↦
      let (a, b) = later_last p rs r (latest p rs) refl (λ s. latest_last p rs s) in
      let picked : latest p (r ∷ rs) ≡ some (later r (latest p rs)) = rw y refl in
      let same : later r (latest p rs) ≡ l = cc (picked, h) in
      subst (λ m. any (λ x. p x && before m.started_at x.started_at) (r ∷ rs) ≡ false) same
        (rw (y, a, b) refl)
]

pub latest-IsLatest :
    (p : JoinRow → Bool) (rs : List JoinRow) (l : JoinRow) → latest p rs ≡ some l → IsLatest p rs l
latest-IsLatest p rs l h = record {
  passes = latest_passes p rs l h;
  listed = latest-In p rs l h;
  last = latest_last p rs l h;
}

-- a test that no row passes
pub update_if_none :
    (p : JoinRow → Bool) (f : JoinRow → JoinRow) (rs : List JoinRow)
    → any p rs ≡ false
    → update_if p f rs ≡ rs
update_if_none p f [] h = refl
update_if_none p f (r ∷ rs) h = ground (arith, update_if_none p f rs)

pub count_if_none : (p : JoinRow → Bool) (rs : List JoinRow) → any p rs ≡ false → count_if p rs ≡ 0
count_if_none p [] h = refl
count_if_none p (r ∷ rs) h = ground (arith, count_if_none p rs)

pub any-of_count : (p : JoinRow → Bool) (rs : List JoinRow) → count_if p rs ≢ 0 → any p rs ≡ true
any-of_count p [] h = absurd (h refl)
any-of_count p (r ∷ rs) h = ground (arith, any-of_count p rs)

pub any-of_no_count :
    (p : JoinRow → Bool) (rs : List JoinRow) → count_if p rs ≡ 0 → any p rs ≡ false
any-of_no_count p [] h = refl
any-of_no_count p (r ∷ rs) h = ground (arith, any-of_no_count p rs)

absent_count :
    (k : Bytes) (rs : List JoinRow)
    → any (str_eq k) (map join_key rs) ≡ false
    → count_if (λ r. str_eq r.join_id k) rs ≡ 0
absent_count k [] n = refl
absent_count k (r ∷ rs) n =
    ground (arith, eq_of_str_eq r.join_id k, str_eq_refl k, absent_count k rs)

-- with unique ids, one row has a listed row's id
pub id_count :
    (rs : List JoinRow) (l : JoinRow)
    → Distinct str_eq (map join_key rs)
    → In l rs
    → count_if (λ r. str_eq r.join_id l.join_id) rs ≡ 1
id_count [] l d i = elim i [ ]
id_count (r ∷ rs) l (n, d) (inl e) = ground (
  arith,
  ap join_key e,
  str_eq_refl l.join_id,
  absent_count l.join_id rs (rw (ap join_key e) at n),
)
id_count (r ∷ rs) l (n, d) (inr i) = ground (arith, In-any r.join_id rs l i, id_count rs l d i)
