-- ===== src/Time/Format/Civil.antt =====
-- Days of the years 1 to 9999, told by their dates.
use Prim.Native.Nat.{min}
use mathlib.Core.Path.{subst}
use session_analysis_platfor.Prelude.{
  ℕ, ◌+◌, ◌-◌, ◌*◌, ◌/◌, ◌%◌, ◌≤◌, ◌<◌, ◌≡◌, refl, ap, sym, ◌∙◌, true, false, List, [], ◌∷◌, ◌++◌,
  length, length-append, arith, All, Bool,
}
use session_analysis_platfor.Prelude.Int.{pos}
use session_analysis_platfor.Time.Format.{
  padded, year_digits, format_year, era_cycles, is_leap, month_lengths, month_day, year_day,
  civil_year, spell_date, format_date, length-padded, append_split,
}
use session_analysis_platfor.Time.Format.Digits.{padded_injective}

month_day-le : (m : ℕ) (ls : List ℕ) (d : ℕ) → m ≤ (month_day m ls d).0
unfolding month_day
month_day-le m [] d = omega arith
month_day-le m (l ∷ ls) d = ground (arith, month_day-le (m + 1) ls (d - l))

month_day_injective : (m : ℕ) (ls : List ℕ) (d e : ℕ) → month_day m ls d ≡ month_day m ls e → d ≡ e
unfolding month_day
month_day_injective m [] d e h = ground (arith, h)
month_day_injective m (l ∷ ls) d e h = ground (
  arith,
  h,
  month_day-le (m + 1) ls (d - l),
  month_day-le (m + 1) ls (e - l),
  month_day_injective (m + 1) ls (d - l) (e - l),
)

-- A day by its cycle of 400 years, the century, the cycle of 4 years and the year in these.
record InCycles (days : ℕ) : Type 0 where
  cycle : ℕ
  century : ℕ
  four : ℕ
  one : ℕ
  within : (century ≤ 3) × (four ≤ 24) × (one ≤ 3)
  year : (year_day days).0 ≡ cycle * 400 + century * 100 + four * 4 + one + 1
  day : days ≡ cycle * 146097 + century * 36524 + four * 1461 + one * 365 + (year_day days).1

year_day-InCycles : (days : ℕ) → InCycles days
unfolding year_day
year_day-InCycles days =
    let r400 : ℕ = days % 146097 in
    let n100 : ℕ = min (r400 / 36524) 3 in
    let r100 : ℕ = r400 - n100 * 36524 in
    let r4 : ℕ = r100 % 1461 in
    let n1 : ℕ = min (r4 / 365) 3 in
    record {
      cycle = days / 146097;
      century = n100;
      four = r100 / 1461;
      one = n1;
      within = omega arith;
      year = refl;
      day = omega arith;
    }

year_day_injective : (a b : ℕ) → year_day a ≡ year_day b → a ≡ b
year_day_injective a b e =
    let p = year_day-InCycles a in
    let q = year_day-InCycles b in
    let y : (year_day a).0 ≡ (year_day b).0 = ap (λ t. t.0) e in
    let d : (year_day a).1 ≡ (year_day b).1 = ap (λ t. t.1) e in
    omega (arith, p.within, q.within, p.year, q.year, p.day, q.day, y, d)

-- the days of the years 1 to 9999
abbrev pub IsCivilDay : ℕ → Type 0
IsCivilDay days = (era_cycles * 146097 ≤ days) × (days < era_cycles * 146097 + 3652059)

year_day_bounds :
    (days : ℕ)
    → IsCivilDay days
    → (era_cycles * 400 ≤ (year_day days).0)
      × ((year_day days).0 < era_cycles * 400 + 10000)
      × ((year_day days).1 ≤ 365)
unfolding year_day
year_day_bounds days h = omega arith

year_day-civil_year : (y : ℕ) → era_cycles * 400 ≤ y → civil_year y ≡ pos (y - era_cycles * 400)
unfolding civil_year
year_day-civil_year y h = ground arith

-- the days of the months together
sum : List ℕ → ℕ
sum [] = 0
sum (l ∷ ls) = l + sum ls

sum-month_lengths : (leap : Bool) → 365 ≤ sum (month_lengths leap)
unfolding sum month_lengths
sum-month_lengths true = omega arith
sum-month_lengths false = omega arith

month_lengths_bounds : (leap : Bool) → All (λ l. l ≤ 31) (month_lengths leap)
unfolding month_lengths
month_lengths_bounds true = omega arith
month_lengths_bounds false = omega arith

month_day_bounds :
    (m : ℕ) (ls : List ℕ) (d : ℕ)
    → All (λ l. l ≤ 31) ls
    → d < sum ls + 31
    → ((month_day m ls d).0 ≤ m + length ls) × ((month_day m ls d).1 ≤ 31)
unfolding month_day sum
month_day_bounds m [] d h k = omega arith
month_day_bounds m (l ∷ ls) d (h, hs) k = ground (arith, month_day_bounds (m + 1) ls (d - l) hs)

spell_date_digits :
    (k : ℕ) (md : ℕ × ℕ)
    → k < 10000
    → spell_date (pos k) md ≡ padded 4 k ++ (b'-' ∷ (padded 2 md.0 ++ (b'-' ∷ padded 2 md.1)))
unfolding spell_date format_year year_digits
spell_date_digits k (m, d) h = ground arith

spell_date_injective :
    (k j m n d e : ℕ)
    → k < 10000
    → j < 10000
    → m < 100
    → n < 100
    → d < 100
    → e < 100
    → spell_date (pos k) (m, d) ≡ spell_date (pos j) (n, e)
    → (k ≡ j) × (m ≡ n) × (d ≡ e)
spell_date_injective k j m n d e hk hj hm hn hd he q =
    let q' = sym (spell_date_digits k (m, d) hk) ∙ q ∙ spell_date_digits j (n, e) hj in
    let (y, q1) =
      append_split (padded 4 k) (padded 4 j) _ _ (length-padded 4 k ∙ sym (length-padded 4 j)) q' in
    let (mm, q2) =
      append_split (padded 2 m) (padded 2 n) (b'-' ∷ padded 2 d) (b'-' ∷ padded 2 e)
        (length-padded 2 m ∙ sym (length-padded 2 n)) (cc q1) in
    (
      padded_injective 4 k j (omega arith) (omega arith) y,
      padded_injective 2 m n (omega arith) (omega arith) mm,
      padded_injective 2 d e (omega arith) (omega arith) (cc q2),
    )

format_date_lem :
    (days : ℕ)
    → IsCivilDay days
    → format_date days
      ≡ spell_date
          (pos ((year_day days).0 - era_cycles * 400))
          (month_day 1 (month_lengths (is_leap (year_day days).0)) (year_day days).1)
unfolding format_date
format_date_lem days h = rw (year_day-civil_year (year_day days).0 (year_day_bounds days h).0) refl

length-month_lengths : (leap : Bool) → length (month_lengths leap) ≡ 12
unfolding month_lengths
length-month_lengths leap = refl

date_bounds :
    (days : ℕ)
    → IsCivilDay days
    → let md = month_day 1 (month_lengths (is_leap (year_day days).0)) (year_day days).1 in
      (md.0 < 100) × (md.1 < 100)
date_bounds days h =
    let leap = is_leap (year_day days).0 in
    omega (
      arith,
      month_day_bounds 1 (month_lengths leap) (year_day days).1 (month_lengths_bounds leap)
          (omega (arith, sum-month_lengths leap, year_day_bounds days h)),
      length-month_lengths leap,
    )

pub format_date_injective :
    (a b : ℕ) → IsCivilDay a → IsCivilDay b → format_date a ≡ format_date b → a ≡ b
format_date_injective a b ha hb e =
    let (ya, ua, da) = year_day_bounds a ha in
    let (yb, ub, db) = year_day_bounds b hb in
    let (y, m, d) =
      spell_date_injective _ _ _ _ _ _ (omega (arith, ya, ua)) (omega (arith, yb, ub))
        (date_bounds a ha).0 (date_bounds b hb).0 (date_bounds a ha).1 (date_bounds b hb).1
        (sym (format_date_lem a ha) ∙ e ∙ format_date_lem b hb) in
    let y' : (year_day a).0 ≡ (year_day b).0 = omega (arith, y, ya, yb) in
    let months : ℕ → List ℕ = λ k. month_lengths (is_leap k) in
    let same : month_day 1 (months (year_day b).0) (year_day a).1
        ≡ month_day 1 (months (year_day b).0) (year_day b).1 =
      subst
        (λ k.
          month_day 1 (months k) (year_day a).1
          ≡ month_day 1 (months (year_day b).0) (year_day b).1)
        y' (λ i. (m i, d i)) in
    let d' = month_day_injective 1 (months (year_day b).0) (year_day a).1 (year_day b).1 same in
    year_day_injective a b (λ i. (y' i, d' i))

pub length-format_date : (days : ℕ) → IsCivilDay days → length (format_date days) ≡ 10
length-format_date days h =
    let (y, u, d) = year_day_bounds days h in
    rw
      (
        format_date_lem days h,
        spell_date_digits ((year_day days).0 - era_cycles * 400)
            (month_day 1 (month_lengths (is_leap (year_day days).0)) (year_day days).1)
            (omega (arith, y, u)),
      )
      (simp (length-append, length-padded) (omega arith))
