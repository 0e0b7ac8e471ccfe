-- ===== src/Time/Format.antt =====
-- `t.UTC().Format(time.RFC3339Nano)`: the civil date by cycles of 400, 100, 4 and 1 years, the
-- time of day, and the fraction of the second without its trailing zeros.
pub mod Digits
pub mod Civil
pub mod Injective
use session_analysis_platfor.Prelude.{
  ℕ, zero, suc, ◌+◌, ◌-◌, ◌*◌, ◌/◌, ◌%◌, ◌≡◌, refl, Bool, not, ◌&&◌, ◌||◌, List, [], ◌∷◌, ◌++◌,
  Bytes, codes, ltb, ◌==◌, if◌then◌else◌, length, length-append, arith, ◌≤◌,
}
use session_analysis_platfor.Prelude.Int.{ℤ, pos, negsuc}
use session_analysis_platfor.Time.{Time, zero_time, unix}
use Prim.Native.Nat.{min}

-- the last `w` decimal digits of `n`, leading zeros included
unfoldable pub padded : ℕ → ℕ → Bytes
padded zero n = []
padded (suc w) n = padded w (n / 10) ++ (48 + n % 10) ∷ []

-- the number of decimal digits of `n`, at most `fuel`
digit_count : ℕ → ℕ → ℕ
digit_count zero n = 0
digit_count (suc fuel) n = if n == 0 then 0 else suc (digit_count fuel (n / 10))

-- a year: four digits at least, a sign where it is negative
year_digits : ℕ → Bytes
year_digits y = if ltb y 10000 then padded 4 y else padded (digit_count 20 y) y

format_year : ℤ → Bytes
format_year (pos y) = year_digits y
format_year (negsuc y) = b'-' ∷ year_digits (suc y)

-- years before year 1 are counted from the start of a cycle of 400 years long before it
abbrev era_cycles : ℕ
era_cycles = 730692561

abbrev era_seconds : ℕ
era_seconds = era_cycles * 146097 * 86400

since_era : ℤ → ℕ
since_era (pos s) = era_seconds + s
since_era (negsuc s) = era_seconds - suc s

is_leap : ℕ → Bool
is_leap y = (y % 4 == 0) && (not (y % 100 == 0) || (y % 400 == 0))

month_lengths : Bool → List ℕ
month_lengths leap =
    31 ∷ (if leap then 29 else 28) ∷ 31 ∷ 30 ∷ 31 ∷ 30 ∷ 31 ∷ 31 ∷ 30 ∷ 31 ∷ 30 ∷ 31 ∷ []

-- the month and the day of the month, from the day of the year
month_day : ℕ → List ℕ → ℕ → ℕ × ℕ
month_day m [] d = (m, d + 1)
month_day m (l ∷ ls) d = if ltb d l then (m, d + 1) else month_day (m + 1) ls (d - l)

-- the year counted from the era's start, and the day of that year
year_day : ℕ → ℕ × ℕ
year_day days =
    let r400 : ℕ = days % 146097 in
    let n100 : ℕ = min (r400 / 36524) 3 in
    let r100 : ℕ = r400 - n100 * 36524 in
    let r4 : ℕ = r100 % 1461 in
    let n1 : ℕ = min (r4 / 365) 3 in
    (days / 146097 * 400 + n100 * 100 + r100 / 1461 * 4 + n1 + 1, r4 - n1 * 365)

civil_year : ℕ → ℤ
civil_year y =
    if ltb y (era_cycles * 400)
    then negsuc (era_cycles * 400 - y - 1)
    else pos (y - era_cycles * 400)

spell_date : ℤ → ℕ × ℕ → Bytes
spell_date y (m, d) = format_year y ++ (b'-' ∷ (padded 2 m ++ (b'-' ∷ padded 2 d)))

pub format_date : ℕ → Bytes
format_date days =
    let (y, d) = year_day days in
    spell_date (civil_year y) (month_day 1 (month_lengths (is_leap y)) d)

pub format_clock : ℕ → Bytes
format_clock s =
    padded 2 (s / 3600) ++ (b':' ∷ (padded 2 (s / 60 % 60) ++ (b':' ∷ padded 2 (s % 60))))

-- the nanoseconds with their trailing zeros dropped
trim_fraction : ℕ → ℕ → Bytes
trim_fraction zero n = []
trim_fraction (suc w) n =
    let shorter = trim_fraction w (n / 10) in if n % 10 == 0 then shorter else padded (suc w) n

pub format_fraction : ℕ → Bytes
format_fraction n = if n == 0 then [] else b'.' ∷ trim_fraction 9 n

pub format_rfc3339_nano : Time → Bytes
format_rfc3339_nano t =
    let s : ℕ = since_era t.sec in
    format_date (s / 86400)
    ++ (b'T' ∷ (format_clock (s % 86400) ++ (format_fraction t.nsec ++ codes "Z")))

pub append_split : (f g r s : Bytes) → length f ≡ length g → f ++ r ≡ g ++ s → (f ≡ g) × (r ≡ s)
append_split [] [] r s n e = (refl, e)
append_split [] (b ∷ g) r s n e = absurd (omega arith)
append_split (a ∷ f) [] r s n e = absurd (omega arith)
append_split (a ∷ f) (b ∷ g) r s n e = ground (arith, append_split f g r s)

-- The lengths of the parts; the whole is short.
length-padded : (w n : ℕ) → length (padded w n) ≡ w
unfolding padded
length-padded zero n = refl
length-padded (suc w) n =
    omega
      (arith, length-append {0} (padded w (n / 10)) ((48 + n % 10) ∷ []), length-padded w (n / 10))

digit_count_le : (fuel n : ℕ) → digit_count fuel n ≤ fuel
unfolding digit_count
digit_count_le zero n = omega arith
digit_count_le (suc fuel) n = ground (arith, digit_count_le fuel (n / 10))

length-year_digits : (y : ℕ) → length (year_digits y) ≤ 20
unfolding year_digits
length-year_digits y =
    ground (arith, length-padded 4 y, length-padded (digit_count 20 y) y, digit_count_le 20 y)

length-format_year : (y : ℤ) → length (format_year y) ≤ 21
unfolding format_year
length-format_year (pos y) = omega (arith, length-year_digits y)
length-format_year (negsuc y) = omega (arith, length-year_digits (suc y))

length-trim_fraction : (w n : ℕ) → length (trim_fraction w n) ≤ w
unfolding trim_fraction
length-trim_fraction zero n = omega arith
length-trim_fraction (suc w) n =
    ground (arith, length-trim_fraction w (n / 10), length-padded (suc w) n)

length-spell_date : (y : ℤ) (md : ℕ × ℕ) → length (spell_date y md) ≤ 27
unfolding spell_date
length-spell_date y (m, d) =
    simp (length-append, length-padded) (omega (arith, length-format_year y))

length-format_date : (days : ℕ) → length (format_date days) ≤ 27
unfolding format_date
length-format_date days = length-spell_date _ _

length-format_clock : (s : ℕ) → length (format_clock s) ≡ 8
unfolding format_clock
length-format_clock s = simp (length-append, length-padded) (omega arith)

length-format_fraction : (n : ℕ) → length (format_fraction n) ≤ 10
unfolding format_fraction
length-format_fraction n = ground (arith, length-trim_fraction 9 n)

pub length-format_rfc3339_nano : (t : Time) → length (format_rfc3339_nano t) ≤ 47
unfolding format_rfc3339_nano
length-format_rfc3339_nano t =
    let days : ℕ = since_era t.sec / 86400 in
    let clock : ℕ = since_era t.sec % 86400 in
    simp length-append (
      omega
        (arith, length-format_date days, length-format_clock clock, length-format_fraction t.nsec))

format_zero_time : format_rfc3339_nano zero_time ≡ codes "0001-01-01T00:00:00Z"
unfolding format_rfc3339_nano since_era format_date spell_date format_clock format_fraction
    trim_fraction format_year year_digits padded digit_count is_leap month_lengths month_day
    year_day civil_year
format_zero_time = refl

format_some_day : format_rfc3339_nano (unix 1709210096) ≡ codes "2024-02-29T12:34:56Z"
unfolding format_rfc3339_nano since_era format_date spell_date format_clock format_fraction
    trim_fraction format_year year_digits padded digit_count is_leap month_lengths month_day
    year_day civil_year unix
format_some_day = refl

format_some_nanos :
    format_rfc3339_nano (record { sec = pos 63839999999; nsec = 120300000 })
    ≡ codes "2024-01-04T21:19:59.1203Z"
unfolding format_rfc3339_nano since_era format_date spell_date format_clock format_fraction
    trim_fraction format_year year_digits padded digit_count is_leap month_lengths month_day
    year_day civil_year
format_some_nanos = refl
