-- ===== src/Time.antt =====
-- What the program uses of Go's package time: an instant, `time.Unix`, and the order.
pub mod Format
use session_analysis_platfor.Prelude.{
  ℕ, ◌+◌, ◌<◌, ◌≡◌, refl, Bool, true, false, ◌&&◌, arith, ltb, ◌==◌, if◌then◌else◌,
}
use session_analysis_platfor.Prelude.Int.{ℤ, pos, negsuc, int64_of_bits, ltb_ℤ, eqb_ℤ}

-- Seconds from the start of year 1 in UTC, as int64, and nanoseconds within the second.
pub record Time : Type 0 where
  pub sec : ℤ
  pub nsec : ℕ

-- `time.Time{}`
abbrev pub zero_time : Time
zero_time = record { sec = pos 0; nsec = 0 }

-- The seconds from the start of year 1 to 1970.
abbrev pub unix_to_internal : ℕ
unix_to_internal = 62135596800

-- `time.Unix(s, 0).UTC()` for a positive `s`: the sum wraps as int64 does.
unfoldable pub unix : ℕ → Time
unix s = record { sec = int64_of_bits (s + unix_to_internal); nsec = 0 }

unfoldable pub before : Time → Time → Bool
before a b =
    if ltb_ℤ a.sec b.sec then true else if eqb_ℤ a.sec b.sec then ltb a.nsec b.nsec else false

unfoldable pub time_eq : Time → Time → Bool
time_eq a b = eqb_ℤ a.sec b.sec && (a.nsec == b.nsec)

pub time_eq_refl : (a : Time) → time_eq a a ≡ true
unfolding time_eq
time_eq_refl a = ground arith

pub eq_of_time_eq : (a b : Time) → time_eq a b ≡ true → a ≡ b
unfolding time_eq
eq_of_time_eq a b h = ground arith

pub before_irrefl : (a : Time) → before a a ≡ false
unfolding before
before_irrefl a = ground arith

pub before_trans : (a b c : Time) → before a b ≡ true → before b c ≡ true → before a c ≡ true
unfolding before
before_trans a b c h k = ground arith

pub before_asym : (a b : Time) → before a b ≡ true → before b a ≡ false
unfolding before
before_asym a b h = ground arith

-- what is not before `b` is not before anything from `b` on
pub not_before_trans : (a b c : Time) → before a b ≡ false → before b c ≡ false → before a c ≡ false
unfolding before
not_before_trans a b c h k = ground arith
