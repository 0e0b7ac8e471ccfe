-- ===== src/Time/Format/Injective.antt =====
-- Two times of the years 1 to 9999 are written alike only if they are the same.
use session_analysis_platfor.Prelude.{
  ℕ, ◌+◌, ◌/◌, ◌%◌, ◌<◌, ◌≡◌, refl, ap, sym, ◌∙◌, ◌++◌, codes, arith,
}
use session_analysis_platfor.Prelude.Int.{pos}
use session_analysis_platfor.Time.{Time}
use session_analysis_platfor.Time.Format.{
  era_seconds, since_era, format_date, format_clock, format_fraction, format_rfc3339_nano,
  length-format_clock, append_split,
}
use session_analysis_platfor.Time.Format.Digits.{
  clock_injective, drop_last, format_fraction_injective,
}
use session_analysis_platfor.Time.Format.Civil.{
  IsCivilDay, format_date_injective, length-format_date,
}

-- a time of the years 1 to 9999
pub record IsCivil (t : Time) : Type 0 where
  pub seconds : ℕ
  pub since_year_1 : t.sec ≡ pos seconds
  pub before_year_10000 : seconds < 315537897600
  pub nanoseconds : t.nsec < 1000000000

since_era_civil : (t : Time) (c : IsCivil t) → since_era t.sec ≡ era_seconds + c.seconds
unfolding since_era
since_era_civil t c = rw c.since_year_1 refl

-- Two times of the years 1 to 9999 are written alike, to the nanosecond, only if they are the same.
pub format_rfc3339_nano_injective :
    (t u : Time) → IsCivil t → IsCivil u → format_rfc3339_nano t ≡ format_rfc3339_nano u → t ≡ u
unfolding format_rfc3339_nano
format_rfc3339_nano_injective t u c d e =
    let s = since_era t.sec in
    let r = since_era u.sec in
    let hs = since_era_civil t c in
    let hr = since_era_civil u d in
    let day_s : IsCivilDay (s / 86400) = omega (arith, hs, c.before_year_10000) in
    let day_r : IsCivilDay (r / 86400) = omega (arith, hr, d.before_year_10000) in
    let (p, e1) =
      append_split (format_date (s / 86400)) (format_date (r / 86400)) _ _
        (length-format_date (s / 86400) day_s ∙ sym (length-format_date (r / 86400) day_r)) e in
    let (q, e2) =
      append_split (format_clock (s % 86400)) (format_clock (r % 86400))
        (format_fraction t.nsec ++ codes "Z") (format_fraction u.nsec ++ codes "Z")
        (length-format_clock (s % 86400) ∙ sym (length-format_clock (r % 86400))) (cc e1) in
    let days = format_date_injective (s / 86400) (r / 86400) day_s day_r p in
    let clock = clock_injective (s % 86400) (r % 86400) (omega arith) (omega arith) q in
    let nanos =
      format_fraction_injective t.nsec u.nsec c.nanoseconds d.nanoseconds (drop_last _ _ b'Z' e2) in
    let seconds : c.seconds ≡ d.seconds = omega (arith, hs, hr, days, clock) in
    let sec : t.sec ≡ u.sec = c.since_year_1 ∙ ap pos seconds ∙ sym d.since_year_1 in
    λ i. record { sec = sec i; nsec = nanos i }
