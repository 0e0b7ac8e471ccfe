-- ===== src/Time/Format/Digits.antt =====
-- Numbers, times of day and fractions of a second, told by their digits.
use Prim.Native.Nat.pow
use session_analysis_platfor.Prelude.{
  ℕ, zero, suc, ◌+◌, ◌/◌, ◌%◌, ◌^◌, ◌<◌, ◌≡◌, ap, sym, ◌∙◌, Bool-cases, inl, inr, [], ◌∷◌, ◌++◌,
  Bytes, ◌==◌, length, length-append, arith,
}
use session_analysis_platfor.Time.Format.{
  padded, format_clock, trim_fraction, format_fraction, length-padded, length-trim_fraction,
  append_split,
}

tenth : (w n : ℕ) → n < 10 ^ suc w → n / 10 < 10 ^ w
tenth w n h = omega (arith, pow.suc 10 w)

pub padded_injective : (w m n : ℕ) → m < 10 ^ w → n < 10 ^ w → padded w m ≡ padded w n → m ≡ n
unfolding padded
padded_injective zero m n hm hn e = omega arith
padded_injective (suc w) m n hm hn e =
    let (p, q) =
      append_split (padded w (m / 10)) (padded w (n / 10)) ((48 + m % 10) ∷ []) ((48 + n % 10) ∷ [])
        (length-padded w (m / 10) ∙ sym (length-padded w (n / 10))) e in
    let d : 48 + m % 10 ≡ 48 + n % 10 = cc q in
    let r : m / 10 ≡ n / 10 =
      padded_injective w (m / 10) (n / 10) (tenth w m hm) (tenth w n hn) p in
    omega (arith, d, r)

-- a fraction's text is no longer than its place, and the digits of a fraction tell it
trim_fraction_injective :
    (w m n : ℕ) → m < 10 ^ w → n < 10 ^ w → trim_fraction w m ≡ trim_fraction w n → m ≡ n
unfolding trim_fraction
trim_fraction_injective zero m n hm hn e = omega arith
trim_fraction_injective (suc w) m n hm hn e = elim (Bool-cases (m % 10 == 0)) [
  | inl zm ↦ elim (Bool-cases (n % 10 == 0)) [
    | inl zn ↦
        ground (arith, trim_fraction_injective w (m / 10) (n / 10) (tenth w m hm) (tenth w n hn))
    | inr nn ↦
        let l : trim_fraction w (m / 10) ≡ padded (suc w) n = ground arith in
        absurd
          (omega (arith, ap length l, length-trim_fraction w (m / 10), length-padded (suc w) n))
  ]
  | inr nm ↦ elim (Bool-cases (n % 10 == 0)) [
    | inl zn ↦
        let l : padded (suc w) m ≡ trim_fraction w (n / 10) = ground arith in
        absurd
          (omega (arith, ap length l, length-trim_fraction w (n / 10), length-padded (suc w) m))
    | inr nn ↦ padded_injective (suc w) m n hm hn (ground arith)
  ]
]

pub clock_injective : (s t : ℕ) → s < 86400 → t < 86400 → format_clock s ≡ format_clock t → s ≡ t
unfolding format_clock
clock_injective s t hs ht e =
    let (h, e1) =
      append_split (padded 2 (s / 3600)) (padded 2 (t / 3600)) _ _
        (length-padded 2 (s / 3600) ∙ sym (length-padded 2 (t / 3600))) e in
    let (m, e2) =
      append_split (padded 2 (s / 60 % 60)) (padded 2 (t / 60 % 60)) (b':' ∷ padded 2 (s % 60))
        (b':' ∷ padded 2 (t % 60))
        (length-padded 2 (s / 60 % 60) ∙ sym (length-padded 2 (t / 60 % 60))) (cc e1) in
    let h' = padded_injective 2 (s / 3600) (t / 3600) (omega arith) (omega arith) h in
    let m' = padded_injective 2 (s / 60 % 60) (t / 60 % 60) (omega arith) (omega arith) m in
    let s' = padded_injective 2 (s % 60) (t % 60) (omega arith) (omega arith) (cc e2) in
    omega (arith, h', m', s')

-- The `Z` behind a fraction is not part of it.
pub drop_last : (xs ys : Bytes) (b : ℕ) → xs ++ b ∷ [] ≡ ys ++ b ∷ [] → xs ≡ ys
drop_last xs ys b e =
    (append_split xs ys (b ∷ []) (b ∷ [])
      (omega (arith, ap length e, length-append {0} xs (b ∷ []), length-append {0} ys (b ∷ [])))
      e).0

pub format_fraction_injective :
    (m n : ℕ) → m < 10 ^ 9 → n < 10 ^ 9 → format_fraction m ≡ format_fraction n → m ≡ n
unfolding format_fraction
format_fraction_injective m n hm hn e = ground (arith, e, trim_fraction_injective 9 m n hm hn)
