-- ===== src/EventId/Decimal.antt =====
-- `itoa`: its buffer, and its text against `strconv.ParseInt`.
use session_analysis_platfor.Prelude.{
  ℕ, zero, suc, ◌+◌, ◌-◌, ◌/◌, ◌%◌, ◌^◌, ◌≤◌, ◌<◌, ◌≡◌, refl, ◌≢◌, ◌∙◌, ap, Bool-cases, ◌⊎◌, inl,
  inr, leb, [], ◌∷◌, none, some, All, arith, Bytes, codes, length,
}
use native.Mathlib.Nat.{pow-suc}
use native.Mathlib.Decide.{ℕ_discrete}
use session_analysis_platfor.Prelude.Int.{ℤ, pos, negsuc, IsInt64}
use session_analysis_platfor.Strconv.{
  parse_int, scan_uint, parse_int_digits, parse_int_minus, scan_digits, IsDigit,
}
use session_analysis_platfor.EventId.{itoa_loop, itoa_digits, itoa_start, itoa}

tenth_lt : (i n : ℕ) → n < 10 ^ suc i → n / 10 < 10 ^ i
tenth_lt i n h = omega (arith, pow-suc 10 i)

-- room for `i` digits is enough for a number below 10 ^ i
itoa_loop_done : (i n : ℕ) (text : Bytes) → n < 10 ^ i → (itoa_loop i n text).left ≡ pos 0
unfolding itoa_loop
itoa_loop_done zero n text h = ap pos (omega arith)
itoa_loop_done (suc i) n text h =
    ground (arith, tenth_lt i n h, itoa_loop_done i (n / 10) ((b'0' + n % 10) ∷ text))

itoa_loop_room :
    (i n : ℕ) (text : Bytes)
    → (itoa_loop i n text).index + length (itoa_loop i n text).text ≡ i + length text
unfolding itoa_loop
itoa_loop_room zero n text = omega arith
itoa_loop_room (suc i) n text = ground (arith, itoa_loop_room i (n / 10) ((b'0' + n % 10) ∷ text))

-- a number below 10 ^ k leaves i - k bytes of the buffer free
itoa_loop_free :
    (k i n : ℕ) (text : Bytes) → n < 10 ^ k → k ≤ i → i ≤ (itoa_loop i n text).index + k
unfolding itoa_loop
itoa_loop_free k zero n text h l = omega arith
itoa_loop_free zero (suc i) n text h l = ground arith
itoa_loop_free (suc k) (suc i) n text h l =
    ground (arith, tenth_lt k n h, itoa_loop_free k i (n / 10) ((b'0' + n % 10) ∷ text))

-- the digits spell `n`
scan_digits-itoa_loop :
    (i n : ℕ) (text : Bytes)
    → n < 10 ^ i
    → scan_digits (itoa_loop i n text).text 0 ≡ scan_digits text n
unfolding itoa_loop scan_digits
scan_digits-itoa_loop zero n text h = ground arith
scan_digits-itoa_loop (suc i) n text h =
    ground (arith, tenth_lt i n h, scan_digits-itoa_loop i (n / 10) ((b'0' + n % 10) ∷ text))

itoa_loop-IsDigit :
    (i n : ℕ) (text : Bytes) → All IsDigit text → All IsDigit (itoa_loop i n text).text
unfolding itoa_loop
itoa_loop-IsDigit zero n text h = h
itoa_loop-IsDigit (suc i) n text h =
    ground
      (arith, itoa_loop-IsDigit i (n / 10) ((b'0' + n % 10) ∷ text) ((omega arith, omega arith), h))

-- the digits of a positive int64
positive_digits :
    (n : ℕ)
    → 0 < n
    → n < 2 ^ 63
    → All IsDigit (itoa_loop 20 n []).text × (scan_digits (itoa_loop 20 n []).text 0 ≡ n)
unfolding scan_digits
positive_digits n p h = (itoa_loop-IsDigit 20 n [] tt, scan_digits-itoa_loop 20 n [] (omega arith))

-- Every int64 but the least is read back by `strconv.ParseInt` from what `itoa` writes.
pub parse_int-itoa : (n : ℤ) → IsInt64 n → n ≢ negsuc (2 ^ 63 - 1) → parse_int (itoa n) ≡ some n
unfolding itoa itoa_digits
parse_int-itoa (pos zero) h l = unfold parse_int scan_uint in refl
parse_int-itoa (pos (suc n)) h l =
    let (ds, e) = positive_digits (suc n) (omega arith) h in
    parse_int_digits _ ds (omega (arith, e)) (omega (arith, e)) ∙ ap (λ m. some (pos m)) e
parse_int-itoa (negsuc n) h l = elim (Bool-cases (leb (2 ^ 63 - 1) n)) [
  | inl least ↦ absurd (l (ap negsuc (ground arith)))
  | inr e ↦
      let (ds, d) = positive_digits (suc n) (omega arith) (ground arith) in
      rw e (parse_int_minus _ n ds d h)
]

-- For every int64 but the least: the loop of `itoa` ends by its test with no digit left, within the
-- 20 bytes of the buffer and at an index that leaves room for the sign, and `strconv.ParseInt` reads
-- what is written back as that number.
pub itoa_in_bounds :
    (n : ℤ)
    → IsInt64 n
    → n ≢ negsuc (2 ^ 63 - 1)
    → ((itoa_digits (itoa_start n)).left ≡ pos 0)
      × (1 ≤ (itoa_digits (itoa_start n)).index)
      × (parse_int (itoa n) ≡ some n)
unfolding itoa_digits
itoa_in_bounds (pos n) h l = (
  itoa_loop_done 20 n [] (omega arith),
  omega (arith, itoa_loop_free 19 20 n [] (omega arith) (omega arith)),
  parse_int-itoa (pos n) h l,
)
itoa_in_bounds (negsuc n) h l = elim (Bool-cases (leb (2 ^ 63 - 1) n)) [
  | inl least ↦ absurd (l (ap negsuc (ground arith)))
  | inr e ↦ (
    rw e (itoa_loop_done 20 (suc n) [] (omega arith)),
    rw e (omega (arith, itoa_loop_free 19 20 (suc n) [] (omega arith) (omega arith))),
    parse_int-itoa (negsuc n) h l,
  )
]

-- The least int64 is its own negation, so that the loop is not entered and no
-- digit is written: only the sign is.
pub itoa_least : itoa (negsuc (2 ^ 63 - 1)) ≡ codes "-"
unfolding itoa itoa_digits
itoa_least = refl

-- What `itoa` writes is short.
pub length-itoa : (n : ℤ) → length (itoa n) ≤ 21
unfolding itoa itoa_digits
length-itoa (pos zero) = omega arith
length-itoa (pos (suc n)) = omega (arith, itoa_loop_room 20 (suc n) [])
length-itoa (negsuc n) = elim (Bool-cases (leb (2 ^ 63 - 1) n)) [
  | inl least ↦ rw least (omega arith)
  | inr e ↦ rw e (omega (arith, itoa_loop_room 20 (suc n) []))
]

-- `strconv.ParseInt` refuses what `itoa` writes for the least int64 alone.
itoa_cases :
    (n : ℤ)
    → IsInt64 n
    → ((n ≡ negsuc (2 ^ 63 - 1)) × (parse_int (itoa n) ≡ none)) ⊎ (parse_int (itoa n) ≡ some n)
itoa_cases (pos n) h = inr (parse_int-itoa (pos n) h cc)
itoa_cases (negsuc n) h = elim (ℕ_discrete n (2 ^ 63 - 1)) [
  | yes e ↦ inl (ap negsuc e, rw e (rw itoa_least (unfold parse_int in refl)))
  | no e ↦ inr (parse_int-itoa (negsuc n) h (λ p. e (ground arith)))
]

-- a byte from the sign to the last digit
abbrev pub IsNumeric : ℕ → Type 0
IsNumeric c = (b'-' ≤ c) × (c ≤ b'9')

digits-IsNumeric : (s : Bytes) → All IsDigit s → All IsNumeric s
digits-IsNumeric [] h = tt
digits-IsNumeric (c ∷ s) (h, hs) = ((omega arith, omega arith), digits-IsNumeric s hs)

pub itoa-IsNumeric : (n : ℤ) → All IsNumeric (itoa n)
unfolding itoa itoa_digits
itoa-IsNumeric (pos zero) = ((omega arith, omega arith), tt)
itoa-IsNumeric (pos (suc n)) = digits-IsNumeric _ (itoa_loop-IsDigit 20 (suc n) [] tt)
itoa-IsNumeric (negsuc n) = elim (Bool-cases (leb (2 ^ 63 - 1) n)) [
  | inl least ↦ rw least ((omega arith, omega arith), tt)
  | inr e ↦
      rw e ((omega arith, omega arith), digits-IsNumeric _ (itoa_loop-IsDigit 20 (suc n) [] tt))
]

-- Two int64 that `itoa` writes alike are equal, the least one included.
pub itoa_injective : (m n : ℤ) → IsInt64 m → IsInt64 n → itoa m ≡ itoa n → m ≡ n
itoa_injective m n hm hn e = ground (arith, itoa_cases m hm, itoa_cases n hn, ap parse_int e)
