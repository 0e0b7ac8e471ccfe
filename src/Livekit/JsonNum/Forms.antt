-- ===== src/Livekit/JsonNum/Forms.antt =====
-- The two forms of a 64-bit integer: bare, and in quotes.
use mathlib.Core.List.{reverse-append, reverse-reverse}
use session_analysis_platfor.Prelude.{
  ℕ, ◌-◌, ◌^◌, ◌≡◌, ◌≢◌, refl, ◌∙◌, ap, ◌≤◌, All, All-append, arith, false, [], ◌∷◌, ◌++◌, some,
  Bytes, codes, ◌==◌, str_eq,
}
use session_analysis_platfor.Prelude.Int.{ℤ, negsuc, IsInt64}
use session_analysis_platfor.Strconv.{parse_int}
use session_analysis_platfor.Strconv.Trim.{IsGraphic, trim_space_graphic}
use session_analysis_platfor.EventId.{itoa}
use session_analysis_platfor.EventId.Decimal.{IsNumeric, itoa-IsNumeric, parse_int-itoa}
use session_analysis_platfor.Livekit.Json.{JsonPackage}
use session_analysis_platfor.Livekit.JsonNum.{
  drop_last_quote, unquote, or_float, parse_number, between_quotes, unmarshal_int64,
}

abbrev pub in_quotes : Bytes → Bytes
in_quotes s = b'"' ∷ s ++ b'"' ∷ []

numeric-IsGraphic : (s : Bytes) → All IsNumeric s → All IsGraphic s
numeric-IsGraphic [] h = tt
numeric-IsGraphic (c ∷ s) (h, hs) = ((omega arith, omega arith), numeric-IsGraphic s hs)

unquote-in_quotes : (s : Bytes) → unquote (in_quotes s) ≡ some s
unfolding unquote drop_last_quote
unquote-in_quotes s = rw (reverse-append s (b'"' ∷ [])) (ap some (reverse-reverse s))

in_quotes-IsGraphic : (s : Bytes) → All IsNumeric s → All IsGraphic (in_quotes s)
in_quotes-IsGraphic s h = (
  (omega arith, omega arith),
  All-append IsGraphic s (b'"' ∷ []) (numeric-IsGraphic s h) ((omega arith, omega arith), tt),
)

not_null : (c : ℕ) (s : Bytes) → c ≤ b'9' → str_eq (c ∷ s) (codes "null") ≡ false
unfolding str_eq
not_null c s h = ground arith

not_quote : (c : ℕ) → b'-' ≤ c → (c == b'"') ≡ false
not_quote c h = ground arith

module _ (json : JsonPackage) where
  bare_number :
      (c : ℕ) (s : Bytes)
      → All IsNumeric (c ∷ s)
      → unmarshal_int64 json (c ∷ s) ≡ parse_number json (c ∷ s)
  unfolding unmarshal_int64 unquote
  bare_number c s (h, hs) =
      let trimmed = trim_space_graphic (c ∷ s) (numeric-IsGraphic (c ∷ s) (h, hs)) in
      rw (trimmed, not_null c s h.1, not_quote c h.0, trimmed) refl

  quoted_number :
      (c : ℕ) (s : Bytes)
      → All IsNumeric (c ∷ s)
      → unmarshal_int64 json (in_quotes (c ∷ s)) ≡ parse_number json (c ∷ s)
  unfolding unmarshal_int64 between_quotes
  quoted_number c s h =
      rw
        (
          trim_space_graphic (in_quotes (c ∷ s)) (in_quotes-IsGraphic (c ∷ s) h),
          not_null b'"' ((c ∷ s) ++ b'"' ∷ []) (omega arith),
          unquote-in_quotes (c ∷ s),
        )
        refl

  -- what a number's text is read as, in both forms
  both_forms :
      (s : Bytes) (n : ℤ)
      → All IsNumeric s
      → parse_int s ≡ some n
      → (unmarshal_int64 json s ≡ some n) × (unmarshal_int64 json (in_quotes s) ≡ some n)
  unfolding parse_number or_float
  both_forms [] n h e = unfold parse_int in cc e
  both_forms (c ∷ s) n h e = (bare_number c s h ∙ rw e refl, quoted_number c s h ∙ rw e refl)

  -- Every int64 but the least is decoded from the digits that `itoa` writes for it, whether they stand
  -- bare, as a JSON number, or in quotes, as protobuf's JSON has them.
  pub unmarshal_int64-itoa :
      (n : ℤ)
      → IsInt64 n
      → n ≢ negsuc (2 ^ 63 - 1)
      → (unmarshal_int64 json (itoa n) ≡ some n)
        × (unmarshal_int64 json (in_quotes (itoa n)) ≡ some n)
  unmarshal_int64-itoa n h l = both_forms (itoa n) n (itoa-IsNumeric n) (parse_int-itoa n h l)
