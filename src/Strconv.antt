-- ===== src/Strconv.antt =====
-- What the program uses of Go's packages strconv, strings and bytes on raw bytes.
pub mod Trim
use session_analysis_platfor.Prelude.{
  ℕ, zero, suc, ◌+◌, ◌-◌, ◌*◌, ◌/◌, ◌%◌, ◌^◌, ◌≤◌, ◌<◌, ◌≡◌, refl, All, arith, Bool, true, false,
  ◌&&◌, List, [], ◌∷◌, Option, none, some, Bytes, codes, ltb, leb, ◌==◌, if◌then◌else◌,
}
use session_analysis_platfor.Prelude.Int.{ℤ, pos, negsuc}
use mathlib.Core.List.{map, reverse}

-- decimal digits read behind `n`; none on a byte that is no digit and where 64 bits are passed
unfoldable pub scan_uint : Bytes → ℕ → Option ℕ
scan_uint [] n = some n
scan_uint (c ∷ s) n =
    let m : ℕ = n * 10 + (c - b'0') in
    let rest = scan_uint s m in if leb b'0' c && leb c b'9' && ltb m (2 ^ 64) then rest else none

-- `strconv.ParseUint(s, 10, 64)`; an error is `none`
pub parse_uint : Bytes → Option ℕ
parse_uint [] = none
parse_uint (c ∷ s) = scan_uint (c ∷ s) 0

signed_range : Bool → Option ℕ → Option ℤ
signed_range neg none = none
signed_range false (some n) = if ltb n (2 ^ 63) then some (pos n) else none
signed_range true (some zero) = some (pos 0)
signed_range true (some (suc n)) = if ltb n (2 ^ 63) then some (negsuc n) else none

-- `strconv.ParseInt(s, 10, 64)`; an error is `none`
unfoldable pub parse_int : Bytes → Option ℤ
unfolding parse_uint signed_range
parse_int [] = none
parse_int (c ∷ s) =
    if c == b'-'
    then signed_range true (parse_uint s)
    else if c == b'+'
    then signed_range false (parse_uint s)
    else signed_range false (parse_uint (c ∷ s))

-- the encodings of the characters of Unicode's White_Space
abbrev spaces : List Bytes
spaces =
    (9 ∷ [])
    ∷ (10 ∷ [])
    ∷ (11 ∷ [])
    ∷ (12 ∷ [])
    ∷ (13 ∷ [])
    ∷ (32 ∷ [])
    ∷ (0xc2 ∷ 0x85 ∷ [])
    ∷ (0xc2 ∷ 0xa0 ∷ [])
    ∷ (0xe1 ∷ 0x9a ∷ 0x80 ∷ [])
    ∷ (0xe2 ∷ 0x80 ∷ 0x80 ∷ [])
    ∷ (0xe2 ∷ 0x80 ∷ 0x81 ∷ [])
    ∷ (0xe2 ∷ 0x80 ∷ 0x82 ∷ [])
    ∷ (0xe2 ∷ 0x80 ∷ 0x83 ∷ [])
    ∷ (0xe2 ∷ 0x80 ∷ 0x84 ∷ [])
    ∷ (0xe2 ∷ 0x80 ∷ 0x85 ∷ [])
    ∷ (0xe2 ∷ 0x80 ∷ 0x86 ∷ [])
    ∷ (0xe2 ∷ 0x80 ∷ 0x87 ∷ [])
    ∷ (0xe2 ∷ 0x80 ∷ 0x88 ∷ [])
    ∷ (0xe2 ∷ 0x80 ∷ 0x89 ∷ [])
    ∷ (0xe2 ∷ 0x80 ∷ 0x8a ∷ [])
    ∷ (0xe2 ∷ 0x80 ∷ 0xa8 ∷ [])
    ∷ (0xe2 ∷ 0x80 ∷ 0xa9 ∷ [])
    ∷ (0xe2 ∷ 0x80 ∷ 0xaf ∷ [])
    ∷ (0xe2 ∷ 0x81 ∷ 0x9f ∷ [])
    ∷ (0xe3 ∷ 0x80 ∷ 0x80 ∷ [])
    ∷ []

-- `s` behind the prefix `p`
drop_prefix : Bytes → Bytes → Option Bytes
drop_prefix [] s = some s
drop_prefix (a ∷ p) [] = none
drop_prefix (a ∷ p) (b ∷ s) = if a == b then drop_prefix p s else none

drop_any : List Bytes → Bytes → Option Bytes
drop_any [] s = none
drop_any (p ∷ ps) s = elim (drop_prefix p s) [ some t ↦ some t | none ↦ drop_any ps s ]

-- each round drops at least one byte, so the length is fuel enough
trim_start : List Bytes → Bytes → Bytes → Bytes
trim_start ps [] s = s
trim_start ps (_ ∷ fuel) s = elim (drop_any ps s) [ none ↦ s | some t ↦ trim_start ps fuel t ]

-- `strings.TrimSpace` and `bytes.TrimSpace`
unfoldable pub trim_space : Bytes → Bytes
unfolding trim_start drop_any drop_prefix
trim_space s =
    let t : Bytes = reverse (trim_start spaces s s) in reverse (trim_start (map reverse spaces) t t)

-- `strings.ToLower` on ASCII letters. The program compares its result with ASCII words that hold
-- neither an i nor a k, the only letters that characters beyond ASCII are lowered to.
unfoldable pub to_lower : Bytes → Bytes
to_lower [] = []
to_lower (c ∷ s) = (if leb b'A' c && leb c b'Z' then c + 32 else c) ∷ to_lower s

-- the same without the bound of 64 bits
unfoldable pub scan_digits : Bytes → ℕ → ℕ
scan_digits [] n = n
scan_digits (c ∷ s) n = scan_digits s (n * 10 + (c - b'0'))

abbrev pub IsDigit : ℕ → Type 0
IsDigit c = (b'0' ≤ c) × (c ≤ b'9')

pub le-scan_digits : (s : Bytes) (n : ℕ) → n ≤ scan_digits s n
unfolding scan_digits
le-scan_digits [] n = omega arith
le-scan_digits (c ∷ s) n = omega (arith, le-scan_digits s (n * 10 + (c - b'0')))

-- digits whose number fits into 64 bits are read as that number
pub scan_digits-below :
    (s : Bytes) (n : ℕ)
    → All IsDigit s
    → scan_digits s n < 2 ^ 64
    → scan_uint s n ≡ some (scan_digits s n)
unfolding scan_uint scan_digits
scan_digits-below [] n _ h = refl
scan_digits-below (c ∷ s) n (d, ds) h =
    let m : ℕ = n * 10 + (c - b'0') in
    ground (arith, scan_digits-below s m ds h, le-scan_digits s m)

-- a positive number in digits, alone and behind a minus sign
pub parse_int_digits :
    (s : Bytes)
    → All IsDigit s
    → 0 < scan_digits s 0
    → scan_digits s 0 < 2 ^ 63
    → parse_int s ≡ some (pos (scan_digits s 0))
unfolding parse_int
parse_int_digits [] ds h l = unfold scan_digits in absurd (omega arith)
parse_int_digits (c ∷ s) (d, ds) h l =
    let e = scan_digits-below (c ∷ s) 0 (d, ds) (omega arith) in ground arith

pub parse_int_minus :
    (s : Bytes) (n : ℕ)
    → All IsDigit s
    → scan_digits s 0 ≡ suc n
    → n < 2 ^ 63
    → parse_int (b'-' ∷ s) ≡ some (negsuc n)
unfolding parse_int
parse_int_minus [] n ds h l = unfold scan_digits in cc
parse_int_minus (c ∷ s) n (d, ds) h l =
    let e = scan_digits-below (c ∷ s) 0 (d, ds) (omega arith) in ground arith

parse_int_tests :
    (parse_int (codes "-007") ≡ some (negsuc 6))
    × (parse_int (codes "9223372036854775808") ≡ none)
    × (parse_int (codes "-9223372036854775808") ≡ some (negsuc (2 ^ 63 - 1)))
    × (parse_int (codes "12.5") ≡ none)
    × (parse_int (codes "+") ≡ none)
unfolding parse_int scan_uint
parse_int_tests = (refl, refl, refl, refl, refl)

trim_space_test : trim_space (codes "\t yes \n") ≡ codes "yes"
unfolding trim_space
trim_space_test = refl

-- the decimal digits of a number below 10 ^ fuel, before `text`
decimal : ℕ → ℕ → Bytes → Bytes
decimal zero n text = text
decimal (suc fuel) n text =
    let more = decimal fuel (n / 10) ((b'0' + n % 10) ∷ text) in if n == 0 then text else more

-- `fmt.Sprintf("%d", n)` of an int64 that is not negative; 20 digits are more than it has
unfoldable pub format_uint : ℕ → Bytes
unfolding decimal
format_uint n = if n == 0 then b'0' ∷ [] else decimal 20 n []
