-- ===== src/Livekit/JsonNum.antt =====
-- jsonnum.go: a 64-bit integer that arrives as a JSON number or as a JSON string.
pub mod Forms
use mathlib.Core.List.{reverse}
use session_analysis_platfor.Prelude.{
  ◌||◌, [], ◌∷◌, Option, none, some, Bytes, codes, is_empty, ◌==◌, if◌then◌else◌, str_eq,
}
use session_analysis_platfor.Prelude.Int.{ℤ, pos}
use session_analysis_platfor.Strconv.{parse_int, trim_space}
use session_analysis_platfor.Livekit.Json.{JsonPackage}

-- what stands before a final quote
drop_last_quote : Bytes → Option Bytes
drop_last_quote [] = none
drop_last_quote (d ∷ r) = if d == b'"' then some (reverse r) else none

-- `len(b) >= 2 && b[0] == '"' && b[len(b)-1] == '"'`: what stands between the quotes
unfoldable pub unquote : Bytes → Option Bytes
unfolding drop_last_quote
unquote [] = none
unquote (c ∷ s) = if c == b'"' then drop_last_quote (reverse s) else none

or_float : Option ℤ → Option ℤ → Option ℤ
or_float (some n) f = some n
or_float none f = f

module _ (json : JsonPackage) where
  -- behind the quotes: `strconv.ParseInt`, and a float where that fails
  unfoldable pub parse_number : Bytes → Option ℤ
  unfolding or_float
  parse_number b = or_float (parse_int b) (json.float_int64 b)

  between_quotes : Bytes → Option ℤ
  between_quotes [] = some (pos 0)
  between_quotes (c ∷ s) = parse_number (c ∷ s)

  -- `UnmarshalJSON`; an error is `none`
  unfoldable pub unmarshal_int64 : Bytes → Option ℤ
  unfolding between_quotes
  unmarshal_int64 text =
      let b : Bytes = trim_space text in
      if is_empty b || str_eq b (codes "null")
      then some (pos 0)
      else elim (unquote b) [ some inner ↦ between_quotes inner | none ↦ parse_number b ]
