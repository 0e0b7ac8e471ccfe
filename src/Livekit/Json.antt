-- ===== src/Livekit/Json.antt =====
-- JSON texts as encoding/json hands them on. A value carries its own text where the program reads
-- that; a string also carries what its escapes stand for.
use session_analysis_platfor.Prelude.{Bool, true, false, Option, Bytes, codes}
use session_analysis_platfor.Prelude.Int.{ℤ}

mutual
  pub data Json : Type 0 where
    null : Json
    bool : Bool → Json
    number : Bytes → Json
    string : Bytes → Bytes → Json
    array : Bytes → Json
    object : Bytes → Members → Json

  pub data Members : Type 0 where
    end : Members
    member : Bytes → Json → Members → Members

unfoldable pub raw : Json → Bytes
raw null = codes "null"
raw (bool true) = codes "true"
raw (bool false) = codes "false"
raw (number text) = text
raw (string text s) = text
raw (array text) = text
raw (object text ms) = text

-- The scanner of encoding/json, `none` on a text that is no JSON; and its reading of a number as a
-- float64, converted to int64, `none` where the text is no JSON number.
pub record JsonPackage : Type 0 where
  pub parse : Bytes → Option Json
  pub float_int64 : Bytes → Option ℤ
