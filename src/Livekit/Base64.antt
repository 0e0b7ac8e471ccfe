-- ===== src/Livekit/Base64.antt =====
-- `base64.StdEncoding.EncodeToString` of encoding/base64.
pub mod Injective
use session_analysis_platfor.Prelude.{
  ℕ, ◌+◌, ◌-◌, ◌*◌, ◌/◌, ◌%◌, ◌<◌, ◌≡◌, refl, [], ◌∷◌, Bytes, codes, arith, ltb, ◌==◌,
  if◌then◌else◌,
}

pub symbol : ℕ → ℕ
symbol n =
    if ltb n 26
    then n + 65
    else if ltb n 52
    then n + 71
    else if ltb n 62
    then n - 4
    else if n == 62
    then b'+'
    else b'/'

unfoldable pub encode : Bytes → Bytes
unfolding symbol
encode [] = []
encode (a ∷ []) = symbol (a / 4) ∷ symbol (a % 4 * 16) ∷ b'=' ∷ b'=' ∷ []
encode (a ∷ b ∷ []) =
    symbol (a / 4) ∷ symbol (a % 4 * 16 + b / 16) ∷ symbol (b % 16 * 4) ∷ b'=' ∷ []
encode (a ∷ b ∷ c ∷ s) =
    symbol (a / 4)
    ∷ symbol (a % 4 * 16 + b / 16)
    ∷ symbol (b % 16 * 4 + c / 64)
    ∷ symbol (c % 64)
    ∷ encode s

abbrev pub IsByte : ℕ → Type 0
IsByte b = b < 256

pub symbol_injective : (m n : ℕ) → m < 64 → n < 64 → symbol m ≡ symbol n → m ≡ n
unfolding symbol
symbol_injective m n hm hn h = ground arith

encode_test : encode (codes "light w") ≡ codes "bGlnaHQgdw=="
unfolding encode
encode_test = refl
