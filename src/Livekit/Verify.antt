-- ===== src/Livekit/Verify.antt =====
-- verify.go: the token's signature is checked with the secret, and its digest against the body.
pub mod Signed
use session_analysis_platfor.Prelude.{
  ℕ, Bool, true, false, List, [], ◌∷◌, Option, none, some, Bytes, codes, is_empty, ◌==◌,
  if◌then◌else◌, length,
}
use session_analysis_platfor.Time.{Time}
use session_analysis_platfor.Livekit.Base64

-- The third-party package golang-jwt, as far as `Verify` calls it, and SHA-256. `parse` gets the
-- key, the accepted methods, whether an expiry is required, the issuer, the clock and the token; a
-- token that it accepts gives the claims that are strings, by name.
pub record CryptoPackage : Type 0 where
  pub parse : Bytes → List Bytes → Bool → Bytes → Time → Bytes → Option (Bytes → Option Bytes)
  pub sum256 : Bytes → Bytes

pub record Verifier : Type 0 where
  pub api_key : Bytes
  pub api_secret : Bytes

-- `NewVerifier`; `none` is errNoSecret
unfoldable pub new_verifier : Bytes → Bytes → Option Verifier
new_verifier api_key [] = none
new_verifier api_key (c ∷ s) = some (record { api_key = api_key; api_secret = c ∷ s })

-- All of them are ErrUnverified to a caller.
pub data VerifyError : Type 0 where
  no_token bad_token no_digest digest_mismatch : VerifyError

-- `subtle.ConstantTimeCompare`: every byte is looked at, whatever the ones before it were
differing : Bytes → Bytes → Bool → Bool
differing [] ys d = d
differing (x ∷ xs) [] d = d
differing (x ∷ xs) (y ∷ ys) d = differing xs ys (if x == y then d else true)

unfoldable pub constant_time_compare : Bytes → Bytes → ℕ
unfolding differing
constant_time_compare xs ys =
    if length xs == length ys then (if differing xs ys false then 0 else 1) else 0

-- `claimed, _ := claims["sha256"].(string)`
abbrev or_empty : Option Bytes → Bytes
or_empty none = []
or_empty (some s) = s

module _ (crypto : CryptoPackage) (now : Time) where
  check_digest : Bytes → Bytes → Option VerifyError
  check_digest claimed body =
      if is_empty claimed
      then some no_digest
      else if constant_time_compare claimed (Base64.encode (crypto.sum256 body)) == 1
      then none
      else some digest_mismatch

  unfoldable pub verify : Verifier → Bytes → Bytes → Option VerifyError
  unfolding check_digest
  verify v authorization body =
      if is_empty authorization
      then some no_token
      else elim (crypto.parse v.api_secret (codes "HS256" ∷ []) true v.api_key now authorization) [
        | none ↦ some bad_token
        | some claims ↦ check_digest (or_empty (claims (codes "sha256"))) body
      ]
