-- ===== src/Livekit/Verify/Signed.antt =====
-- `Verify`: which deliveries it lets pass.
use mathlib.Core.Path.{subst}
use session_analysis_platfor.Prelude.{
  Option-cases, ◌≡◌, sym, ◌∙◌, List, refl, ap, true, false, Bool-cases, inl, inr, [], ◌∷◌, Option,
  none, some, Bytes, codes, is_empty, ◌==◌, length, arith, All, ◌↔◌,
}
use session_analysis_platfor.Time.{Time}
use session_analysis_platfor.Livekit.Base64
use session_analysis_platfor.Livekit.Base64.{IsByte}
use session_analysis_platfor.Livekit.Base64.Injective
use session_analysis_platfor.Livekit.Verify.{
  CryptoPackage, Verifier, or_empty, differing, constant_time_compare, check_digest, verify,
}

differing_once : (xs ys : Bytes) → differing xs ys true ≡ true
unfolding differing
differing_once [] ys = refl
differing_once (x ∷ xs) [] = refl
differing_once (x ∷ xs) (y ∷ ys) = ground (arith, differing_once xs ys)

eq_of_differing : (xs ys : Bytes) → length xs ≡ length ys → differing xs ys false ≡ false → xs ≡ ys
unfolding differing
eq_of_differing [] [] n h = refl
eq_of_differing [] (y ∷ ys) n h = absurd (omega arith)
eq_of_differing (x ∷ xs) [] n h = absurd (omega arith)
eq_of_differing (x ∷ xs) (y ∷ ys) n h = ground (arith, eq_of_differing xs ys, differing_once xs ys)

differing_refl : (xs : Bytes) → differing xs xs false ≡ false
unfolding differing
differing_refl [] = refl
differing_refl (x ∷ xs) = ground (arith, differing_refl xs)

-- `ConstantTimeCompare` answers 1 for equal texts, and for them alone.
pub constant_time_compare_iff : (xs ys : Bytes) → (constant_time_compare xs ys ≡ 1) ↔ (xs ≡ ys)
unfolding constant_time_compare
constant_time_compare_iff xs ys =
    (λ h. ground (arith, eq_of_differing xs ys), λ e. rw e (ground (arith, differing_refl ys)))

-- What the token package reads in a token is the token's: a clock decides whether it is accepted, and
-- not which claims it has.
abbrev pub HasClaimsOfToken : CryptoPackage → Type 0
HasClaimsOfToken crypto =
    (secret key : Bytes) (methods : List Bytes) (now later : Time) (token : Bytes)
    (c d : Bytes → Option Bytes)
    → crypto.parse secret methods true key now token ≡ some c
    → crypto.parse secret methods true key later token ≡ some d
    → c ≡ d

module _ (crypto : CryptoPackage) (now : Time) where
  -- what the token package is asked for: the secret, HS256 alone, an expiry, and the key as issuer
  abbrev pub accepted_claims : Verifier → Bytes → Option (Bytes → Option Bytes)
  accepted_claims v authorization =
      crypto.parse v.api_secret (codes "HS256" ∷ []) true v.api_key now authorization

  abbrev pub digest_text : Bytes → Bytes
  digest_text body = Base64.encode (crypto.sum256 body)

  -- The delivery has a token that is accepted, and its claim is the body's digest.
  pub record Signed (v : Verifier) (authorization body : Bytes) : Type 0 where
    pub claims : Bytes → Option Bytes
    pub has_token : is_empty authorization ≡ false
    pub accepted : accepted_claims v authorization ≡ some claims
    pub digest : claims (codes "sha256") ≡ some (digest_text body)
    pub has_digest : is_empty (digest_text body) ≡ false

  check_digest_pass :
      (c body : Bytes)
      → check_digest crypto now c body ≡ none
      → (is_empty c ≡ false) × (c ≡ digest_text body)
  unfolding check_digest
  check_digest_pass [] body h = cc h
  check_digest_pass (a ∷ c) body h =
      elim (Bool-cases (constant_time_compare (a ∷ c) (digest_text body) == 1)) [
        | inl e ↦ (refl, (constant_time_compare_iff (a ∷ c) (digest_text body)).0 (ground arith))
        | inr e ↦ ground (arith)
      ]

  or_empty-some : (o : Option Bytes) (c : Bytes) → is_empty c ≡ false → or_empty o ≡ c → o ≡ some c
  or_empty-some none c n e = absurd (cc (n, e))
  or_empty-some (some s) c n e = ap some e

  verify_pass :
      (v : Verifier) (authorization body : Bytes)
      → verify crypto now v authorization body ≡ none
      → Signed v authorization body
  unfolding verify
  verify_pass v [] body h = cc h
  verify_pass v (a ∷ s) body h = elim (Option-cases (accepted_claims v (a ∷ s))) [
    | inl e ↦ absurd (ground arith)
    | inr (claims, e) ↦
        let (n, c) = check_digest_pass (or_empty (claims (codes "sha256"))) body (ground arith) in
        record {
          claims = claims;
          has_token = refl;
          accepted = e;
          digest =
              or_empty-some (claims (codes "sha256")) (digest_text body)
                (subst (λ t. is_empty t ≡ false) c n) c;
          has_digest = subst (λ t. is_empty t ≡ false) c n;
        }
  ]

  check_digest_of :
      (body : Bytes)
      → is_empty (digest_text body) ≡ false
      → check_digest crypto now (digest_text body) body ≡ none
  unfolding check_digest
  check_digest_of body n =
      rw (n, (constant_time_compare_iff (digest_text body) (digest_text body)).1 refl) refl

  verify_of_Signed :
      (v : Verifier) (authorization body : Bytes)
      → Signed v authorization body
      → verify crypto now v authorization body ≡ none
  unfolding verify
  verify_of_Signed v authorization body s =
      rw (s.has_token, s.accepted, s.digest) (check_digest_of body s.has_digest)

  -- `verify` lets a delivery pass exactly if it is signed: its token is accepted under the secret,
  -- HS256, an expiry and the key, and the digest it claims is that of this very body.
  pub verify_iff :
      (v : Verifier) (authorization body : Bytes)
      → (verify crypto now v authorization body ≡ none) ↔ Signed v authorization body
  verify_iff v authorization body =
      (verify_pass v authorization body, verify_of_Signed v authorization body)

-- Whenever it is used, a token that lets one body pass lets no body with another digest pass: `verify`
-- of both is at any two times, where the token package gives the same claims of one token whenever it
-- accepts it, and the digests are of one length.
pub verify_no_replay :
    (crypto : CryptoPackage) (now later : Time) (v : Verifier) (authorization body other : Bytes)
    → HasClaimsOfToken crypto
    → All IsByte (crypto.sum256 body)
    → All IsByte (crypto.sum256 other)
    → length (crypto.sum256 body) ≡ length (crypto.sum256 other)
    → verify crypto now v authorization body ≡ none
    → verify crypto later v authorization other ≡ none
    → crypto.sum256 body ≡ crypto.sum256 other
verify_no_replay crypto now later v authorization body other same b o n h k =
    let s = verify_pass crypto now v authorization body h in
    let t = verify_pass crypto later v authorization other k in
    let c : s.claims ≡ t.claims =
      same v.api_secret v.api_key (codes "HS256" ∷ []) now later authorization s.claims t.claims
        s.accepted t.accepted in
    let d : some (digest_text crypto now body) ≡ some (digest_text crypto later other) =
      sym s.digest ∙ ap (λ f. f (codes "sha256")) c ∙ t.digest in
    Base64.Injective.encode_injective _ _ b o n (cc d)
