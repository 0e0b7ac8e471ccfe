-- ===== src/Livekit/Base64/Injective.antt =====
-- `encode` on byte lists of one length, such as two digests.
use session_analysis_platfor.Prelude.{
  ℕ, ◌+◌, ◌*◌, ◌/◌, ◌%◌, ◌<◌, ◌≡◌, refl, ap, [], ◌∷◌, Bytes, arith, length, All,
}
use session_analysis_platfor.Livekit.Base64.{symbol, encode, IsByte, symbol_injective}

-- the byte a list starts with
first : Bytes → ℕ
first [] = 0
first (c ∷ s) = c

rest : Bytes → Bytes
rest [] = []
rest (c ∷ s) = s

-- two numbers below 64 that start two equal texts
same_symbol :
    (m n : ℕ) (s t : Bytes) → m < 64 → n < 64 → symbol m ∷ s ≡ symbol n ∷ t → (m ≡ n) × (s ≡ t)
unfolding first rest
same_symbol m n s t hm hn e = (symbol_injective m n hm hn (ap first e), ap rest e)

one_byte : (a b : ℕ) → IsByte a → IsByte b → encode (a ∷ []) ≡ encode (b ∷ []) → a ≡ b
unfolding encode
one_byte a b ha hb e =
    let (p, e1) = same_symbol (a / 4) (b / 4) _ _ (omega arith) (omega arith) e in
    let (q, e2) = same_symbol (a % 4 * 16) (b % 4 * 16) _ _ (omega arith) (omega arith) e1 in
    omega arith

two_bytes :
    (a a' b b' : ℕ)
    → IsByte a
    → IsByte a'
    → IsByte b
    → IsByte b'
    → encode (a ∷ b ∷ []) ≡ encode (a' ∷ b' ∷ [])
    → (a ≡ a') × (b ≡ b')
unfolding encode
two_bytes a a' b b' ha ha' hb hb' e =
    let (p, e1) = same_symbol (a / 4) (a' / 4) _ _ (omega arith) (omega arith) e in
    let (q, e2) =
      same_symbol (a % 4 * 16 + b / 16) (a' % 4 * 16 + b' / 16) _ _ (omega arith) (omega arith)
        e1 in
    let (r, e3) = same_symbol (b % 16 * 4) (b' % 16 * 4) _ _ (omega arith) (omega arith) e2 in
    (omega arith, omega arith)

three_bytes :
    (a a' b b' c c' : ℕ) (s t : Bytes)
    → IsByte a
    → IsByte a'
    → IsByte b
    → IsByte b'
    → IsByte c
    → IsByte c'
    → encode (a ∷ b ∷ c ∷ s) ≡ encode (a' ∷ b' ∷ c' ∷ t)
    → (a ≡ a') × (b ≡ b') × (c ≡ c') × (encode s ≡ encode t)
unfolding encode
three_bytes a a' b b' c c' s t ha ha' hb hb' hc hc' e =
    let (p, e1) = same_symbol (a / 4) (a' / 4) _ _ (omega arith) (omega arith) e in
    let (q, e2) =
      same_symbol (a % 4 * 16 + b / 16) (a' % 4 * 16 + b' / 16) _ _ (omega arith) (omega arith)
        e1 in
    let (r, e3) =
      same_symbol (b % 16 * 4 + c / 64) (b' % 16 * 4 + c' / 64) _ _ (omega arith) (omega arith)
        e2 in
    let (u, e4) = same_symbol (c % 64) (c' % 64) _ _ (omega arith) (omega arith) e3 in
    (omega arith, omega arith, omega arith, e4)

-- Two lists of bytes of one length that `encode` writes alike are equal.
pub encode_injective :
    (s t : Bytes) → All IsByte s → All IsByte t → length s ≡ length t → encode s ≡ encode t → s ≡ t
encode_injective [] [] _ _ n e = refl
encode_injective (a ∷ []) (a' ∷ []) (ha, _) (ha', _) n e = ap (λ c. c ∷ []) (one_byte a a' ha ha' e)
encode_injective (a ∷ b ∷ []) (a' ∷ b' ∷ []) (ha, (hb, _)) (ha', (hb', _)) n e =
    let (p, q) = two_bytes a a' b b' ha ha' hb hb' e in cc (p, q)
encode_injective (a ∷ b ∷ c ∷ s) (a' ∷ b' ∷ c' ∷ t) (ha, (hb, (hc, hs))) (ha', (hb', (hc', ht))) n
      e =
    let (p, q, r, e') = three_bytes a a' b b' c c' s t ha ha' hb hb' hc hc' e in
    cc (p, q, r, encode_injective s t hs ht (omega arith) e')
encode_injective [] (b ∷ t) _ _ n e = absurd (omega arith)
encode_injective (a ∷ s) [] _ _ n e = absurd (omega arith)
encode_injective (a ∷ []) (a' ∷ b' ∷ t) _ _ n e = absurd (omega arith)
encode_injective (a ∷ b ∷ s) (a' ∷ []) _ _ n e = absurd (omega arith)
encode_injective (a ∷ b ∷ []) (a' ∷ b' ∷ c' ∷ t) _ _ n e = absurd (omega arith)
encode_injective (a ∷ b ∷ c ∷ s) (a' ∷ b' ∷ []) _ _ n e = absurd (omega arith)
