-- ===== src/EventId.antt =====
-- internal/ingest/eventid/eventid.go: the identity of a received event.
pub mod Injective
pub mod Decimal
use session_analysis_platfor.Prelude.{
  ℕ, zero, suc, ◌+◌, ◌/◌, ◌%◌, ◌^◌, ◌≡◌, refl, List, [], ◌∷◌, ◌++◌, Bytes, codes, ltb,
  if◌then◌else◌, length,
}
use session_analysis_platfor.Prelude.Int.{ℤ, pos, negsuc, neg64}
use session_analysis_platfor.Time.{Time}
use session_analysis_platfor.Time.Format.{format_rfc3339_nano}

-- The third-party package google/uuid, as far as the program calls it; a UUID is its 16 bytes.
pub record UuidPackage : Type 0 where
  pub must_parse : Bytes → Bytes
  pub new_sha1 : Bytes → Bytes → Bytes
  pub to_string : Bytes → Bytes

abbrev pub scheme : Bytes
scheme = codes "v1"

-- `binary.BigEndian.PutUint32(l[:], uint32(len(f)))`
unfoldable pub put_uint32 : ℕ → Bytes
put_uint32 n = n / 2 ^ 24 % 256 ∷ n / 2 ^ 16 % 256 ∷ n / 2 ^ 8 % 256 ∷ n % 256 ∷ []

-- the capacity that `encode` computes first
unfoldable pub encoded_capacity : List Bytes → ℕ
encoded_capacity [] = 0
encoded_capacity (f ∷ fields) = 4 + length f + encoded_capacity fields

unfoldable pub encode : List Bytes → Bytes
unfolding put_uint32
encode [] = []
encode (f ∷ fields) = put_uint32 (length f % 2 ^ 32) ++ (f ++ encode fields)

-- The local variables of `itoa`: what is left of `n`, the index `i`, and `b[i:]`.
pub record Digits : Type 0 where
  pub left : ℤ
  pub index : ℕ
  pub text : Bytes

-- `for n > 0 { i--; b[i] = byte('0' + n%10); n /= 10 }`; at index 0 the code would panic, and the
-- loop stops with digits left.
unfoldable pub itoa_loop : ℕ → ℕ → Bytes → Digits
itoa_loop zero n text = record { left = pos n; index = 0; text = text }
itoa_loop (suc i) n text =
    let rest = itoa_loop i (n / 10) ((b'0' + n % 10) ∷ text) in
    if ltb 0 n then rest else record { left = pos n; index = suc i; text = text }

-- The loop from the end of the buffer; a negative `n` does not enter it, and is left.
unfoldable pub itoa_digits : ℤ → Digits
itoa_digits (pos n) = itoa_loop 20 n []
itoa_digits (negsuc n) = record { left = negsuc n; index = 20; text = [] }

-- `if neg { n = -n }`
abbrev pub itoa_start : ℤ → ℤ
itoa_start (pos n) = pos n
itoa_start (negsuc n) = neg64 (negsuc n)

unfoldable pub itoa : ℤ → Bytes
unfolding itoa_digits
itoa (pos zero) = codes "0"
itoa (pos (suc n)) = (itoa_digits (itoa_start (pos (suc n)))).text
itoa (negsuc n) = b'-' ∷ (itoa_digits (itoa_start (negsuc n))).text

pub record Fields : Type 0 where
  pub backend : Bytes
  pub event_type : Bytes
  pub room : Bytes
  pub participant_identity : Bytes
  pub participant_sid : Bytes
  pub track_sid : Bytes
  pub occurred_at : Time
  pub delivery_ordinal : ℤ

-- what `FromBackendEventID` encodes
unfoldable pub backend_key : Bytes → Bytes → List Bytes
backend_key backend backend_event_id = scheme ∷ backend ∷ backend_event_id ∷ []

-- what `FromFields` encodes
unfoldable pub fields_key : Fields → List Bytes
fields_key f =
    scheme
    ∷ f.backend
    ∷ f.event_type
    ∷ f.room
    ∷ f.participant_identity
    ∷ f.participant_sid
    ∷ f.track_sid
    ∷ format_rfc3339_nano f.occurred_at
    ∷ itoa f.delivery_ordinal
    ∷ []

module _ (uuid : UuidPackage) where
  unfoldable pub namespace : Bytes
  namespace = uuid.must_parse (codes "6f1d5b0e-4c2a-5f7b-9e83-2d4a1c6b8f30")

  unfoldable pub from_backend_event_id : Bytes → Bytes → Bytes
  from_backend_event_id backend backend_event_id =
      uuid.new_sha1 namespace (encode (backend_key backend backend_event_id))

  unfoldable pub from_fields : Fields → Bytes
  from_fields f = uuid.new_sha1 namespace (encode (fields_key f))

itoa_tests :
    (itoa (pos 1020) ≡ codes "1020") × (itoa (negsuc 6) ≡ codes "-7") × (itoa (pos 0) ≡ codes "0")
unfolding itoa itoa_loop
itoa_tests = (refl, refl, refl)
