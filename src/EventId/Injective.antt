-- ===== src/EventId/Injective.antt =====
-- `encode` and the two derivations of an event id, as functions of their fields.
use session_analysis_platfor.Prelude.{
  ℕ, ◌%◌, ◌^◌, ◌<◌, ◌≡◌, refl, ◌≢◌, List, [], ◌∷◌, ◌++◌, arith, Bytes, length, All,
}
use session_analysis_platfor.Prelude.Int.{IsInt64}
use session_analysis_platfor.Time.Format.{append_split, length-format_rfc3339_nano}
use session_analysis_platfor.Time.Format.Injective.{IsCivil, format_rfc3339_nano_injective}
use session_analysis_platfor.EventId.Decimal.{length-itoa, itoa_injective}
use session_analysis_platfor.EventId.{
  UuidPackage, Fields, put_uint32, encode, backend_key, fields_key, namespace,
  from_backend_event_id, from_fields,
}

abbrev pub IsShort : Bytes → Type 0
IsShort f = length f < 2 ^ 32

put_uint32_injective :
    (m n : ℕ) (r s : Bytes)
    → m < 2 ^ 32
    → n < 2 ^ 32
    → put_uint32 m ++ r ≡ put_uint32 n ++ s
    → (m ≡ n) × (r ≡ s)
unfolding put_uint32
put_uint32_injective m n r s hm hn e = ground arith

-- No two different lists of fields, each shorter than 2 ^ 32 bytes, have one encoding.
pub encode_injective :
    (fs gs : List Bytes) → All IsShort fs → All IsShort gs → encode fs ≡ encode gs → fs ≡ gs
unfolding encode
encode_injective [] [] _ _ e = refl
encode_injective [] (g ∷ gs) _ _ e = unfold put_uint32 in cc
encode_injective (f ∷ fs) [] _ _ e = unfold put_uint32 in cc
encode_injective (f ∷ fs) (g ∷ gs) (hf, hfs) (hg, hgs) e =
    let (n, rest) =
      put_uint32_injective (length f % 2 ^ 32) (length g % 2 ^ 32) _ _ (omega arith) (omega arith)
        e in
    let (same, tail) = append_split f g (encode fs) (encode gs) (omega arith) rest in
    cc (same, encode_injective fs gs hfs hgs tail)

-- the six texts among the fields
abbrev pub texts : Fields → List Bytes
texts f =
    f.backend ∷ f.event_type ∷ f.room ∷ f.participant_identity ∷ f.participant_sid ∷ f.track_sid
    ∷ []

-- the fallback's fields are short where its texts are
fields_key-IsShort : (f : Fields) → All IsShort (texts f) → All IsShort (fields_key f)
unfolding fields_key
fields_key-IsShort f (b, (e, (r, (i, (p, (t, u)))))) = (
  omega arith,
  (
    b,
    (
      e,
      (
        r,
        (
          i,
          (
            p,
            (
              t,
              (
                omega (arith, length-format_rfc3339_nano f.occurred_at),
                (omega (arith, length-itoa f.delivery_ordinal), tt),
              ),
            ),
          ),
        ),
      ),
    ),
  ),
)

-- the fields are told by the texts that are encoded
fields_of_key :
    (f g : Fields)
    → fields_key f ≡ fields_key g
    → IsCivil f.occurred_at
    → IsCivil g.occurred_at
    → IsInt64 f.delivery_ordinal
    → IsInt64 g.delivery_ordinal
    → f ≡ g
unfolding fields_key
fields_of_key f g e tf tg of og =
    let t = format_rfc3339_nano_injective f.occurred_at g.occurred_at tf tg (cc e) in
    let n = itoa_injective f.delivery_ordinal g.delivery_ordinal of og (cc e) in cc (e, t, n)

module _ (uuid : UuidPackage) where
  -- what the program relies on of SHA-1: the inputs that it meets do not collide
  abbrev pub NoCollision : List Bytes → List Bytes → Type 0
  NoCollision fs gs =
      uuid.new_sha1 (namespace uuid) (encode fs) ≡ uuid.new_sha1 (namespace uuid) (encode gs)
      → encode fs ≡ encode gs

  -- Two deliveries of one backend's events share an id only if they share the backend and its
  -- event id.
  pub from_backend_event_id_injective :
      (b c i j : Bytes)
      → IsShort b
      → IsShort c
      → IsShort i
      → IsShort j
      → NoCollision (backend_key b i) (backend_key c j)
      → from_backend_event_id uuid b i ≡ from_backend_event_id uuid c j
      → (b ≡ c) × (i ≡ j)
  unfolding from_backend_event_id backend_key
  from_backend_event_id_injective b c i j hb hc hi hj nc e = ground (
    arith,
    encode_injective (backend_key b i) (backend_key c j) (omega arith, (hb, (hi, tt)))
        (omega arith, (hc, (hj, tt))) (nc e),
  )

  -- Two events of a backend without event ids, of the years 1 to 9999 and with texts shorter than
  -- 2 ^ 32 bytes, share an id only if all their fields are equal, their times to the nanosecond.
  pub from_fields_injective :
      (f g : Fields)
      → All IsShort (texts f)
      → All IsShort (texts g)
      → IsCivil f.occurred_at
      → IsCivil g.occurred_at
      → IsInt64 f.delivery_ordinal
      → IsInt64 g.delivery_ordinal
      → NoCollision (fields_key f) (fields_key g)
      → from_fields uuid f ≡ from_fields uuid g
      → f ≡ g
  unfolding from_fields
  from_fields_injective f g hf hg tf tg of og nc e =
      let same =
        encode_injective (fields_key f) (fields_key g) (fields_key-IsShort f hf)
          (fields_key-IsShort g hg) (nc e) in
      fields_of_key f g same tf tg of og

  -- The two ways of deriving an id never meet: whatever the fields, their inputs differ.
  pub from_backend_event_id-ne-from_fields :
      (b i : Bytes) (f : Fields)
      → IsShort b
      → IsShort i
      → All IsShort (texts f)
      → NoCollision (backend_key b i) (fields_key f)
      → from_backend_event_id uuid b i ≢ from_fields uuid f
  unfolding from_fields from_backend_event_id
  from_backend_event_id-ne-from_fields b i f hb hi hf nc e =
      let same =
        encode_injective (backend_key b i) (fields_key f)
          (unfold backend_key in (omega arith, (hb, (hi, tt)))) (fields_key-IsShort f hf) (nc e) in
      unfold fields_key backend_key in cc same
