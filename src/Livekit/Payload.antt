-- ===== src/Livekit/Payload.antt =====
-- `json.Unmarshal` into the `payload` struct of translate.go: the fields by name, whatever their
-- letters' case; null leaves a text alone and clears a pointer; an object is read into the struct
-- that a pointer already points to.
pub mod Written
use session_analysis_platfor.Prelude.{
  ℕ, ◌-◌, Bool, ◌&&◌, [], ◌∷◌, Option, none, some, Bytes, codes, leb, ◌==◌, if◌then◌else◌, str_eq,
}
use session_analysis_platfor.Prelude.Int.{ℤ, pos}
use session_analysis_platfor.Livekit.Json.{
  Json, null, string, object, Members, end, member, raw, JsonPackage,
}
use session_analysis_platfor.Livekit.JsonNum.{unmarshal_int64}

pub record Room : Type 0 where
  pub sid : Bytes
  pub name : Bytes
  pub creation_time : ℤ

pub record Participant : Type 0 where
  pub sid : Bytes
  pub identity : Bytes
  pub joined_at : ℤ

pub record Track : Type 0 where
  pub sid : Bytes

pub record Payload : Type 0 where
  pub event : Bytes
  pub id : Bytes
  pub created_at : ℤ
  pub room : Option Room
  pub participant : Option Participant
  pub track : Option Track

abbrev pub zero_payload : Payload
zero_payload = record {
  event = [];
  id = [];
  created_at = pos 0;
  room = none;
  participant = none;
  track = none;
}

abbrev zero_room : Room
zero_room = record { sid = []; name = []; creation_time = pos 0 }

abbrev zero_participant : Participant
zero_participant = record { sid = []; identity = []; joined_at = pos 0 }

abbrev zero_track : Track
zero_track = record { sid = [] }

-- A key folded for comparison with the struct's names: ASCII letters in upper case, and the two
-- characters beyond ASCII that fold to such letters, U+017F and U+212A.
fold_ascii : ℕ → ℕ
fold_ascii c = if leb b'a' c && leb c b'z' then c - 32 else c

unfoldable pub fold_name : Bytes → Bytes
unfolding fold_ascii
fold_name (a ∷ b ∷ c ∷ s) =
    let long = b'K' ∷ fold_name s in
    let short = b'S' ∷ fold_name (c ∷ s) in
    let plain = fold_ascii a ∷ fold_name (b ∷ c ∷ s) in
    if (a == 0xe2) && (b == 0x84) && (c == 0xaa)
    then long
    else if (a == 0xc5) && (b == 0xbf)
    then short
    else plain
fold_name (a ∷ b ∷ []) =
    if (a == 0xc5) && (b == 0xbf) then b'S' ∷ [] else fold_ascii a ∷ fold_ascii b ∷ []
fold_name (a ∷ []) = fold_ascii a ∷ []
fold_name [] = []

unfoldable pub is_field : Bytes → Bytes → Bool
is_field key name = str_eq (fold_name key) (fold_name name)

infixl 5 ◌>>=◌
abbrev pub ◌>>=◌ {ℓ κ} : {A : Type ℓ} {B : Type κ} → Option A → (A → Option B) → Option B
none >>= f = none
some a >>= f = f a

abbrev or_new : {A : Type 0} → Option A → A → A
or_new none a = a
or_new (some b) a = b

decode_string : Bytes → Json → Option Bytes
decode_string old (string text s) = some s
decode_string old null = some old
decode_string old _ = none

-- a struct, member by member; any error makes `Unmarshal` fail
decode_members : {S : Type 0} → (Bytes → Json → S → Option S) → Members → S → Option S
decode_members f end s = some s
decode_members f (member key v ms) s = f key v s >>= decode_members f ms

-- a pointer to a struct
decode_pointer :
    {S : Type 0} → (Bytes → Json → S → Option S) → S → Json → Option S → Option (Option S)
decode_pointer f zero null old = some none
decode_pointer f zero (object text ms) old = do
  s ← decode_members f ms (or_new old zero)
  some (some s)
decode_pointer f zero _ old = none

track_field : Bytes → Json → Track → Option Track
track_field key v t =
    if is_field key (codes "sid")
    then (do s ← decode_string t.sid v; some (record t { sid = s }))
    else some t

module _ (json : JsonPackage) where
  room_field : Bytes → Json → Room → Option Room
  room_field key v r =
      if is_field key (codes "sid")
      then (do s ← decode_string r.sid v; some (record r { sid = s }))
      else if is_field key (codes "name")
      then (do s ← decode_string r.name v; some (record r { name = s }))
      else if is_field key (codes "creationTime")
      then (do n ← unmarshal_int64 json (raw v); some (record r { creation_time = n }))
      else some r

  participant_field : Bytes → Json → Participant → Option Participant
  participant_field key v p =
      if is_field key (codes "sid")
      then (do s ← decode_string p.sid v; some (record p { sid = s }))
      else if is_field key (codes "identity")
      then (do s ← decode_string p.identity v; some (record p { identity = s }))
      else if is_field key (codes "joinedAt")
      then (do n ← unmarshal_int64 json (raw v); some (record p { joined_at = n }))
      else some p

  payload_field : Bytes → Json → Payload → Option Payload
  unfolding room_field participant_field
  payload_field key v p =
      if is_field key (codes "event")
      then (do s ← decode_string p.event v; some (record p { event = s }))
      else if is_field key (codes "id")
      then (do s ← decode_string p.id v; some (record p { id = s }))
      else if is_field key (codes "createdAt")
      then (do n ← unmarshal_int64 json (raw v); some (record p { created_at = n }))
      else if is_field key (codes "room")
      then (do r ← decode_pointer room_field zero_room v p.room; some (record p { room = r }))
      else if is_field key (codes "participant")
      then (do
        q ← decode_pointer participant_field zero_participant v p.participant
        some (record p { participant = q }))
      else if is_field key (codes "track")
      then (do t ← decode_pointer track_field zero_track v p.track; some (record p { track = t }))
      else some p

  decode_value : Json → Option Payload
  decode_value null = some zero_payload
  decode_value (object text ms) = decode_members payload_field ms zero_payload
  decode_value _ = none

  -- `json.Unmarshal(body, &p)`; an error is `none`
  unfoldable pub unmarshal : Bytes → Option Payload
  unfolding decode_value payload_field decode_members decode_pointer decode_string track_field
  unmarshal body = do v ← json.parse body; decode_value v
