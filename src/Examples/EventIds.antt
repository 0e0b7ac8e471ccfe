-- ===== src/Examples/EventIds.antt =====
-- The event ids at concrete fields, with a stand-in for SHA-1 that gives its input back.
use session_analysis_platfor.Prelude.{◌≡◌, ap, refl, ◌≤◌, arith, All, codes, [], some}
use session_analysis_platfor.Prelude.Int.{pos, negsuc}
use session_analysis_platfor.EventId.{UuidPackage, Fields, itoa, itoa_digits, itoa_start}
use session_analysis_platfor.Strconv.{parse_int}
use session_analysis_platfor.EventId.Decimal.{itoa_in_bounds}
use session_analysis_platfor.Time.Format.Injective.{IsCivil}
use session_analysis_platfor.EventId.Injective.{IsShort, texts, from_fields_injective}
use session_analysis_platfor.Examples.Data.{second}

abbrev plain_uuid : UuidPackage
plain_uuid = record { must_parse = λ s. s; new_sha1 = λ ns text. text; to_string = λ s. s }

abbrev alice_joined : Fields
alice_joined = record {
  backend = codes "livekit";
  event_type = codes "participant_joined";
  room = codes "standup";
  participant_identity = codes "alice";
  participant_sid = codes "PA_1";
  track_sid = [];
  occurred_at = second 100;
  delivery_ordinal = pos 2;
}

alice_joined-IsShort : All IsShort (texts alice_joined)
alice_joined-IsShort =
    (omega arith, (omega arith, (omega arith, (omega arith, (omega arith, (omega arith, tt))))))

second_100-IsCivil : IsCivil (second 100)
second_100-IsCivil = record {
  seconds = 63842774500;
  since_year_1 = refl;
  before_year_10000 = omega arith;
  nanoseconds = omega arith;
}

from_fields_injective_example : alice_joined ≡ alice_joined
from_fields_injective_example =
    from_fields_injective plain_uuid alice_joined alice_joined alice_joined-IsShort
      alice_joined-IsShort second_100-IsCivil second_100-IsCivil (omega arith) (omega arith)
      (λ e. e) refl

-- the least int64 but one, with 19 digits
itoa_in_bounds_example :
    ((itoa_digits (itoa_start (negsuc 9223372036854775806))).left ≡ pos 0)
    × (1 ≤ (itoa_digits (itoa_start (negsuc 9223372036854775806))).index)
    × (parse_int (itoa (negsuc 9223372036854775806)) ≡ some (negsuc 9223372036854775806))
itoa_in_bounds_example = itoa_in_bounds (negsuc 9223372036854775806) (omega arith) (λ e.
    let m : 9223372036854775806 ≡ 9223372036854775807 =
      ap (λ z. elim z [ pos n ↦ n | negsuc n ↦ n ]) e in
    omega (arith, m))
