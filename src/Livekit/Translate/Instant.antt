-- ===== src/Livekit/Translate/Instant.antt =====
-- The time of an event, at the bounds of int64.
use session_analysis_platfor.Prelude.{
  ℕ, ◌+◌, ◌-◌, ◌^◌, ◌<◌, ◌≡◌, ◌&&◌, Bool-cases, inl, inr, false, not, arith, ltb,
}
use session_analysis_platfor.Prelude.Int.{pos, negsuc}
use session_analysis_platfor.Time.{zero_time, before, unix, unix_to_internal}
use session_analysis_platfor.Livekit.Payload.{Payload}
use session_analysis_platfor.Livekit.Translate.{occurred_at}

-- the first second that time.Time does not hold
abbrev pub unix_bound : ℕ
unix_bound = 2 ^ 63 - unix_to_internal

unix_within :
    (n : ℕ) → n < unix_bound → unix n ≡ record { sec = pos (n + unix_to_internal); nsec = 0 }
unfolding unix
unix_within n h = ground arith

unix_beyond :
    (n : ℕ)
    → n < 2 ^ 63
    → ltb n unix_bound ≡ false
    → unix n ≡ record { sec = negsuc (2 ^ 64 - 1 - (n + unix_to_internal)); nsec = 0 }
unfolding unix
unix_beyond n h k = ground arith

occurred_at_created : (p : Payload) (n : ℕ) → p.created_at ≡ pos n → 0 < n → occurred_at p ≡ unix n
unfolding occurred_at
occurred_at_created p n e h = ground (arith, e)

-- The events of two deliveries stand in the order of their `createdAt`, if both are positive and
-- less than 2 ^ 63 - 62135596800. A greater one wraps around: its event is before all of these, and
-- before the zero time.
pub occurred_at_order :
    (p q : Payload) (a b : ℕ)
    → p.created_at ≡ pos a
    → q.created_at ≡ pos b
    → 0 < a
    → 0 < b
    → a < unix_bound
    → b < 2 ^ 63
    → (before (occurred_at p) (occurred_at q) ≡ (ltb a b && ltb b unix_bound))
      × (before (occurred_at q) zero_time ≡ not (ltb b unix_bound))
unfolding before
occurred_at_order p q a b ea eb ha hb la lb = elim (Bool-cases (ltb b unix_bound)) [
  | inl k ↦
      rw
        (
          occurred_at_created p a ea ha,
          occurred_at_created q b eb hb,
          unix_within a la,
          unix_within b (ground (arith, k)),
        )
        (ground (arith, k), ground (arith, k))
  | inr k ↦
      rw
        (
          occurred_at_created p a ea ha,
          occurred_at_created q b eb hb,
          unix_within a la,
          unix_beyond b lb k,
        )
        (ground (arith, k), ground (arith, k))
]
