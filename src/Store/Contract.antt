-- ===== src/Store/Contract.antt =====
-- What the port `Writer` promises of the events: the store is a set of them, to which a successful
-- call adds its event, and which a failed call leaves as it is.
use session_analysis_platfor.Prelude.{
  ◌≡◌, refl, ◌∙◌, Bool, true, false, ◌&&◌, ◌||◌, Bool-cases, inl, inr, Option, none, some, str_eq,
  str_eq_refl, eq_of_str_eq, if◌then◌else◌, arith,
}
use session_analysis_platfor.Time.{time_eq, time_eq_refl, eq_of_time_eq}
use session_analysis_platfor.Session.{Event}
use session_analysis_platfor.Store.{no_result, StoreError, Writer}

-- Events are the same if they have the same time and the same id.
unfoldable pub same_event : Event → Event → Bool
same_event a b = time_eq a.occurred_at b.occurred_at && str_eq a.id b.id

pub both_true : (a b : Bool) → (a && b) ≡ true → (a ≡ true) × (b ≡ true)
both_true a b h = ground arith

pub same_event-false_sym : (a b : Event) → same_event a b ≡ false → same_event b a ≡ false
unfolding same_event
same_event-false_sym a b h = elim (Bool-cases (same_event b a)) [
  | inr n ↦ n
  | inl y ↦
      let (t, i) = both_true (time_eq b.occurred_at a.occurred_at) (str_eq b.id a.id) y in
      let p = eq_of_time_eq b.occurred_at a.occurred_at t in
      let q = eq_of_str_eq b.id a.id i in
      cc (h, p, q, i, t, time_eq_refl a.occurred_at, str_eq_refl a.id)
]

pub same_event-true_sym : (a b : Event) → same_event a b ≡ true → same_event b a ≡ true
same_event-true_sym a b h = elim (Bool-cases (same_event b a)) [
  | inl y ↦ y
  | inr n ↦ let no = same_event-false_sym b a n in cc (h, no)
]

abbrev pub succeeded : Option StoreError → Bool
succeeded none = true
succeeded (some e) = false

-- The set that a state stands for, and what a call makes of it.
pub record EventSet {S : Type 0} (seen : S → Event → Bool) (w : Writer S) : Type 0 where
  pub grows :
      (ev e : Event) (s : S)
      → seen (w.record_event ev s).0 e
        ≡ (if succeeded (w.record_event ev s).2 then same_event ev e || seen s e else seen s e)
  pub repeats :
      (ev : Event) (s : S)
      → seen s ev ≡ true
      → ((w.record_event ev s).0 ≡ s) × ((w.record_event ev s).1 ≡ no_result)

-- an event that is in the set stays in it
pub seen_stays :
    {S : Type 0} (seen : S → Event → Bool) (w : Writer S) (c : EventSet seen w) (ev e : Event)
    (s : S)
    → seen s e ≡ true
    → seen (w.record_event ev s).0 e ≡ true
seen_stays seen w c ev e s h = ground (arith, c.grows ev e s)

pub same_event_refl : (ev : Event) → same_event ev ev ≡ true
unfolding same_event
same_event_refl ev = rw (time_eq_refl ev.occurred_at, str_eq_refl ev.id) refl

pub same_event_trans :
    (a b c : Event) → same_event a b ≡ true → same_event b c ≡ true → same_event a c ≡ true
unfolding same_event
same_event_trans a b c h k =
    let (t, i) = both_true (time_eq a.occurred_at b.occurred_at) (str_eq a.id b.id) h in
    let (u, j) = both_true (time_eq b.occurred_at c.occurred_at) (str_eq b.id c.id) k in
    rw
      (
        eq_of_time_eq a.occurred_at b.occurred_at t ∙ eq_of_time_eq b.occurred_at c.occurred_at u,
        eq_of_str_eq a.id b.id i ∙ eq_of_str_eq b.id c.id j,
        time_eq_refl c.occurred_at,
        str_eq_refl c.id,
      )
      refl
