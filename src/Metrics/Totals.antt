-- ===== src/Metrics/Totals.antt =====
-- What the instruments have summed up, and the attributes that they were given.
use session_analysis_platfor.Prelude.{
  ℕ, ◌+◌, ◌≡◌, refl, ap, List, [], ◌∷◌, ◌++◌, arith, Bytes, if◌then◌else◌,
}
use session_analysis_platfor.Metrics.{Ingest, Instrument, Measurement, same_instrument, add}

sum_of : Instrument → List Measurement → ℕ
sum_of i [] = 0
sum_of i (m ∷ ms) = (if same_instrument i m.instrument then m.value else 0) + sum_of i ms

sum_of-append :
    (i : Instrument) (ms : List Measurement) (m : Measurement)
    → sum_of i (ms ++ m ∷ [])
      ≡ sum_of i ms + (if same_instrument i m.instrument then m.value else 0)
unfolding sum_of
sum_of-append i [] m = omega arith
sum_of-append i (n ∷ ms) m = omega (arith, sum_of-append i ms m)

-- an instrument's total
pub total : Instrument → Ingest → ℕ
total i m = sum_of i m.measurements

pub total-add :
    (i j : Instrument) (n : ℕ) (attrs : List (Bytes × Bytes)) (m : Ingest)
    → total i (add j n attrs m) ≡ total i m + (if same_instrument i j then n else 0)
unfolding total add
total-add i j n attrs m = sum_of-append i m.measurements _

attributes_in : Instrument → List Measurement → List (List (Bytes × Bytes))
attributes_in i [] = []
attributes_in i (m ∷ ms) =
    if same_instrument i m.instrument then m.attributes ∷ attributes_in i ms else attributes_in i ms

-- the attributes that an instrument was given, in order
pub attributes_of : Instrument → Ingest → List (List (Bytes × Bytes))
attributes_of i m = attributes_in i m.measurements

attributes_in-append :
    (i : Instrument) (ms : List Measurement) (m : Measurement)
    → attributes_in i (ms ++ m ∷ []) ≡ (
        if same_instrument i m.instrument
        then attributes_in i ms ++ m.attributes ∷ []
        else attributes_in i ms)
unfolding attributes_in
attributes_in-append i [] m = refl
attributes_in-append i (n ∷ ms) m = ground (arith, attributes_in-append i ms m)

pub attributes_of-add :
    (i j : Instrument) (n : ℕ) (attrs : List (Bytes × Bytes)) (m : Ingest)
    → attributes_of i (add j n attrs m)
      ≡ (if same_instrument i j then attributes_of i m ++ attrs ∷ [] else attributes_of i m)
unfolding attributes_of add
attributes_of-add i j n attrs m = attributes_in-append i m.measurements _

-- no measurement, no total
pub total-zero : (i : Instrument) (m : Ingest) → m.measurements ≡ [] → total i m ≡ 0
unfolding total sum_of
total-zero i m h = ap (sum_of i) h
