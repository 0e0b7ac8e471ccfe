-- ===== src/Strconv/Trim.antt =====
-- `TrimSpace` on a text of graphic ASCII bytes.
use mathlib.Core.List.{map, reverse, reverse-cons, reverse-reverse}
use session_analysis_platfor.Prelude.{
  ℕ, ◌≡◌, refl, ◌≤◌, All, All-append, arith, Bool, true, false, ◌&&◌, List, [], ◌∷◌, none, Bytes,
  any, leb,
}
use session_analysis_platfor.Strconv.{spaces, drop_prefix, drop_any, trim_start, trim_space}

abbrev pub IsGraphic : ℕ → Type 0
IsGraphic c = (33 ≤ c) × (c ≤ 126)

-- a text that a graphic byte may begin
starts_graphic : Bytes → Bool
starts_graphic [] = true
starts_graphic (a ∷ p) = leb 33 a && leb a 126

drop_any_graphic :
    (ps : List Bytes) (c : ℕ) (s : Bytes)
    → any starts_graphic ps ≡ false
    → IsGraphic c
    → drop_any ps (c ∷ s) ≡ none
unfolding drop_any drop_prefix starts_graphic
drop_any_graphic [] c s h g = refl
drop_any_graphic ([] ∷ ps) c s h g = cc h
drop_any_graphic ((a ∷ p) ∷ ps) c s h g = ground (arith, drop_any_graphic ps c s)

trim_start_graphic :
    (ps : List Bytes) (s : Bytes)
    → any starts_graphic ps ≡ false
    → All IsGraphic s
    → trim_start ps s s ≡ s
unfolding trim_start
trim_start_graphic ps [] h g = refl
trim_start_graphic ps (c ∷ s) h (g, gs) = rw (trim_start, drop_any_graphic ps c s h g) refl

All-reverse : (s : Bytes) → All IsGraphic s → All IsGraphic (reverse s)
All-reverse [] gs = tt
All-reverse (c ∷ s) (g, gs) =
    rw (reverse-cons c s) (All-append IsGraphic (reverse s) (c ∷ []) (All-reverse s gs) (g, tt))

no_space_is_graphic :
    (any starts_graphic spaces ≡ false) × (any starts_graphic (map reverse spaces) ≡ false)
unfolding starts_graphic
no_space_is_graphic = (refl, refl)

-- nothing is trimmed from a text of graphic bytes
pub trim_space_graphic : (s : Bytes) → All IsGraphic s → trim_space s ≡ s
unfolding trim_space
trim_space_graphic s gs =
    let first : trim_start spaces s s ≡ s = trim_start_graphic spaces s no_space_is_graphic.0 gs in
    let last =
      trim_start_graphic (map reverse spaces) (reverse s) no_space_is_graphic.1
        (All-reverse s gs) in
    rw (first, last) (reverse-reverse s)
