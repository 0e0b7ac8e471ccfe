-- ===== src/Postgres/Keys.antt =====
-- Unique columns: no two entries of a list of keys are equal.
use mathlib.Core.List.{map, map-append}
use session_analysis_platfor.Prelude.{
  ◌≡◌, refl, ap, Bool, false, ◌&&◌, ◌||◌, List, [], ◌∷◌, ◌++◌, arith, any, update_if, Bytes, str_eq,
}
use session_analysis_platfor.Time.{Time, time_eq}

module _ {ℓ} {K : Type ℓ} (same : K → K → Bool) where
  abbrev pub Distinct : List K → Type 0
  Distinct [] = Unit
  Distinct (k ∷ ks) = (any (same k) ks ≡ false) × Distinct ks

  any-append : (k e : K) (ks : List K) → any (same k) (ks ++ e ∷ []) ≡ any (same k) ks || same k e
  any-append k e [] = ground arith
  any-append k e (j ∷ ks) = ground (arith, any-append k e ks)

  -- one more row, whose key no row has
  pub Distinct-append {κ} :
      {A : Type κ} (key : A → K) (xs : List A) (x : A)
      → Distinct (map key xs)
      → any (λ a. same (key a) (key x)) xs ≡ false
      → Distinct (map key (xs ++ x ∷ []))
  Distinct-append key [] x d h = (refl, tt)
  Distinct-append key (y ∷ ys) x (n, d) h = (
    ground (
      arith,
      ap (any (same (key y))) (map-append key ys (x ∷ [])),
      any-append (key y) (key x) (map key ys),
    ),
    Distinct-append key ys x d (ground arith),
  )

module _ {ℓ κ} {A : Type ℓ} {K : Type κ} (key : A → K) where
  -- an update that leaves the key alone
  pub map-update_if :
      (p : A → Bool) (f : A → A)
      → ((a : A) → key (f a) ≡ key a)
      → (xs : List A) → map key (update_if p f xs) ≡ map key xs
  map-update_if p f same [] = refl
  map-update_if p f same (x ∷ xs) = ground (arith, same x, map-update_if p f same xs)

-- the primary key of `event_raw`
unfoldable pub key_eq : Time × Bytes → Time × Bytes → Bool
key_eq (t, i) (u, j) = time_eq t u && str_eq i j
