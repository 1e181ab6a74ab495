-- ===== src/Common/Maps/Extremes.antt =====
-- The first and the last key of a map in ascending order are the least and the greatest.
use quanta_trader.Common.Tests.{is_empty, first, last, ◌==◌, Bool-cases}
use quanta_trader.Common.Maps.{Map, find}
use quanta_trader.Common.Maps.Ascending.{Above, IsAscending}
use Prim.Native.Nat.{ℕ, ◌≤◌, ◌<◌}
use mathlib.Core.Path.{◌≡◌, refl}
use mathlib.Core.Bool.{true}
use mathlib.Core.Logic.{◌≢◌, inl, inr}
use mathlib.Core.Option.{none, some}
use mathlib.Core.List.{[], ◌∷◌}
use native.Mathlib.Omega.{arith}

module _ {ℓ} {V : Type ℓ} where
  -- A key above which all keys lie is below each key that is found.
  pub Above-lt : (p q : ℕ) (v : V) (m : Map V) → Above p m → find q m ≡ some v → p < q
  unfolding find
  Above-lt p q v [] a h = cc
  Above-lt p q v (e ∷ m) a h = ground (arith, Above-lt p q v m a.1)

  pub first-le :
      (m : Map V) (e : ℕ × V) (q : ℕ) (v : V)
      → IsAscending m
      → first m ≡ some e
      → find q m ≡ some v
      → e.0 ≤ q
  unfolding find
  first-le [] e q v a h g = cc
  first-le (x ∷ m) e q v a h g = ground (arith, Above-lt x.0 q v m a.0)

  pub Above-last : (p : ℕ) (m : Map V) (e : ℕ × V) → Above p m → last m ≡ some e → p < e.0
  Above-last p [] e a h = cc
  Above-last p (x ∷ []) e a h = ground arith
  Above-last p (x ∷ y ∷ m) e a h = Above-last p (y ∷ m) e a.1 h

  pub last-ne : (x : ℕ × V) (m : Map V) → last (x ∷ m) ≢ none
  last-ne x [] h = cc
  last-ne x (y ∷ m) h = last-ne y m h

  pub le-last :
      (m : Map V) (e : ℕ × V) (q : ℕ) (v : V)
      → IsAscending m
      → last m ≡ some e
      → find q m ≡ some v
      → q ≤ e.0
  unfolding find
  le-last [] e q v a h g = cc
  le-last (x ∷ []) e q v a h g = ground arith
  le-last (x ∷ y ∷ m) e q v (above, a) h g = elim (Bool-cases (q == x.0)) [
    | inl same ↦ ground (arith, Above-last x.0 (y ∷ m) e above)
    | inr other ↦ le-last (y ∷ m) e q v a h (ground arith)
  ]

  -- A map without a first key is empty.
  pub first-none : (m : Map V) (q : ℕ) → first m ≡ none → find q m ≡ none
  unfolding find
  first-none [] q h = refl
  first-none (x ∷ m) q h = cc

  pub last-none : (m : Map V) (q : ℕ) → last m ≡ none → find q m ≡ none
  unfolding find
  last-none [] q h = refl
  last-none (x ∷ []) q h = cc
  last-none (x ∷ y ∷ m) q h = absurd (last-ne y m h)

  pub first-is_empty : (m : Map V) → first m ≡ none → is_empty m ≡ true
  first-is_empty [] h = refl
  first-is_empty (x ∷ m) h = cc

  pub last-is_empty : (m : Map V) → last m ≡ none → is_empty m ≡ true
  last-is_empty [] h = refl
  last-is_empty (x ∷ m) h = absurd (last-ne x m h)

  pub find-first : (m : Map V) (e : ℕ × V) → first m ≡ some e → find e.0 m ≡ some e.1
  unfolding find
  find-first [] e h = cc
  find-first (x ∷ m) e h = ground arith

  pub find-last : (m : Map V) (e : ℕ × V) → last m ≡ some e → IsAscending m → find e.0 m ≡ some e.1
  unfolding find
  find-last [] e h a = cc
  find-last (x ∷ []) e h a = ground arith
  find-last (x ∷ y ∷ m) e h (above, a) =
      ground (arith, find-last (y ∷ m) e h a, Above-lt x.0 e.0 e.1 (y ∷ m) above)
