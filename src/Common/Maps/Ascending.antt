-- ===== src/Common/Maps/Ascending.antt =====
-- Maps in strictly ascending order of their keys, as `std::map` keeps them.
use quanta_trader.Common.Tests.{Option-cases}
use quanta_trader.Common.Maps.{Map, find, put, erase, insert_sorted, emplace}
use Prim.Native.Nat.{ℕ, ◌<◌}
use mathlib.Core.Path.{◌≡◌, refl}
use mathlib.Core.Logic.{inl, inr}
use mathlib.Core.Option.{none, some}
use mathlib.Core.List.{[], ◌∷◌}
use native.Mathlib.Omega.{arith}

module _ {ℓ} {V : Type ℓ} where
  -- Every key is larger.
  abbrev pub Above : ℕ → Map V → Type 0
  Above p [] = Unit
  Above p (e ∷ m) = (p < e.0) × Above p m

  abbrev pub IsAscending : Map V → Type 0
  IsAscending [] = Unit
  IsAscending (e ∷ m) = Above e.0 m × IsAscending m

  pub Above-mono : (q p : ℕ) (m : Map V) → q < p → Above p m → Above q m
  Above-mono q p [] h a = tt
  Above-mono q p (e ∷ m) h a = (omega arith, Above-mono q p m h a.1)

  pub Above-find : (p : ℕ) (m : Map V) → Above p m → find p m ≡ none
  unfolding find
  Above-find p [] a = refl
  Above-find p (e ∷ m) a = ground (arith, Above-find p m a.1)

  Above-put : (p k : ℕ) (v w : V) (m : Map V) → find k m ≡ some w → Above p m → Above p (put k v m)
  unfolding find put
  Above-put p k v w [] h a = cc
  Above-put p k v w (e ∷ m) h a = ground (arith, Above-put p k v w m)

  -- A write at a key that is there.
  pub IsAscending-put :
      (k : ℕ) (v w : V) (m : Map V) → find k m ≡ some w → IsAscending m → IsAscending (put k v m)
  unfolding find put
  IsAscending-put k v w [] h a = cc
  IsAscending-put k v w (e ∷ m) h a = ground (arith, IsAscending-put k v w m, Above-put e.0 k v w m)

  Above-erase : (p k : ℕ) (m : Map V) → Above p m → Above p (erase k m)
  unfolding erase
  Above-erase p k [] a = tt
  Above-erase p k (e ∷ m) a = ground (arith, Above-erase p k m a.1)

  pub IsAscending-erase : (k : ℕ) (m : Map V) → IsAscending m → IsAscending (erase k m)
  unfolding erase
  IsAscending-erase k [] a = tt
  IsAscending-erase k (e ∷ m) a = ground (arith, IsAscending-erase k m a.1, Above-erase e.0 k m a.0)

  Above-insert_sorted :
      (p k : ℕ) (v : V) (m : Map V) → p < k → Above p m → Above p (insert_sorted k v m)
  unfolding insert_sorted
  Above-insert_sorted p k v [] h a = (h, tt)
  Above-insert_sorted p k v (e ∷ m) h a = ground (arith, Above-insert_sorted p k v m h a.1)

  IsAscending-insert_sorted :
      (k : ℕ) (v : V) (m : Map V)
      → find k m ≡ none
      → IsAscending m
      → IsAscending (insert_sorted k v m)
  unfolding find insert_sorted
  IsAscending-insert_sorted k v [] h a = (tt, tt)
  IsAscending-insert_sorted k v (e ∷ m) h a =
      ground
        (arith, IsAscending-insert_sorted k v m, Above-insert_sorted e.0 k v m, Above-mono k e.0 m)

  pub IsAscending-emplace :
      (k : ℕ) (v : V) (m : Map V) → IsAscending m → IsAscending (emplace k v m)
  unfolding emplace
  IsAscending-emplace k v m a = elim (Option-cases (find k m)) [
    | inl new ↦ rw (new, emplace) (IsAscending-insert_sorted k v m new a)
    | inr (w, old) ↦ rw (old, emplace) a
  ]
