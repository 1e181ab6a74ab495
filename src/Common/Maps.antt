-- ===== src/Common/Maps.antt =====
-- The maps of the program, as association lists: `unordered_map`, whose order is never used, and
-- `std::map`, which is kept in ascending order of its keys.
pub mod Ascending
pub mod Extremes
use Prim.Native.Nat.{ℕ, ◌+◌, ◌≤◌}
use mathlib.Core.Path.{◌≡◌, refl}
use mathlib.Core.Bool.{Bool, true, false}
use mathlib.Core.Option.{Option, none, some}
use mathlib.Core.List.{List, [], ◌∷◌}
use native.Mathlib.Omega.{arith}
use quanta_trader.Common.Tests.{ltb, ◌==◌, if◌then◌else◌}

abbrev pub Map {ℓ} : Type ℓ → Type ℓ
Map V = List (ℕ × V)

module _ {ℓ} {V : Type ℓ} where
  unfoldable pub find : ℕ → Map V → Option V
  find k [] = none
  find k ((j, v) ∷ m) = if k == j then some v else find k m

  -- `m.find(k) != m.end()`
  abbrev pub contains : ℕ → Map V → Bool
  contains k m = elim (find k m) [ none ↦ false | some _ ↦ true ]

  -- `m[k] = v`, which adds the key if it is new.
  unfoldable pub put : ℕ → V → Map V → Map V
  put k v [] = (k, v) ∷ []
  put k v (e ∷ m) = if k == e.0 then (k, v) ∷ m else e ∷ put k v m

  -- `m.erase(k)`
  unfoldable pub erase : ℕ → Map V → Map V
  erase k [] = []
  erase k (e ∷ m) = let rest = erase k m in if k == e.0 then rest else e ∷ rest

  unfoldable pub insert_sorted : ℕ → V → Map V → Map V
  insert_sorted k v [] = (k, v) ∷ []
  insert_sorted k v (e ∷ m) = if ltb k e.0 then (k, v) ∷ e ∷ m else e ∷ insert_sorted k v m

  -- `m.emplace(k, v)`: nothing changes if the key is there already.
  unfoldable pub emplace : ℕ → V → Map V → Map V
  emplace k v m = elim (find k m) [ none ↦ insert_sorted k v m | some _ ↦ m ]

  pub find-put :
      (j k : ℕ) (v : V) (m : Map V) → find j (put k v m) ≡ (if j == k then some v else find j m)
  unfolding find put
  find-put j k v [] = refl
  find-put j k v (e ∷ m) = ground (arith, find-put j k v m)

  -- Of two writes under a key the second one stays.
  pub put_twice : (k : ℕ) (v w : V) (m : Map V) → put k w (put k v m) ≡ put k w m
  unfolding put
  put_twice k v w [] = ground arith
  put_twice k v w (e ∷ m) = ground (arith, put_twice k v w m)

  pub erase-put : (k : ℕ) (v : V) (m : Map V) → erase k (put k v m) ≡ erase k m
  unfolding put erase
  erase-put k v [] = ground arith
  erase-put k v (e ∷ m) = ground (arith, erase-put k v m)

  -- A write of what is there already.
  pub put_same : (k : ℕ) (v : V) (m : Map V) → find k m ≡ some v → put k v m ≡ m
  unfolding find put
  put_same k v [] h = cc
  put_same k v (e ∷ m) h = ground (arith, put_same k v m)

  pub put-insert_sorted :
      (k : ℕ) (v w : V) (m : Map V)
      → find k m ≡ none
      → put k w (insert_sorted k v m) ≡ insert_sorted k w m
  unfolding find put insert_sorted
  put-insert_sorted k v w [] h = ground arith
  put-insert_sorted k v w (e ∷ m) h = ground (arith, put-insert_sorted k v w m)

  erase_absent : (k : ℕ) (m : Map V) → find k m ≡ none → erase k m ≡ m
  unfolding find erase
  erase_absent k [] h = refl
  erase_absent k (e ∷ m) h = ground (arith, erase_absent k m)

  erase-insert_sorted :
      (k : ℕ) (v : V) (m : Map V) → find k m ≡ none → erase k (insert_sorted k v m) ≡ m
  unfolding find erase insert_sorted
  erase-insert_sorted k v [] h = ground arith
  erase-insert_sorted k v (e ∷ m) h = ground (arith, erase-insert_sorted k v m, erase_absent k m)

  -- What `emplace` added under a new key is what `erase` takes away.
  pub erase-emplace_new :
      (k : ℕ) (v : V) (m : Map V) → find k m ≡ none → erase k (emplace k v m) ≡ m
  unfolding emplace
  erase-emplace_new k v m h = rw (h, emplace) (erase-insert_sorted k v m h)

  pub find-erase : (j k : ℕ) (m : Map V) → find j (erase k m) ≡ (if j == k then none else find j m)
  unfolding find erase
  find-erase j k [] = ground arith
  find-erase j k (e ∷ m) = ground (arith, find-erase j k m)

  find-insert_sorted :
      (j k : ℕ) (v : V) (m : Map V)
      → find k m ≡ none
      → find j (insert_sorted k v m) ≡ (if j == k then some v else find j m)
  unfolding find insert_sorted
  find-insert_sorted j k v [] h = refl
  find-insert_sorted j k v (e ∷ m) h = ground (arith, find-insert_sorted j k v m)

  pub find-emplace_new :
      (j k : ℕ) (v : V) (m : Map V)
      → find k m ≡ none
      → find j (emplace k v m) ≡ (if j == k then some v else find j m)
  unfolding emplace
  find-emplace_new j k v m h = rw (h, emplace) (find-insert_sorted j k v m h)

  pub emplace_new :
      (k : ℕ) (v : V) (m : Map V) → find k m ≡ none → emplace k v m ≡ insert_sorted k v m
  unfolding emplace
  emplace_new k v m h = rw (h, emplace) refl

  pub emplace_old : (k : ℕ) (v w : V) (m : Map V) → find k m ≡ some w → emplace k v m ≡ m
  unfolding emplace
  emplace_old k v w m h = rw (h, emplace)

  pub contains-put :
      (j k : ℕ) (v : V) (m : Map V)
      → contains j (put k v m) ≡ (if j == k then true else contains j m)
  contains-put j k v m = ground (arith, find-put j k v m)

  pub contains-erase :
      (j k : ℕ) (m : Map V) → contains j (erase k m) ≡ (if j == k then false else contains j m)
  contains-erase j k m = ground (arith, find-erase j k m)

-- A measure added up over the values of a map.
module _ {ℓ} {V : Type ℓ} (size : V → ℕ) where
  unfoldable pub sum_by : Map V → ℕ
  sum_by [] = 0
  sum_by (e ∷ m) = size e.1 + sum_by m

  sum_by-erase-le : (k : ℕ) (m : Map V) → sum_by (erase k m) ≤ sum_by m
  unfolding erase sum_by
  sum_by-erase-le k [] = omega arith
  sum_by-erase-le k (e ∷ m) = ground (arith, sum_by-erase-le k m)

  pub sum_by-erase :
      (k : ℕ) (v : V) (m : Map V) → find k m ≡ some v → sum_by (erase k m) + size v ≤ sum_by m
  unfolding find erase sum_by
  sum_by-erase k v [] h = cc
  sum_by-erase k v (e ∷ m) h = ground (arith, sum_by-erase k v m, sum_by-erase-le k m)

  pub sum_by-put :
      (k : ℕ) (v w : V) (m : Map V)
      → find k m ≡ some v
      → sum_by (put k w m) + size v ≡ sum_by m + size w
  unfolding find put sum_by
  sum_by-put k v w [] h = cc
  sum_by-put k v w (e ∷ m) h = ground (arith, sum_by-put k v w m)

  sum_by-insert_sorted :
      (k : ℕ) (v : V) (m : Map V) → sum_by (insert_sorted k v m) ≡ sum_by m + size v
  unfolding insert_sorted sum_by
  sum_by-insert_sorted k v [] = omega arith
  sum_by-insert_sorted k v (e ∷ m) = ground (arith, sum_by-insert_sorted k v m)

  pub sum_by-emplace :
      (k : ℕ) (v : V) (m : Map V) → find k m ≡ none → sum_by (emplace k v m) ≡ sum_by m + size v
  unfolding emplace
  sum_by-emplace k v m h = rw (h, emplace) (sum_by-insert_sorted k v m)
