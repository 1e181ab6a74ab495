-- ===== src/Book/Queue/Ranked.antt =====
-- The best level is the first one of the ranked levels, and writes to it keep the others.
use quanta_trader.Common.{ℕ, ◌≡◌, refl, arith, false, ◌==◌, some, [], ◌∷◌, ◌++◌, first, last}
use quanta_trader.Common.Maps.{Map, find, put, erase}
use quanta_trader.Common.Maps.Ascending.{Above, IsAscending}
use quanta_trader.Common.Maps.Extremes.{Above-lt, Above-last}
use quanta_trader.Order.{OrderSide, sell, buy}
use quanta_trader.Level.{Level}
use quanta_trader.Book.Match.{best_of}
use quanta_trader.Book.Queue.{ranked}

-- The levels of the list are found in the map, at other prices than `p`.
abbrev pub AreOthers : Map Level → ℕ → Map Level → Type 0
AreOthers m p [] = Unit
AreOthers m p (x ∷ r) = (find x.0 m ≡ some x.1) × ((x.0 == p) ≡ false) × AreOthers m p r

AreOthers-append :
    (m : Map Level) (p : ℕ) (r s : Map Level)
    → AreOthers m p r
    → AreOthers m p s
    → AreOthers m p (r ++ s)
AreOthers-append m p [] s h k = k
AreOthers-append m p (x ∷ r) s (f, ne, h) k = (f, ne, AreOthers-append m p r s h k)

-- A smaller key in front hides none of them.
AreOthers-cons :
    (x : ℕ × Level) (m : Map Level) (p : ℕ) (r : Map Level)
    → Above x.0 m
    → AreOthers m p r
    → AreOthers (x ∷ m) p r
unfolding find
AreOthers-cons x m p [] a h = tt
AreOthers-cons x m p (y ∷ r) a (f, ne, h) =
    (ground (arith, Above-lt x.0 y.0 y.1 m a), ne, AreOthers-cons x m p r a h)

AreOthers-Above :
    (p : ℕ) (m r : Map Level)
    → Above p r
    → ((y : ℕ) (l : Level) → find y r ≡ some l → find y m ≡ some l)
    → IsAscending r
    → AreOthers m p r
unfolding find
AreOthers-Above p m [] a sub sorted = tt
AreOthers-Above p m (x ∷ r) (lt, a) sub (above, sorted) = (
  sub x.0 x.1 (ground arith),
  ground arith,
  AreOthers-Above p m r a (λ y l h. sub y l (ground (arith, Above-lt x.0 y l r above))) sorted,
)

-- The best level, before the levels that it is better than.
pub record IsHead (side : OrderSide) (m : Map Level) (p : ℕ) (l : Level) (rest : Map Level)
    : Type 0 where
  pub head : ranked side m ≡ (p, l) ∷ rest
  pub head-put : (l' : Level) → ranked side (put p l' m) ≡ (p, l') ∷ rest
  pub head-erase : ranked side (erase p m) ≡ rest
  pub others : AreOthers m p rest

erase-Above : (p : ℕ) (m : Map Level) → Above p m → erase p m ≡ m
unfolding erase
erase-Above p [] a = refl
erase-Above p (x ∷ m) a = ground (arith, erase-Above p m a.1)

buy-IsHead :
    (m : Map Level) (p : ℕ) (l : Level)
    → first m ≡ some (p, l)
    → IsAscending m
    → (rest : Map Level) × IsHead buy m p l rest
unfolding find put erase
buy-IsHead [] p l h a = cc
buy-IsHead (x ∷ m) p l h (above, a) = (
  m,
  record {
    head = ground arith;
    head-put = λ l'. ground arith;
    head-erase = ground (arith, erase-Above p m);
    others =
        AreOthers-Above p (x ∷ m) m (ground arith)
          (λ y k g. ground (arith, Above-lt x.0 y k m above)) a;
  },
)

sell-IsHead :
    (m : Map Level) (p : ℕ) (l : Level)
    → last m ≡ some (p, l)
    → IsAscending m
    → (rest : Map Level) × IsHead sell m p l rest
unfolding find put erase
sell-IsHead [] p l h a = cc
sell-IsHead (x ∷ []) p l h a = (
  [],
  record {
    head = ground arith;
    head-put = λ l'. ground arith;
    head-erase = ground arith;
    others = tt;
  },
)
sell-IsHead (x ∷ y ∷ m) p l h (above, a) =
    let (rest, t) = sell-IsHead (y ∷ m) p l h a in
    let lt = Above-last x.0 (y ∷ m) (p, l) above h in
    let other : (p == x.0) ≡ false = ground arith in
    (
      rest ++ x ∷ [],
      record {
        head = rw t.head;
        head-put = λ l'. rw (other) (rw (t.head-put l'));
        head-erase = rw (other) (rw t.head-erase);
        others =
            AreOthers-append (x ∷ y ∷ m) p rest (x ∷ [])
              (AreOthers-cons x (y ∷ m) p rest above t.others) (ground arith, ground arith, tt);
      },
    )

-- The best level of a side heads the ranked levels.
pub best_of-IsHead :
    (side : OrderSide) (m : Map Level) (p : ℕ) (l : Level)
    → best_of side m ≡ some (p, l)
    → IsAscending m
    → (rest : Map Level) × IsHead side m p l rest
best_of-IsHead sell m p l h a = sell-IsHead m p l h a
best_of-IsHead buy m p l h a = buy-IsHead m p l h a
