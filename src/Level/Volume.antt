-- ===== src/Level/Volume.antt =====
-- A level is a queue, and its volume is what its orders have open.
use quanta_trader.Common.{ℕ, ◌+◌, ◌<◌, ◌≡◌, none, some, Option, List, [], ◌∷◌, u64_mod}
use quanta_trader.Order.{Order}
use quanta_trader.Level.{Level}

abbrev pub left_open : Option Order → ℕ
left_open none = 0
left_open (some o) = o.open_quantity

-- What the orders of the ids have open together.
abbrev pub open_sum : (ℕ → Option Order) → List ℕ → ℕ
open_sum orders [] = 0
open_sum orders (i ∷ is) = left_open (orders i) + open_sum orders is

-- The volume of the level is what its orders have open together.
pub record HasVolume (orders : ℕ → Option Order) (level : Level) : Type 0 where
  pub volume : level.volume ≡ open_sum orders level.orders
  pub bounded : level.volume < u64_mod

-- The order is stored under its id.
abbrev pub IsStored : (ℕ → Option Order) → Order → Type 0
IsStored orders o = orders o.id ≡ some o
