-- ===== src/Book/Operations/Session.antt =====
-- A client that sends a book one order after another.
use quanta_trader.Common.{
  ℕ, ◌+◌, ◌<◌, ◌≤◌, ◌≡◌, refl, sym, ◌∙◌, arith, false, ◌==◌, List, [], ◌∷◌, u64_mod, none, Outcome,
  done, ◌>>=◌, Returns, Returns->>=,
}
use quanta_trader.Common.Maps.{find}
use quanta_trader.Order.{Order}
use quanta_trader.Event.{EventHandler}
use quanta_trader.Book.State.{PriceLevelOrderBook, new_book}
use quanta_trader.Book.Operations.{add_order}
use quanta_trader.Book.Operations.Total.{add_order_total}
use quanta_trader.Book.Operations.Accepted.{IsAccepted}
use quanta_trader.Book.Operations.Room.{IsAccepted-HasRoom}
use quanta_trader.Book.Progress.{activity, IsWellFormed, HasRoom}
use quanta_trader.Book.Progress.Fresh.{new_book-IsWellFormed}

-- One call of `addOrder` for each order.
unfoldable pub add_orders : ℕ → List Order → PriceLevelOrderBook → Outcome PriceLevelOrderBook
add_orders fuel [] b = done b
add_orders fuel (o ∷ os) b = do b' ← add_order fuel o b; add_orders fuel os b'

abbrev pub open_total : List Order → ℕ
open_total [] = 0
open_total (o ∷ os) = o.open_quantity + open_total os

-- Every call adds two to the activity at most.
abbrev pub fuel_for : List Order → ℕ
fuel_for [] = 5
fuel_for (o ∷ os) = 2 + fuel_for os

pub five-fuel_for : (os : List Order) → 5 ≤ fuel_for os
five-fuel_for [] = omega arith
five-fuel_for (o ∷ os) = omega (arith, five-fuel_for os)

-- No order of the list has the id.
abbrev pub IsNewTo : ℕ → List Order → Type 0
IsNewTo i [] = Unit
IsNewTo i (o ∷ os) = ((o.id == i) ≡ false) × IsNewTo i os

-- The orders have the symbol, and ids of their own.
abbrev pub AreSuited : ℕ → List Order → Type 0
AreSuited s [] = Unit
AreSuited s (o ∷ os) = (o.symbol_id ≡ s) × IsNewTo o.id os × AreSuited s os

-- None of the orders is in the book.
abbrev pub AreAbsent : List Order → PriceLevelOrderBook → Type 0
AreAbsent [] b = Unit
AreAbsent (o ∷ os) b = (find o.id b.orders ≡ none) × AreAbsent os b

pub AreAbsent-add :
    (i q : ℕ) (b b' : PriceLevelOrderBook)
    → IsAccepted i q b b'
    → (os : List Order) → IsNewTo i os
    → AreAbsent os b
    → AreAbsent os b'
AreAbsent-add i q b b' a [] n h = tt
AreAbsent-add i q b b' a (o ∷ os) (other, n) (h, hs) =
    (a.none_other o.id other h, AreAbsent-add i q b b' a os n hs)

add_orders-Returns :
    (s fuel : ℕ) (os : List Order) (b : PriceLevelOrderBook)
    → IsWellFormed b
    → b.symbol_id ≡ s
    → activity b + fuel_for os ≤ fuel
    → HasRoom (open_total os) b
    → AreSuited s os
    → AreAbsent os b
    → Returns (add_orders fuel os b) IsWellFormed
unfolding add_orders
add_orders-Returns s fuel [] b w symbol enough room suited absent = w
add_orders-Returns s fuel (o ∷ os) b w symbol enough room (same, new, suited) (here, absent) =
    let room' : HasRoom o.open_quantity b = record {
      room = λ is d. omega (arith, room.room is d);
    } in
    Returns->>= IsWellFormed (add_order fuel o b) (add_orders fuel os)
      (add_order_total fuel o b w (omega (arith, five-fuel_for os)) here (same ∙ sym symbol) room')
      λ b' a.
        add_orders-Returns s fuel os b' a.well_formed (a.same_symbol ∙ symbol)
          (omega (arith, a.two_more)) (IsAccepted-HasRoom a (open_total os) room) suited
          (AreAbsent-add o.id o.open_quantity b b' a os new absent)

pub AreAbsent-new_book :
    (s : ℕ) (handler : EventHandler) (os : List Order) → AreAbsent os (new_book s handler)
unfolding new_book find
AreAbsent-new_book s handler [] = tt
AreAbsent-new_book s handler (o ∷ os) = (refl, AreAbsent-new_book s handler os)

-- Orders of any types and prices that are sent to a new book, one after another, are all accepted,
-- and leave a well-formed book: if they have the book's symbol and ids of their own, and their open
-- quantities fit in 64 bits together. Fuel of two for each order and five is enough.
pub add_orders_total :
    (s fuel : ℕ) (handler : EventHandler) (os : List Order)
    → AreSuited s os
    → open_total os < u64_mod
    → fuel_for os ≤ fuel
    → Returns (add_orders fuel os (new_book s handler)) IsWellFormed
unfolding new_book
add_orders_total s fuel handler os suited fits enough =
    let (w, calm, room) = new_book-IsWellFormed s handler in
    add_orders-Returns s fuel os (new_book s handler) w refl (omega (arith, calm))
      (room (open_total os) fits) suited (AreAbsent-new_book s handler os)
