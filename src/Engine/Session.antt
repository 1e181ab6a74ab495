-- ===== src/Engine/Session.antt =====
-- A client that sends an engine orders for symbols that it has, one after another.
use quanta_trader.Common.{
  ℕ, ◌+◌, ◌≤◌, ◌≡◌, sym, subst, ◌∙◌, arith, true, ◌==◌, ==-eq, Bool-cases, inl, inr, Option-cases,
  some, List, [], ◌∷◌, Outcome, done, fault, out_of_fuel, Returns,
}
use quanta_trader.Common.Maps.{Map, find, put, find-put, contains, contains-put}
use quanta_trader.Order.{Order}
use quanta_trader.Event.{EventHandler}
use quanta_trader.Book.State.{PriceLevelOrderBook}
use quanta_trader.Book.Operations
use quanta_trader.Book.Operations.Accepted.{IsAccepted}
use quanta_trader.Book.Operations.Room.{IsAccepted-HasRoom}
use quanta_trader.Book.Operations.Session.{
  open_total, fuel_for, five-fuel_for, IsNewTo, AreAbsent, AreAbsent-add,
}
use quanta_trader.Book.Operations.Total.{add_order_total}
use quanta_trader.Book.Progress.{activity, activity-attach, IsWellFormed, HasRoom}
use quanta_trader.Engine
use quanta_trader.Engine.{
  Call, Call_map, returned, thrown, faulted, unfinished, Engine, OrderBookHandler, on_book,
  on_handler, store_book,
}
use quanta_trader.Engine.Books.{IsRunning, attach, attach-IsWellFormed}

-- One statement after another; an exception ends both.
abbrev pub and_then : (Engine → Call Engine) → Call Engine → Call Engine
and_then rest (returned e) = rest e
and_then rest (thrown what e) = thrown what e
and_then rest (faulted f) = faulted f
and_then rest unfinished = unfinished

-- One call of `addOrder` for each order.
unfoldable pub submit_all : ℕ → List Order → Engine → Call Engine
submit_all fuel [] e = returned e
submit_all fuel (o ∷ os) e = and_then (submit_all fuel os) (Engine.add_order fuel o e)

-- The call returns, without an exception, and what it returns has the property.
abbrev pub Answers : {S : Type 0} → (S → Type 0) → Call S → Type 0
Answers P (returned s) = P s
Answers P (thrown what s) = ⊥
Answers P (faulted e) = ⊥
Answers P unfinished = ⊥

pub Answers-and_then :
    {P : Engine → Type 0} (Q : Engine → Type 0) (rest : Engine → Call Engine) (c : Call Engine)
    → Answers P c
    → ((e : Engine) → P e → Answers Q (rest e))
    → Answers Q (and_then rest c)
Answers-and_then Q rest (returned e) h k = k e h
Answers-and_then Q rest (thrown what e) h k = absurd h
Answers-and_then Q rest (faulted f) h k = absurd h
Answers-and_then Q rest unfinished h k = absurd h

-- The orders have ids of their own.
abbrev pub AreUnique : List Order → Type 0
AreUnique [] = Unit
AreUnique (o ∷ os) = IsNewTo o.id os × AreUnique os

-- There is a book for the symbol of every order.
abbrev pub AreKnown : List Order → Map PriceLevelOrderBook → Type 0
AreKnown [] m = Unit
AreKnown (o ∷ os) m = (contains o.symbol_id m ≡ true) × AreKnown os m

-- The book of a symbol can take the orders: it does not have them, and has room and fuel for all.
pub record IsOpenTo (fuel : ℕ) (os : List Order) (s : ℕ) (b : PriceLevelOrderBook) : Type 0 where
  pub well_formed : IsWellFormed b
  pub symbol : b.symbol_id ≡ s
  pub room : HasRoom (open_total os) b
  pub absent : AreAbsent os b
  pub enough : activity b + fuel_for os ≤ fuel

-- All books can take the orders, and there is one for each.
pub record AreOpenTo (fuel : ℕ) (os : List Order) (h : OrderBookHandler) : Type 0 where
  pub books :
      (s : ℕ) (b : PriceLevelOrderBook)
      → find s h.symbol_to_order_book ≡ some b
      → IsOpenTo fuel os s b
  pub known : AreKnown os h.symbol_to_order_book

abbrev pub IsServing : ℕ → List Order → Engine → Type 0
IsServing fuel os e = AreOpenTo fuel os e.orderbook_handler

AreKnown-put :
    (s : ℕ) (b : PriceLevelOrderBook) (os : List Order) (m : Map PriceLevelOrderBook)
    → AreKnown os m
    → AreKnown os (put s b m)
AreKnown-put s b [] m h = tt
AreKnown-put s b (o ∷ os) m (here, h) =
    (ground (arith, contains-put o.symbol_id s b m), AreKnown-put s b os m h)

AreAbsent-attach :
    (handler : EventHandler) (b : PriceLevelOrderBook) (os : List Order)
    → AreAbsent os b
    → AreAbsent os (attach handler b)
AreAbsent-attach handler b [] h = tt
AreAbsent-attach handler b (o ∷ os) (here, h) = (here, AreAbsent-attach handler b os h)

module _ {fuel : ℕ} {o : Order} {os : List Order} where
  -- A book that can take the orders can take all but the first.
  IsOpenTo-tail :
      {s : ℕ} {b : PriceLevelOrderBook} → IsOpenTo fuel (o ∷ os) s b → IsOpenTo fuel os s b
  IsOpenTo-tail ready = record {
    well_formed = ready.well_formed;
    symbol = ready.symbol;
    room = record { room = λ is d. omega (arith, ready.room.room is d) };
    absent = ready.absent.1;
    enough = omega (arith, ready.enough);
  }

  -- So can a book that has accepted the first.
  IsAccepted-IsOpenTo :
      (s : ℕ) (handler : EventHandler) (b c : PriceLevelOrderBook)
      → IsNewTo o.id os
      → IsOpenTo fuel (o ∷ os) s b
      → IsAccepted o.id o.open_quantity (attach handler b) c
      → IsOpenTo fuel os s c
  IsAccepted-IsOpenTo s handler b c new ready a = record {
    well_formed = a.well_formed;
    symbol = a.same_symbol ∙ ready.symbol;
    room = IsAccepted-HasRoom a (open_total os) (record { room = ready.room.room });
    absent =
        AreAbsent-add o.id o.open_quantity (attach handler b) c a os new
          (AreAbsent-attach handler b os ready.absent.1);
    enough = omega (arith, a.two_more, activity-attach handler b, ready.enough);
  }

  put-AreOpenTo :
      (s : ℕ) (h : OrderBookHandler) (c : PriceLevelOrderBook)
      → AreOpenTo fuel (o ∷ os) h
      → IsOpenTo fuel os s c
      → AreOpenTo fuel os (record {
        symbol_to_order_book = put s c h.symbol_to_order_book;
        event_handler = c.event_handler;
      })
  put-AreOpenTo s h c ready good = record {
    books = λ t d found. elim (Bool-cases (t == s)) [
      | inl same ↦
          let e : c ≡ d = ground (arith, find-put t s c h.symbol_to_order_book) in
          subst (λ x. IsOpenTo fuel os t x) e
            (subst (λ x. IsOpenTo fuel os x c) (sym (==-eq t s same)) good)
      | inr other ↦
          IsOpenTo-tail (ready.books t d (ground (arith, find-put t s c h.symbol_to_order_book)))
    ];
    known = AreKnown-put s c os h.symbol_to_order_book ready.known.1;
  }

  store_book-AreOpenTo :
      (s : ℕ) (h : OrderBookHandler) (b : PriceLevelOrderBook) (m : Outcome PriceLevelOrderBook)
      → IsNewTo o.id os
      → AreOpenTo fuel (o ∷ os) h
      → IsOpenTo fuel (o ∷ os) s b
      → Returns m (IsAccepted o.id o.open_quantity (attach h.event_handler b))
      → Answers (AreOpenTo fuel os) (store_book s h m)
  store_book-AreOpenTo s h b (done c) new ready free a =
      put-AreOpenTo s h c ready (IsAccepted-IsOpenTo s h.event_handler b c new free a)
  store_book-AreOpenTo s h b (fault f) new ready free a = a
  store_book-AreOpenTo s h b out_of_fuel new ready free a = a

on_handler-Answers :
    (P : OrderBookHandler → Type 0) (call : OrderBookHandler → Call OrderBookHandler) (e : Engine)
    → Answers P (call e.orderbook_handler)
    → Answers (λ e'. P e'.orderbook_handler) (on_handler call e)
on_handler-Answers P call e answers = kept (call e.orderbook_handler) answers
  where
    kept :
        (c : Call OrderBookHandler)
        → Answers P c
        → Answers
            (λ e'. P e'.orderbook_handler)
            (Call_map (λ h. record e { orderbook_handler = h }) c)
    kept (returned h) answers = answers
    kept (thrown what h) answers = answers
    kept (faulted f) answers = answers
    kept unfinished answers = answers

contains-found :
    {V : Type 0} (s : ℕ) (m : Map V) → contains s m ≡ true → (v : V) × (find s m ≡ some v)
contains-found s m h = elim (Option-cases (find s m)) [ inl missing ↦ cc | inr found ↦ found ]

-- The engine accepts the first of the orders, and can take the others.
add_order-Answers :
    (fuel : ℕ) (o : Order) (os : List Order) (e : Engine)
    → IsNewTo o.id os
    → IsServing fuel (o ∷ os) e
    → Answers (IsServing fuel os) (Engine.add_order fuel o e)
unfolding Engine.add_order on_book
add_order-Answers fuel o os e new ready =
    let h = e.orderbook_handler in
    let (b, found) = contains-found o.symbol_id h.symbol_to_order_book ready.known.0 in
    let free = ready.books o.symbol_id b found in
    let b' = attach h.event_handler b in
    let room : HasRoom o.open_quantity b' = record {
      room = λ is d. omega (arith, free.room.room is d);
    } in
    on_handler-Answers (AreOpenTo fuel os) (on_book o.symbol_id (Operations.add_order fuel o)) e (
      rw (found, on_book)
        (store_book-AreOpenTo o.symbol_id h b (Operations.add_order fuel o b') new ready free (
          add_order_total fuel o b' (attach-IsWellFormed h.event_handler b free.well_formed)
            (omega (arith, five-fuel_for os, activity-attach h.event_handler b, free.enough))
            free.absent.0 (sym free.symbol) room)))

AreOpenTo-IsRunning : (fuel : ℕ) (e : Engine) → IsServing fuel [] e → IsRunning e
AreOpenTo-IsRunning fuel e ready = record {
  books = λ s b found. let free = ready.books s b found in (free.well_formed, free.symbol);
}

-- An engine accepts all orders of a list one after another, without an exception, and its books are
-- well-formed after: if the ids are distinct, and for each order there is a book, and every book is
-- well-formed, has none of the orders, room for all open quantities and fuel for all calls.
pub submit_all_total :
    (fuel : ℕ) (os : List Order) (e : Engine)
    → AreUnique os
    → IsServing fuel os e
    → Answers IsRunning (submit_all fuel os e)
unfolding submit_all
submit_all_total fuel [] e unique ready = AreOpenTo-IsRunning fuel e ready
submit_all_total fuel (o ∷ os) e (new, unique) ready =
    Answers-and_then IsRunning (submit_all fuel os) (Engine.add_order fuel o e)
      (add_order-Answers fuel o os e new ready)
      λ e' ready'. submit_all_total fuel os e' unique ready'
