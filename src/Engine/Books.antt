-- ===== src/Engine/Books.antt =====
-- All books of an engine stay well-formed.
use quanta_trader.Common.{
  ℕ, ◌≡◌, refl, sym, subst, ◌∙◌, arith, String, Option, none, some, ◌==◌, Bool-cases, ==-eq, inl,
  inr, Option-cases, Outcome, done, fault, out_of_fuel, Returns,
}
use quanta_trader.Common.Maps.{find, put, erase, find-put, find-erase}
use quanta_trader.Event.{EventHandler}
use quanta_trader.Book.State.{PriceLevelOrderBook, new_book}
use quanta_trader.Book.Operations.Total.{HasFuel}
use quanta_trader.Book.Operations.Client
use quanta_trader.Book.Operations.Client.{
  perform, IsAllowed, IsServed, perform-IsServed, uncrossed_best,
}
use quanta_trader.Book.Progress.{activity-attach, IsWellFormed}
use quanta_trader.Book.Progress.Fresh.{new_book-IsWellFormed}
use quanta_trader.Engine
use quanta_trader.Engine.{
  Call, Call_map, returned, thrown, faulted, unfinished, Engine, OrderBookHandler, add_order_book,
  delete_order_book, on_book, on_handler, store_book, erase_symbol, new_engine,
}
use quanta_trader.Engine.Symbols.{Request, serve}

-- Every book is well-formed, and has the symbol under which it stands.
pub record AreSound (h : OrderBookHandler) : Type 0 where
  pub books :
      (s : ℕ) (b : PriceLevelOrderBook)
      → find s h.symbol_to_order_book ≡ some b
      → IsWellFormed b × (b.symbol_id ≡ s)

abbrev pub IsRunning : Engine → Type 0
IsRunning e = AreSound e.orderbook_handler

-- The call returns or throws, and what it leaves behind has the property: nothing faults and no fuel
-- runs out.
abbrev pub Ends : {S : Type 0} → (S → Type 0) → Call S → Type 0
Ends P (returned s) = P s
Ends P (thrown what s) = P s
Ends P (faulted e) = ⊥
Ends P unfinished = ⊥

-- The request that an engine's request is for a book, with the book's symbol.
abbrev pub addressed : Request → Option (ℕ × Client.Request)
addressed (Request.add_symbol s name) = none
addressed (Request.delete_symbol s) = none
addressed (Request.add_order o) = some (o.symbol_id, Client.Request.add_order o)
addressed (Request.delete_order s i) = some (s, Client.Request.delete_order i)
addressed (Request.cancel_order s i q) = some (s, Client.Request.cancel_order i q)
addressed (Request.modify_order s i j price) = some (s, Client.Request.modify_order i j price)
addressed (Request.execute_order_at s i q price) =
    some (s, Client.Request.execute_order_at i q price)
addressed (Request.execute_order s i q) = some (s, Client.Request.execute_order i q)

-- The book with the engine's event handler.
abbrev pub attach : EventHandler → PriceLevelOrderBook → PriceLevelOrderBook
attach handler b = record b { event_handler = handler }

pub attach-IsWellFormed :
    (handler : EventHandler) (b : PriceLevelOrderBook)
    → IsWellFormed b
    → IsWellFormed (attach handler b)
attach-IsWellFormed handler b w = record {
  sound = w.sound;
  ascending = w.ascending;
  uncrossed = w.uncrossed;
  live = w.live;
}

pub attach-HasFuel :
    (handler : EventHandler) (b : PriceLevelOrderBook) (fuel : ℕ)
    → HasFuel fuel b
    → HasFuel fuel (attach handler b)
attach-HasFuel handler b fuel enough = omega (arith, activity-attach handler b)

attach-IsAllowed :
    (handler : EventHandler) (r : Client.Request) (b : PriceLevelOrderBook)
    → IsAllowed r b
    → IsAllowed r (attach handler b)
attach-IsAllowed handler (Client.Request.add_order o) b (new, symbol, room) =
    (new, symbol, record { room = room.room })
attach-IsAllowed handler (Client.Request.delete_order i) b allowed = allowed
attach-IsAllowed handler (Client.Request.modify_order i j price) b allowed = allowed
attach-IsAllowed handler (Client.Request.cancel_order i q) b allowed = allowed
attach-IsAllowed handler (Client.Request.execute_order_at i q price) b allowed = allowed
attach-IsAllowed handler (Client.Request.execute_order i q) b allowed = allowed

put-AreSound :
    (s : ℕ) (b : PriceLevelOrderBook) (h : OrderBookHandler) (handler : EventHandler)
    → AreSound h
    → IsWellFormed b × (b.symbol_id ≡ s)
    → AreSound
        (record { symbol_to_order_book = put s b h.symbol_to_order_book; event_handler = handler })
put-AreSound s b h handler sound good = record {
  books = λ t c found. elim (Bool-cases (t == s)) [
    | inl same ↦
        let e : b ≡ c = ground (arith, find-put t s b h.symbol_to_order_book) in
        subst (λ x. IsWellFormed x × (x.symbol_id ≡ t)) e (good.0, good.1 ∙ sym (==-eq t s same))
    | inr other ↦ sound.books t c (ground (arith, find-put t s b h.symbol_to_order_book))
  ];
}

erase-AreSound :
    (s : ℕ) (h : OrderBookHandler) (handler : EventHandler)
    → AreSound h
    → AreSound
        (record { symbol_to_order_book = erase s h.symbol_to_order_book; event_handler = handler })
erase-AreSound s h handler sound = record {
  books = λ t c found. sound.books t c (ground (arith, find-erase t s h.symbol_to_order_book));
}

on_handler-Ends :
    (call : OrderBookHandler → Call OrderBookHandler) (e : Engine)
    → Ends AreSound (call e.orderbook_handler)
    → Ends IsRunning (on_handler call e)
on_handler-Ends call e ends = kept (call e.orderbook_handler) ends
  where
    kept :
        (c : Call OrderBookHandler)
        → Ends AreSound c
        → Ends IsRunning (Call_map (λ h. record e { orderbook_handler = h }) c)
    kept (returned h) ends = ends
    kept (thrown what h) ends = ends
    kept (faulted f) ends = ends
    kept unfinished ends = ends

new_book-symbol : (s : ℕ) (handler : EventHandler) → (new_book s handler).symbol_id ≡ s
unfolding new_book
new_book-symbol s handler = refl

add_symbol-Ends :
    (s : ℕ) (name : String) (e : Engine) → IsRunning e → Ends IsRunning (Engine.add_symbol s name e)
unfolding Engine.add_symbol add_order_book
add_symbol-Ends s name e sound =
    let h = e.orderbook_handler in
    elim (Option-cases (find s h.symbol_to_order_book)) [
      | inl fresh ↦
          rw (fresh, add_order_book)
            (put-AreSound s (new_book s h.event_handler) h _ sound
              ((new_book-IsWellFormed s h.event_handler).0, new_book-symbol s h.event_handler))
      | inr (b, known) ↦ rw (known, add_order_book) (record { books = sound.books })
    ]

delete_symbol-Ends : (s : ℕ) (e : Engine) → IsRunning e → Ends IsRunning (Engine.delete_symbol s e)
unfolding Engine.delete_symbol delete_order_book
delete_symbol-Ends s e sound =
    let h = e.orderbook_handler in
    elim (Option-cases (find s e.symbol_id_to_symbol)) [
      | inl missing ↦ rw (missing, Engine.delete_symbol) sound
      | inr (symbol, named) ↦ elim (Option-cases (find s h.symbol_to_order_book)) [
        | inl fresh ↦ rw (named, fresh, Engine.delete_symbol, delete_order_book) sound
        | inr (b, known) ↦
            rw (named, known, Engine.delete_symbol, delete_order_book) (erase-AreSound s h _ sound)
      ]
    ]

-- What is asked of a client of the engine: for the book that a request is for, if there is one, fuel
-- and what is asked of a client of the book.
abbrev pub IsReady : ℕ → Option (ℕ × Client.Request) → Engine → Type 0
IsReady fuel none e = Unit
IsReady fuel (some (s, r)) e =
    (b : PriceLevelOrderBook)
    → find s e.orderbook_handler.symbol_to_order_book ≡ some b
    → HasFuel fuel b × IsAllowed r b

store_book-Ends :
    (s : ℕ) (b : PriceLevelOrderBook) (h : OrderBookHandler) (m : Outcome PriceLevelOrderBook)
    → AreSound h
    → b.symbol_id ≡ s
    → Returns m (IsServed b)
    → Ends AreSound (store_book s h m)
store_book-Ends s b h (done b') sound symbol (w, same) =
    put-AreSound s b' h b'.event_handler sound (w, same ∙ symbol)
store_book-Ends s b h (fault f) sound symbol r = r
store_book-Ends s b h out_of_fuel sound symbol r = r

on_book-Ends :
    (fuel s : ℕ) (r : Client.Request) (e : Engine)
    → IsRunning e
    → IsReady fuel (some (s, r)) e
    → Ends IsRunning (on_handler (on_book s (perform fuel r)) e)
unfolding on_book
on_book-Ends fuel s r e sound ready =
    let h = e.orderbook_handler in
    on_handler-Ends (on_book s (perform fuel r)) e
      (elim (Option-cases (find s h.symbol_to_order_book)) [
        | inl missing ↦ rw (missing, on_book) sound
        | inr (b, known) ↦
            let (w, symbol) = sound.books s b known in
            let (enough, allowed) = ready b known in
            let b' = attach h.event_handler b in
            rw (known, on_book)
              (store_book-Ends s b' h (perform fuel r b') sound symbol (
                perform-IsServed fuel r b' (attach-IsWellFormed h.event_handler b w)
                  (attach-HasFuel h.event_handler b fuel enough)
                  (attach-IsAllowed h.event_handler r b allowed)))
      ])

-- Every call of an engine whose books are well-formed returns or throws, if the client does what is
-- asked of it; and it leaves an engine whose books are well-formed, also when it throws.
pub serve_total :
    (fuel : ℕ) (r : Request) (e : Engine)
    → IsRunning e
    → IsReady fuel (addressed r) e
    → Ends IsRunning (serve fuel r e)
unfolding serve perform Engine.add_order Engine.delete_order Engine.cancel_order Engine.modify_order
    Engine.execute_order_at Engine.execute_order
serve_total fuel (Request.add_symbol s name) e sound ready = add_symbol-Ends s name e sound
serve_total fuel (Request.delete_symbol s) e sound ready = delete_symbol-Ends s e sound
serve_total fuel (Request.add_order o) e sound ready =
    on_book-Ends fuel o.symbol_id (Client.Request.add_order o) e sound ready
serve_total fuel (Request.delete_order s i) e sound ready =
    on_book-Ends fuel s (Client.Request.delete_order i) e sound ready
serve_total fuel (Request.cancel_order s i q) e sound ready =
    on_book-Ends fuel s (Client.Request.cancel_order i q) e sound ready
serve_total fuel (Request.modify_order s i j price) e sound ready =
    on_book-Ends fuel s (Client.Request.modify_order i j price) e sound ready
serve_total fuel (Request.execute_order_at s i q price) e sound ready =
    on_book-Ends fuel s (Client.Request.execute_order_at i q price) e sound ready
serve_total fuel (Request.execute_order s i q) e sound ready =
    on_book-Ends fuel s (Client.Request.execute_order i q) e sound ready
