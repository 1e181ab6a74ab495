-- ===== src/Engine/Symbols.antt =====
-- The engine's two maps, and what its calls do on a symbol that exists or does not.
use quanta_trader.Common.{
  ℕ, String, ◌≡◌, refl, sym, ◌∙◌, arith, some, List, [], ◌∷◌, true, Outcome, done, fault,
  out_of_fuel, Option-cases, inl, inr,
}
use quanta_trader.Common.Maps.{Map, find, put, erase, contains, contains-put, contains-erase}
use quanta_trader.Order.{Order}
use quanta_trader.Event.{EventHandler}
use quanta_trader.Book.State.{PriceLevelOrderBook}
use quanta_trader.Engine.{
  Call, returned, thrown, faulted, unfinished, Engine, OrderBookHandler, add_order_book,
  delete_order_book, on_book, on_handler, store_book, already_exists, does_not_exist, erase_symbol,
  new_engine,
}
use quanta_trader.Engine

-- The engine has a name for exactly the symbols that have an order book.
abbrev pub IsPaired : Engine → Type 0
IsPaired e =
    (s : ℕ) → contains s e.symbol_id_to_symbol ≡ contains s e.orderbook_handler.symbol_to_order_book

-- What a call leaves behind, whether it returns or throws, has the property; a call that faults or
-- runs out of fuel leaves nothing.
abbrev pub Leaves : {S : Type 0} → (S → Type 0) → Call S → Type 0
Leaves P (returned s) = P s
Leaves P (thrown what s) = P s
Leaves P (faulted e) = Unit
Leaves P unfinished = Unit

module _ {V W : Type 0} (s : ℕ) (m : Map V) (n : Map W) where
  put-paired :
      (v : V) (w : W)
      → ((t : ℕ) → contains t m ≡ contains t n)
      → (t : ℕ) → contains t (put s v m) ≡ contains t (put s w n)
  put-paired v w p t = ground (arith, contains-put t s v m, contains-put t s w n, p t)

  put_known-paired :
      (v : V)
      → contains s n ≡ true
      → ((t : ℕ) → contains t m ≡ contains t n)
      → (t : ℕ) → contains t (put s v m) ≡ contains t n
  put_known-paired v known p t = ground (arith, contains-put t s v m, p t, p s)

  erase-paired :
      ((t : ℕ) → contains t m ≡ contains t n)
      → (t : ℕ) → contains t (erase s m) ≡ contains t (erase s n)
  erase-paired p t = ground (arith, contains-erase t s m, contains-erase t s n, p t)

known-contains : {V : Type 0} (s : ℕ) (m : Map V) {v : V} → find s m ≡ some v → contains s m ≡ true
known-contains s m e = rw (e, contains)

-- `addSymbol` keeps the pairing, also when it throws because the symbol exists.
add_symbol-IsPaired :
    (s : ℕ) (name : String) (e : Engine) → IsPaired e → Leaves IsPaired (Engine.add_symbol s name e)
unfolding Engine.add_symbol add_order_book
add_symbol-IsPaired s name e p =
    elim (Option-cases (find s e.orderbook_handler.symbol_to_order_book)) [
      | inl fresh ↦
          rw (fresh, Engine.add_symbol, add_order_book, on_handler, Leaves)
            (put-paired s e.symbol_id_to_symbol e.orderbook_handler.symbol_to_order_book _ _ p)
      | inr (b, known) ↦
          rw (known, Engine.add_symbol, add_order_book, on_handler, Leaves)
            (put_known-paired s e.symbol_id_to_symbol e.orderbook_handler.symbol_to_order_book _
              (known-contains s _ known) p)
    ]

delete_symbol-IsPaired :
    (s : ℕ) (e : Engine) → IsPaired e → Leaves IsPaired (Engine.delete_symbol s e)
unfolding Engine.delete_symbol delete_order_book
delete_symbol-IsPaired s e p = elim (Option-cases (find s e.symbol_id_to_symbol)) [
  | inl missing ↦ rw (missing, Engine.delete_symbol, Leaves) p
  | inr (symbol, named) ↦ elim (Option-cases (find s e.orderbook_handler.symbol_to_order_book)) [
    | inl fresh ↦ rw (named, fresh, Engine.delete_symbol, delete_order_book, on_handler, Leaves) p
    | inr (b, known) ↦
        rw (named, known, Engine.delete_symbol, delete_order_book, on_handler, Leaves)
          (erase-paired s e.symbol_id_to_symbol e.orderbook_handler.symbol_to_order_book p)
  ]
]

store_book-IsPaired :
    (s : ℕ) (m : Outcome PriceLevelOrderBook) (e : Engine)
    → contains s e.orderbook_handler.symbol_to_order_book ≡ true
    → IsPaired e
    → Leaves IsPaired (on_handler (λ h. store_book s h m) e)
store_book-IsPaired s (done b) e known p = λ t. sym (
    put_known-paired s e.orderbook_handler.symbol_to_order_book e.symbol_id_to_symbol b
      (p s ∙ known) (λ t. sym (p t)) t)
store_book-IsPaired s (fault f) e known p = tt
store_book-IsPaired s out_of_fuel e known p = tt

on_book-IsPaired :
    (s : ℕ) (operation : PriceLevelOrderBook → Outcome PriceLevelOrderBook) (e : Engine)
    → IsPaired e
    → Leaves IsPaired (on_handler (on_book s operation) e)
unfolding on_book
on_book-IsPaired s operation e p =
    elim (Option-cases (find s e.orderbook_handler.symbol_to_order_book)) [
      | inl missing ↦ rw (missing, on_book, on_handler, Leaves) p
      | inr (b, known) ↦
          rw (known, on_book) (store_book-IsPaired s _ e (known-contains s _ known) p)
    ]

-- A client's call of the engine.
pub data Request : Type 0 where
  add_symbol : ℕ → String → Request
  delete_symbol : ℕ → Request
  add_order : Order → Request
  delete_order : ℕ → ℕ → Request
  cancel_order : ℕ → ℕ → ℕ → Request
  modify_order : ℕ → ℕ → ℕ → ℕ → Request
  execute_order_at : ℕ → ℕ → ℕ → ℕ → Request
  execute_order : ℕ → ℕ → ℕ → Request

unfoldable pub serve : ℕ → Request → Engine → Call Engine
serve fuel (add_symbol s name) = Engine.add_symbol s name
serve fuel (delete_symbol s) = Engine.delete_symbol s
serve fuel (add_order o) = Engine.add_order fuel o
serve fuel (delete_order s i) = Engine.delete_order fuel s i
serve fuel (cancel_order s i q) = Engine.cancel_order fuel s i q
serve fuel (modify_order s i j price) = Engine.modify_order fuel s i j price
serve fuel (execute_order_at s i q price) = Engine.execute_order_at fuel s i q price
serve fuel (execute_order s i q) = Engine.execute_order fuel s i q

serve-IsPaired :
    (fuel : ℕ) (r : Request) (e : Engine) → IsPaired e → Leaves IsPaired (serve fuel r e)
unfolding serve Engine.add_order Engine.delete_order Engine.cancel_order Engine.modify_order
    Engine.execute_order_at Engine.execute_order
serve-IsPaired fuel (add_symbol s name) e p = add_symbol-IsPaired s name e p
serve-IsPaired fuel (delete_symbol s) e p = delete_symbol-IsPaired s e p
serve-IsPaired fuel (add_order o) e p = on_book-IsPaired o.symbol_id _ e p
serve-IsPaired fuel (delete_order s i) e p = on_book-IsPaired s _ e p
serve-IsPaired fuel (cancel_order s i q) e p = on_book-IsPaired s _ e p
serve-IsPaired fuel (modify_order s i j price) e p = on_book-IsPaired s _ e p
serve-IsPaired fuel (execute_order_at s i q price) e p = on_book-IsPaired s _ e p
serve-IsPaired fuel (execute_order s i q) e p = on_book-IsPaired s _ e p

-- A client that makes one call after another, and goes on after an exception.
abbrev go_on : (Engine → Call Engine) → Call Engine → Call Engine
go_on rest (returned e) = rest e
go_on rest (thrown what e) = rest e
go_on rest (faulted f) = faulted f
go_on rest unfinished = unfinished

pub serve_all : ℕ → List Request → Engine → Call Engine
serve_all fuel [] e = returned e
serve_all fuel (r ∷ rs) e = go_on (serve_all fuel rs) (serve fuel r e)

go_on-Leaves :
    (P : Engine → Type 0) (rest : Engine → Call Engine) (c : Call Engine)
    → ((e : Engine) → P e → Leaves P (rest e))
    → Leaves P c
    → Leaves P (go_on rest c)
go_on-Leaves P rest (returned e) k h = k e h
go_on-Leaves P rest (thrown what e) k h = k e h
go_on-Leaves P rest (faulted f) k h = tt
go_on-Leaves P rest unfinished k h = tt

serve_all-IsPaired :
    (fuel : ℕ) (rs : List Request) (e : Engine) → IsPaired e → Leaves IsPaired (serve_all fuel rs e)
unfolding serve_all
serve_all-IsPaired fuel [] e p = p
serve_all-IsPaired fuel (r ∷ rs) e p =
    go_on-Leaves IsPaired (serve_all fuel rs) (serve fuel r e) (serve_all-IsPaired fuel rs)
      (serve-IsPaired fuel r e p)

-- Whatever calls a client makes of a new engine, exceptions included, the engine it is left with has
-- names for exactly the symbols that have an order book.
pub serve_all-new_engine :
    (fuel : ℕ) (rs : List Request) (handler : EventHandler)
    → Leaves IsPaired (serve_all fuel rs (new_engine handler))
unfolding new_engine find
serve_all-new_engine fuel rs handler = serve_all-IsPaired fuel rs (new_engine handler) (λ s. refl)
