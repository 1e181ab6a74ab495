-- ===== src/Book/Interface.antt =====
-- The interface of an order book: include/matching/order_book.h.
use quanta_trader.Common.{ℕ, Bool, String, Outcome}
use quanta_trader.Order.{Order}

-- The virtual functions, on states `B` of a book and `Files` of the files.
pub record OrderBook (B Files : Type 0) : Type 0 where
  pub get_symbol_id : B → ℕ
  pub add_order : Order → B → Outcome B
  pub delete_order : ℕ → B → Outcome B
  pub modify_order : ℕ → ℕ → ℕ → B → Outcome B
  pub cancel_order : ℕ → ℕ → B → Outcome B
  pub execute_order_at : ℕ → ℕ → ℕ → B → Outcome B
  pub execute_order : ℕ → ℕ → B → Outcome B
  pub get_best_buy : B → ℕ
  pub get_best_sell : B → ℕ
  pub last_traded_price : B → ℕ
  pub has_order : ℕ → B → Bool
  pub get_order : ℕ → B → Outcome Order
  pub empty : B → Bool
  pub export_order_book : String → B → Files → Files
  pub to_string : B → String
