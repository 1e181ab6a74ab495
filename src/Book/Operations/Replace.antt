-- ===== src/Book/Operations/Replace.antt =====
-- `modifyOrder` returns on a well-formed book.
use quanta_trader.Common.{
  ℕ, ◌+◌, ◌≤◌, ◌≡◌, ◌⊎◌, sym, subst, ◌∙◌, inl, inr, arith, false, ◌==◌, none, some, Returns,
  Returns->>=, Returns-mono,
}
use quanta_trader.Common.Maps.{find}
use quanta_trader.Order.{Order, set_id, set_price}
use quanta_trader.Book.State.{PriceLevelOrderBook, OrderWithLevelIterator}
use quanta_trader.Book.Remove
use quanta_trader.Book.Stops.{activate_stop_orders}
use quanta_trader.Book.Operations.{add_order, delete_order, modify_order}
use quanta_trader.Book.Operations.Total.{HasFuel, add_order_total}
use quanta_trader.Book.Progress.{activity, IsWellFormed}
use quanta_trader.Book.Progress.Matching.{delete_order-Returns, weight_pos}
use quanta_trader.Book.Progress.Activation.{activate_stop_orders-Settles}

-- What the replacement of the order `i` by one with the id `j` leaves.
pub record IsReplaced (b : PriceLevelOrderBook) (i j : ℕ) (b' : PriceLevelOrderBook) : Type 0 where
  pub well_formed : IsWellFormed b'
  pub same_symbol : b'.symbol_id ≡ b.symbol_id
  pub none_other : (k : ℕ) → (k == j) ≡ false → find k b.orders ≡ none → find k b'.orders ≡ none
  pub gone : (i == j) ≡ false → find i b'.orders ≡ none
  pub two_more : activity b' ≤ activity b + 2

-- With enough fuel, modifying an order of a well-formed book returns a well-formed book, if the new
-- id is the order's own or is not in the book: the order is gone, unless it keeps its id, and no
-- other order than the one with the new id is new.
pub modify_order_total :
    (fuel i j price : ℕ) (b : PriceLevelOrderBook) (e : OrderWithLevelIterator)
    → IsWellFormed b
    → HasFuel fuel b
    → find i b.orders ≡ some e
    → (j ≡ i) ⊎ (find j b.orders ≡ none)
    → Returns (modify_order fuel i j price b) (IsReplaced b i j)
unfolding modify_order delete_order
modify_order_total fuel i j price b e w enough stored free =
    let order : Order = set_price price (set_id j e.order) in
    let filed = w.sound.filed i e stored in
    rw stored (
      Returns->>= (IsReplaced b i j) (Remove.delete_order (activate_stop_orders fuel) i b) _
        (delete_order-Returns (activate_stop_orders-Settles fuel (activity b) (omega arith)) b
          w.sound w.ascending w.uncrossed i e stored (λ k f h ne. w.live k f h) (omega arith))
        λ b₁ (w₁, p, gone, calm, room).
          let absent : find j b₁.orders ≡ none = elim free [
            | inl same ↦ subst (λ k. find k b₁.orders ≡ none) (sym same) gone
            | inr new ↦ p.none_new j new
          ] in
          Returns->>= (IsReplaced b i j) (add_order fuel order b₁) (activate_stop_orders fuel)
            (add_order_total fuel order b₁ w₁ (omega (arith, p.calmer)) absent
              (filed.same_symbol ∙ sym p.same_symbol) room)
            λ b₂ a.
              Returns-mono (IsReplaced b i j) (activate_stop_orders fuel b₂)
                ((activate_stop_orders-Settles fuel (activity b + 2) (omega arith)).settles b₂
                  a.well_formed (omega (arith, a.two_more, weight_pos e.order.type)))
                λ b₃ (w₃, p₃). record {
                  well_formed = w₃;
                  same_symbol = p₃.same_symbol ∙ a.same_symbol ∙ p.same_symbol;
                  none_other = λ k ne h. p₃.none_new k (a.none_other k ne (p.none_new k h));
                  gone = λ ne. p₃.none_new i (a.none_other i ne gone);
                  two_more = omega (arith, p₃.calmer, a.two_more, p.calmer);
                })
