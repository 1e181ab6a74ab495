-- ===== src/Book/Progress/Matching/Front.antt =====
-- A round of the loop of `match` on a well-formed book.
use quanta_trader.Common.{
  if◌then◌else◌, ℕ, ◌+◌, ◌<◌, ◌≤◌, ◌≡◌, ◌⊎◌, refl, ◌∙◌, arith, ◌==◌, some, u64_mod, Outcome, done,
  Returns, Returns->>=,
}
use quanta_trader.Common.Maps.{find}
use quanta_trader.Order.{Order, OrderSide, sell, buy, execute}
use quanta_trader.Level
use quanta_trader.Level.{Level, linked}
use quanta_trader.Book.State.{PriceLevelOrderBook, OrderWithLevelIterator}
use quanta_trader.Book.Remove.{delete_order}
use quanta_trader.Book.Match.{settle_front, execute_against, execute_orders}
use quanta_trader.Book.Progress.{activity, type_weight, IsWellFormed, IsProgress}
use quanta_trader.Book.Progress.Reduction
use quanta_trader.Book.Progress.Reduction.{IsSameOrder, IsReduction}
use quanta_trader.Book.Progress.Matching.Settled.{settled-Returns}
use quanta_trader.Book.Progress.Matching.Contract.{Settles}

-- What `executeOrders` returns for an incoming and a resting order.
pub record IsTrade (o r : Order) (b : PriceLevelOrderBook) (o' r' : Order)
    (b' : PriceLevelOrderBook) : Type 0 where
  pub incoming : IsSameOrder o o'
  pub reduction : IsReduction r b r' r'.last_executed_quantity b'
  pub at_price : b'.last_traded_price ≡ r.price
  pub spent : o'.open_quantity + r'.last_executed_quantity ≡ o.open_quantity
  pub filled : (o'.open_quantity ≡ 0) ⊎ (r'.open_quantity ≡ 0)

abbrev pub IsTradeOf :
    Order → Order → PriceLevelOrderBook → Order × Order × PriceLevelOrderBook → Type 0
IsTradeOf o r b (o', r', b') = IsTrade o r b o' r' b'

execute-IsSameOrder :
    (price q : ℕ) (o : Order)
    → q ≤ o.open_quantity
    → o.open_quantity < u64_mod
    → IsSameOrder o (execute price q o)
unfolding execute
execute-IsSameOrder price q o h w = record {
  same_id = refl;
  same_type = refl;
  same_side = refl;
  same_time_in_force = refl;
  same_symbol = refl;
  same_price = refl;
  same_stop_price = refl;
  no_more = omega arith;
}

against_sell :
    (o r : Order) (b : PriceLevelOrderBook)
    → o.side ≡ sell
    → execute_against o r b ≡ execute_orders o r r.price b
unfolding execute_against
against_sell o r b e = ground arith

against_buy :
    (o r : Order) (b : PriceLevelOrderBook)
    → o.side ≡ buy
    → execute_against o r b ≡ (
      (execute_orders r o r.price b).1,
      (execute_orders r o r.price b).0,
      (execute_orders r o r.price b).2,
    )
unfolding execute_against
against_buy o r b e = ground arith

module _ (o r : Order) (b : PriceLevelOrderBook) (word : o.open_quantity < u64_mod)
    (word' : r.open_quantity < u64_mod) where
  pub against-IsTrade : (side : OrderSide) → o.side ≡ side → IsTradeOf o r b (execute_against o r b)
  unfolding execute_orders execute
  against-IsTrade sell e = rw (against_sell o r b e) (record {
    incoming = execute-IsSameOrder r.price _ o (omega arith) word;
    reduction = record {
      resting = execute-IsSameOrder r.price _ r (omega arith) word';
      same_orders = refl;
      same_levels = refl;
      same_symbol = refl;
      taken = omega arith;
    };
    at_price = refl;
    spent = omega arith;
    filled = omega arith;
  })
  against-IsTrade buy e = rw (against_buy o r b e) (record {
    incoming = execute-IsSameOrder r.price _ o (omega arith) word;
    reduction = record {
      resting = execute-IsSameOrder r.price _ r (omega arith) word';
      same_orders = refl;
      same_levels = refl;
      same_symbol = refl;
      taken = omega arith;
    };
    at_price = refl;
    spent = omega arith;
    filled = omega arith;
  })

-- What a round leaves: the incoming order is spent, or the book has lost some activity.
pub record IsRound (o : Order) (b : PriceLevelOrderBook) (o' : Order) (b' : PriceLevelOrderBook)
    : Type 0 where
  pub well_formed : IsWellFormed b'
  pub progress : IsProgress b b'
  pub same_order : IsSameOrder o o'
  pub ends : (o'.open_quantity ≡ 0) ⊎ (activity b' < activity b)

module _ {bound : ℕ} {activate : PriceLevelOrderBook → Outcome PriceLevelOrderBook}
    (nested : Settles bound activate) (b : PriceLevelOrderBook) (w : IsWellFormed b)
    (small : activity b ≤ bound) (i : ℕ) (e : OrderWithLevelIterator) (level : Level)
    (stored : find i b.orders ≡ some e)
    (at_level : find e.level_it.price (b.levels e.level_it.levels) ≡ some level)
    (light : type_weight e.order.type ≡ 1) (o o' r' : Order) (b' : PriceLevelOrderBook)
    (trade : IsTrade o e.order b o' r' b') where
  abbrev RoundResult : Order × PriceLevelOrderBook → Type 0
  RoundResult t = IsRound o b t.0 t.1

  settle_front_one : Returns (settle_front activate e.level_it level i e (o', r', b')) RoundResult
  unfolding settle_front Level.reduce_volume
  settle_front_one =
      let d = trade.reduction in
      let amount = r'.last_executed_quantity in
      rw (Reduction.settled_volume b w i e level stored at_level r' amount b' d) (
        Returns->>= RoundResult
          (if r'.open_quantity == 0
            then delete_order activate r'.id
                (Reduction.settled b w i e level stored at_level r' amount b' d)
            else done (Reduction.settled b w i e level stored at_level r' amount b' d))
          (λ b₄. done (o', b₄))
          (settled-Returns nested b w small i e level stored at_level r' amount b' d r'.id
            (d.resting.same_id ∙ (w.sound.filed i e stored).same_id))
          λ b₄ s. record {
            well_formed = s.well_formed;
            progress = s.progress;
            same_order = trade.incoming;
            ends = ground (arith, trade.filled, s.ends);
          })

-- A round returns: the book is well-formed, and the incoming order is spent or the book has lost
-- some activity.
pub settle_front-Returns :
    {bound : ℕ} {activate : PriceLevelOrderBook → Outcome PriceLevelOrderBook}
    → Settles bound activate
    → (b : PriceLevelOrderBook) → IsWellFormed b
    → activity b ≤ bound
    → (i : ℕ) (e : OrderWithLevelIterator) (level : Level) → find i b.orders ≡ some e
    → find e.level_it.price (b.levels e.level_it.levels) ≡ some level
    → type_weight e.order.type ≡ 1
    → (o : Order) (t : Order × Order × PriceLevelOrderBook) → IsTradeOf o e.order b t
    → Returns (settle_front activate e.level_it level i e t) (λ u. IsRound o b u.0 u.1)
settle_front-Returns nested b w small i e level stored at_level light o (o', r', b') trade =
    settle_front_one nested b w small i e level stored at_level light o o' r' b' trade
