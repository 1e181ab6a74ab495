-- ===== src/Book.antt =====
-- The order book of a symbol, `PriceLevelOrderBook`: include/matching/price_level_order_book.h,
-- include/matching/order_book.h and src/matching/price_level_order_book.cpp.
pub mod State
pub mod Prices
pub mod Insert
pub mod Remove
pub mod Match
pub mod Stops
pub mod Operations
pub mod Waiting
pub mod Sound
pub mod Progress
pub mod Queue
pub mod Interface
