-- ===== src/Book/Progress/Matching.antt =====
-- `deleteOrder` and `match` on a well-formed book. The nested call of `activateStopOrders` is known
-- by what it does to books of less activity.
mod Contract
mod Settled
pub mod Front
pub mod Loop
mod Apart
mod Adding
pub use Contract.*
pub use Settled.*
pub use Front.*
pub use Loop.*
pub use Adding.*
