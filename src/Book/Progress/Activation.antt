-- ===== src/Book/Progress/Activation.antt =====
-- `activateStopOrders` on a well-formed book, from the inside out.
mod Trigger
pub mod Rounds
pub use Trigger.*
pub use Rounds.*
