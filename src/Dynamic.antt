-- ===== src/Dynamic.antt =====
-- runtime_macro_dynamic.c: the RAM-only dynamic slots with one shared staging buffer and one delayable
-- work item for their time to live. Times are uptimes in ms; an operation reads the clock as often as
-- it likes within one millisecond, so it takes one time. The mutex makes each operation one step.
mod Defs
pub mod Slots
unfoldable pub use Defs.*
pub mod Execute
pub mod Invariant
pub mod Expiry
pub mod Append
pub mod History
pub mod Consume
pub mod Receive
pub mod Upload
