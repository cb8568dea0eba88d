-- ===== src/Live.antt =====
-- live/: facts read from the target database, and the judgments made from them alone.
mod Facts
pub mod Calibrate
pub mod Resolve
pub mod TypeChange
pub mod Canonical
unfoldable pub use Facts.*
