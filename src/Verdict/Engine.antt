-- ===== src/Verdict/Engine.antt =====
-- verdict/engine.py: parsed statements, catalog rows and a snapshot become verdicts.
mod FileStates
mod Locks
mod Contention
mod Thresholds
mod Durations
mod Verdicts
mod Adjust
mod Rows
mod Statement
mod Script
unfoldable pub use FileStates.*
unfoldable pub use Locks.*
unfoldable pub use Contention.*
unfoldable pub use Thresholds.*
unfoldable pub use Durations.*
unfoldable pub use Verdicts.*
unfoldable pub use Adjust.*
unfoldable pub use Rows.*
unfoldable pub use Statement.*
unfoldable pub use Script.*
