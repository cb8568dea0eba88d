-- ===== src/Verdict/Safety.antt =====
-- What the engine of verdict/engine.py promises, from a threshold to a whole file.
pub mod Counts
pub mod Migrations
pub mod Bands
pub mod Adjustments
pub mod BaselineFlag
pub mod Created
pub mod Labels
pub mod Observed
pub mod Offline
pub mod Members
pub mod Origins
pub mod Probed
pub mod Refusals
pub mod Relabels
pub mod Rows
pub mod Spelling
pub mod Statements
pub mod Failures
pub mod Scripts
