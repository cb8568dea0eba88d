-- ===== src/Ci/Detect.antt =====
-- ci/detect.py: which of the changed files are migrations.
mod Files
mod Rules
mod Globs
mod Migrations
pub mod Covering
pub mod Matching
pub mod Reporting
pub mod Selection
unfoldable pub use Files.*
unfoldable pub use Rules.*
unfoldable pub use Globs.*
unfoldable pub use Migrations.*
