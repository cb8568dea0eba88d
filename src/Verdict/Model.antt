-- ===== src/Verdict/Model.antt =====
-- verdict/model.py: what the engine emits.
mod Evidence
mod Tiers
mod Narratives
mod Assessments
mod Counts
pub mod Laws
unfoldable pub use Evidence.*
unfoldable pub use Tiers.*
unfoldable pub use Narratives.*
pub use Assessments.*
unfoldable pub use Counts.*
