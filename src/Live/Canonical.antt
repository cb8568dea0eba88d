-- ===== src/Live/Canonical.antt =====
-- The canonical serialisation of live/model.py: a snapshot becomes plain JSON, and one text.
mod Values
mod Normalize
mod Escape
mod Numbers
mod Print
mod Order
pub mod Plain
mod Snapshot
mod Reading
mod Pieces
mod Leads
pub mod Injective
pub mod Sorting
pub mod Accepted
pub mod Complete
unfoldable pub use Values.*
unfoldable pub use Normalize.*
unfoldable pub use Escape.*
unfoldable pub use Numbers.*
unfoldable pub use Print.*
unfoldable pub use Order.*
unfoldable pub use Snapshot.*
