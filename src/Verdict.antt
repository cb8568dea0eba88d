-- ===== src/Verdict.antt =====
-- verdict/: the risk engine.
pub mod Model
pub mod Constants
pub mod Duration
pub mod Probes
pub mod Collect
pub mod Narrow
pub mod Engine
pub mod Reversibility
pub mod Safety
