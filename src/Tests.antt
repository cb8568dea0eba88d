-- ===== src/Tests.antt =====
-- Runs of the theorems on concrete inputs.
mod Samples
mod Contexts
mod Engine
mod Statements
mod Files
mod Facts
mod Parsing
mod Migrations
mod Documents
mod Catalogs
mod Resolving
mod Canonical
mod Detection
mod Relabels
