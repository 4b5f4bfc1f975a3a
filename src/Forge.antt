-- ===== src/Forge.antt =====
-- Forge, the contract compiler (forge/).
pub mod Dependencies
pub mod Graph
pub mod Ir
pub mod Passes
pub mod Migrations
pub mod Naming
pub mod Semantic
