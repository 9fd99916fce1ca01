-- ===== src/Search.antt =====
-- The search engine of the document server (document-server/src/engine/generator.rs): from the tree
-- of a filter to the SQL query.
pub mod TagType
pub mod Conditions
pub mod Columns
pub mod Query
mod Tests
