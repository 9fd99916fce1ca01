-- ===== src/Filter/Ast.antt =====
-- The tree of document-server/src/filter/filter_ast.rs, its parser, and its two printers.
pub mod Tree
pub mod Parser
pub mod Denotes
pub mod ParserRuns
pub mod ParserTotal
pub mod ParserSound
