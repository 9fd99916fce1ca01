-- ===== src/Filter.antt =====
-- The search filter of the document server (document-server/src/filter): from the text of a
-- filter expression to its tree, and from the tree to SQL.
pub mod Token
pub mod Number
pub mod Lexer
mod Tests
pub mod Normalizer
pub mod Ast
