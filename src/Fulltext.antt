-- ===== src/Fulltext.antt =====
-- The full text index of the document server: `Tokenizer` cuts a text into words, and `TsVector`
-- replaces the lexemes of a PostgreSQL `tsvector` by keyed hashes.
pub mod Tokenizer
pub mod TsVector
mod Tests
