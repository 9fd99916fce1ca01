-- ===== src/Filter/Lexer.antt =====
-- The lexer of document-server/src/filter/filter_lexer.rs: a text to tokens. `Pieces` has the
-- tests and `append_…` helpers, `Condition` reads `ATTR FOP VALUE`, `Expression` the rest; the
-- other modules prove what their runs do.
pub mod Pieces
pub mod Condition
pub mod Expression
pub mod Grammar
pub mod ConditionPhases
pub mod ConditionRounds
pub mod ConditionRuns
pub mod LopexpPieces
pub mod LopexpRuns
pub mod ExpressionRuns
pub mod Runs
