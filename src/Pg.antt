-- ===== src/Pg.antt =====
-- commons-pg: queries with named parameters, the rows that come back, and transactions.
pub mod Cell
pub mod DataSet
pub mod ParseQuery
pub mod Transaction
mod Tests
