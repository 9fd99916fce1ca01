-- ===== src/Filter/Normalizer.antt =====
-- The normaliser of document-server/src/filter/filter_normalizer.rs: `N1` takes off doubled
-- parentheses, `N2` marks the conditions, `N3` makes every logical operator binary.
pub mod N1
pub mod N2
pub mod N3
pub mod Delimited
pub mod Backward
pub mod Forward
pub mod Fixed
pub mod Wrapped
mod Tests
