-- ===== src/Files.antt =====
-- The file server (file-server/src/file_delegate.rs): upload, the processing of the blocks, and
-- download.
pub mod Parts
pub mod Environment
pub mod Pool
pub mod Store
pub mod Upload
pub mod Process
pub mod Slides
pub mod Download
pub mod RoundTrip
mod Tests
