-- ===== src/ImageStore.antt =====
-- internal/imagestore: the uploads of lot images.
pub mod Types
pub mod Host
pub mod Queries
pub mod Trace
pub mod Failures
pub mod Batch
pub mod Extract
pub mod Parts
pub mod Urls
pub mod Upload
pub mod Complete
pub mod Wire
pub mod Service
