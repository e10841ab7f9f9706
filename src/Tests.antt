-- ===== src/Tests.antt =====
-- The theorems at concrete inputs: a host with fixed answers stands for the libraries.
pub mod InsertionSort
pub mod World
pub mod Errors
pub mod Start
pub mod Uploads
pub mod Lots
pub mod Database
pub mod Total
