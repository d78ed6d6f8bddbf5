-- ===== src/Tests.antt =====
-- The theorems at concrete inputs.
pub mod Samples
mod Recording
mod Relaying
mod Delivering
mod Validating
mod Editing
mod Serving
mod Caching
mod Posting
mod Running
mod Checking
mod Arriving
mod Starting
