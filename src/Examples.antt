-- ===== src/Examples.antt =====
-- Runs of the model at concrete inputs.
pub mod Queue
pub mod Frames
pub mod Handling
pub mod Connecting
pub mod Boxed
mod Echo
mod Requests
mod Serving
mod Upgrading
mod Sending
pub mod Requesting
pub mod Whole
mod Courses
mod Branching
mod Early
mod Sampling
mod Interleaving
