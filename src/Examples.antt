-- ===== src/Examples.antt =====
-- The theorems at concrete inputs: a small plant, and packets that a client would send to it.
pub mod Plant
mod Serving
mod Asking
mod Refusing
mod Parts
mod Errors
mod Running
mod Story
mod Helpers
