-- ===== src/Tests.antt =====
-- The theorems at concrete inputs, over a small stand-in for the external packages.
pub mod Toy
mod Members
mod Commands
mod Configs
mod Controls
mod Running
