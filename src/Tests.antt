-- ===== src/Tests.antt =====
-- Runs of the definitions at concrete inputs, and the theorems applied to them.
mod Cache
mod Orz
mod Decoding
mod Packed
mod Codes
mod Locks
mod Shapes
mod Settings
mod Files
mod Surfaces
mod Worker
mod Pool
mod Pictures
