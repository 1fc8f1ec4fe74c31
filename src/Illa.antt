-- ===== src/Illa.antt =====
-- The codecs of source/deps/illa.
pub mod StringTable
pub mod CodeTable
pub mod SurfaceLock
pub mod Types
pub mod Headers
pub mod Surface
pub mod BmpRle
pub mod Pcx
pub mod Decompress
pub mod TgaRle
pub mod TgaDecoder
pub mod Rotate
pub mod PackBits
