-- ===== src/Orz.antt =====
-- source/deps/orz: the library of bit streams and file streams.
pub mod StreamConverter
pub mod BitConvert
pub mod Geom
pub mod FileReader
pub mod Threadpool
