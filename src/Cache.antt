-- ===== src/Cache.antt =====
-- source/Pictus: the cache of images that are decoded ahead of the viewer.
pub mod Queue
pub mod State
pub mod Cacher
pub mod Loader
pub mod WorkList
pub mod Worker
