-- ===== src/App.antt =====
-- Pictus: the application itself. Its actions, and its settings as they are written to the disk.
pub mod KeyActions
pub mod Translators
