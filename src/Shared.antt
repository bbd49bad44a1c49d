-- ===== src/Shared.antt =====
-- clueapi/shared: the helpers on text views, and the names of files.
pub mod Text
pub mod Split
pub mod Extract
pub mod Filename
pub mod IoCtxPool
pub mod Tests
