-- ===== src/Media.antt =====
-- The media helpers: include/iouring_runtime/media and src/modules/media.
pub mod Url
pub mod Hls
