-- ===== src/Worker/Image.antt =====
-- The image pipeline: the containers and the choice of the result, of
-- apps/conversion-worker/src/app/pipeline/image-compressor.service.ts.
pub mod Bytes
pub mod Jpeg
pub mod Walks
pub mod Webp
pub mod Compress
