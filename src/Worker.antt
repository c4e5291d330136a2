-- ===== src/Worker.antt =====
-- The conversion worker: apps/conversion-worker.
pub mod Slots
pub mod Image
pub mod Handle
