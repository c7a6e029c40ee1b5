-- ===== src/Pipeline.antt =====
-- The threads of the capture pipeline of simple-capture, from the camera to the files.
pub mod Outcome
pub mod Frame
pub mod Processing
pub mod Writeout
pub mod System
pub mod TenHz
