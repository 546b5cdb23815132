-- ===== src/Postprocess.antt =====
-- internal/postprocess: the decoder of article bodies.
pub mod Yenc
