-- ===== src/Privacy.antt =====
-- src/privacy: what may leave the process, and in which form.
pub mod RegexSafety
pub mod ContentCapture
