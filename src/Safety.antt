-- ===== src/Safety.antt =====
-- src/safety: bounds on what commands show.
pub mod DisplayBounds
