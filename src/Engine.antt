-- ===== src/Engine.antt =====
-- internal/engine: the banter engine. The shuffle bags are modelled.
pub mod Shuffle
