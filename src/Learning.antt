-- ===== src/Learning.antt =====
-- ct_learner.py: the physical colour-temperature bounds of a device, learned from what it was asked
-- and what it answered.
pub mod Adopt
pub mod Observe
