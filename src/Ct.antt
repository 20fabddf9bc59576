-- ===== src/Ct.antt =====
-- Colour-temperature bounds: ct_bounds.py, ct_learner.py.
pub mod Bounds
