-- ===== src/HwAccel.antt =====
-- worker/hwaccel.py: the choice of an encoder and of the number of parallel encodes.
pub mod Selection
pub mod Tags
