-- ===== src/Sim/Io.antt =====
-- Devices on the memory bus: sim/src/io.
pub mod InputDevice
pub mod Vgc
