-- ===== src/Sim.antt =====
-- The simulator: sim/include/irata2/sim and sim/src.
pub mod Status
pub mod Alu
pub mod Counter
pub mod Memory
pub mod Controller
pub mod Bus
pub mod Cpu
pub mod Io
pub mod Json
pub mod DebugSymbols
pub mod Disassembler
pub mod Registers
