-- ===== src/Tests.antt =====
-- The theorems at concrete inputs, and runs of the definitions.
mod Machine
mod Storage
mod Compilation
mod Control
mod Assembly
mod DebugInfo
mod Disassembly
mod Registers
mod Dumps
