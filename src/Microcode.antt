-- ===== src/Microcode.antt =====
-- The microcode compiler: microcode/src/compiler, microcode/src/encoder and the intermediate
-- representation of microcode/include/irata2/microcode/ir.
pub mod Ir
pub mod Fetch
pub mod Sequence
pub mod Optimizers
pub mod Encoder
pub mod Validators
pub mod Compiler
pub mod Decoder
