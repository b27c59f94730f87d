-- ===== src/Base.antt =====
-- base/include/irata2/base: the byte, the word and the five phases of a tick.
pub mod Byte
pub mod Word
pub mod Phase
