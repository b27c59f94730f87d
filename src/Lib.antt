-- ===== src/Lib.antt =====
-- Verification of irata2: a microcoded eight-bit computer with its microcode compiler, its assembler
-- and its simulator.
--
-- How the parts interact. The microcode compiler (microcode/src/compiler) turns an instruction set of
-- steps, each a list of controls, into a table from (opcode, step, status) to a control word. The
-- simulator's CPU (sim/src/cpu.cpp) looks a control word up in each tick and asserts its controls,
-- on which the registers, the arithmetic unit and the memory act. The assembler (assembler/src) turns
-- a program into a ROM image in a cartridge file, which the simulator loads and maps.
--
-- Which file models what.
--   Prelude, Prelude/*: shared lists, Boolean tests, results (a value or the error of a throw), names.
--   Bits: shifts, masks and the widths of machine words, as arithmetic.
--   Base/Byte, Base/Word, Base/Phase: base/include/irata2/base/types.h and tick_phase.h.
--   Sim/Status: Status::Set and TickProcess of sim/src/status.cpp, and the StatusAnalyzer of
--     sim/include/irata2/sim/status_register.h; a flag is a bit of the status byte.
--   Sim/Alu: sim/src/alu/alu.cpp. The operations are functions of the registers and the status byte.
--     Alu/Arithmetic, Alu/Shifts and Alu/Keeps are about groups of them.
--   Sim/Counter: Counter and LocalCounter and the ProgramCounter of sim/include/irata2/sim.
--   Sim/Memory: Module, Region and Memory of sim/src/memory; a throw is an error of SimError, and a
--     device that is mapped as a module is an interface of a state, a read and a write. Memory/Map
--     is about the constructors, Memory/Access about reads and writes, Memory/AddressRegister models
--     memory_address_register.cpp.
--   Sim/Io/InputDevice: sim/src/io/input_device.cpp; InputDevice/Queue is its specification, a queue
--     of at most 16 keys, and InputDevice/Refine the refinement.
--   Sim/Io/Vgc: the coprocessor of sim/src/io/vector_graphics_coprocessor.cpp with the image backend of
--     vgc_backend.cpp; Vgc/Rounds and Vgc/Bresenham are about its lines, Vgc/Registers about writes.
--   Sim/Controller: the encoders and the instruction memory of sim/src/controller; Controller/Flags is
--     about the status byte, Controller/Lookup and Rom about control words and the ROM, and
--     Controller/Program about a compiled program in the controller.
--   Sim/Bus: control.h, bus.h, component_with_bus.h and register_with_bus.h of sim/include/irata2/sim;
--     Bus/Ticks and Bus/Step are about the phases of a tick on one bus.
--   Sim/Cpu: Tick, TickProcess and RunUntilHalt of sim/src/cpu.cpp and the buffer of debug_trace.h;
--     Cpu/Run is about runs, Cpu/Trace about the buffer.
--   Sim/Cpu/Controls: the index of the controls in sim/src/cpu.cpp; Controls/Index is about resolving
--     the paths of the hardware model.
--   Sim/Registers: register_base.h, local_register.h, word_register.h, word_counter.h,
--     latched_word_register.h and instruction_register.h of sim/include/irata2/sim, and TickProcess of
--     controller.cpp; Registers/Words is about the word counter, Registers/Injection about interrupts.
--   Cartridge: EncodeHeader of assembler/src/cartridge.cpp, WriteCartridge of
--     assembler/src/assembler.cpp and LoadCartridge of sim/src/cartridge.cpp; a file is its bytes.
--   Assembler: the operands of assembler/src/assembler.cpp; Assembler/FirstPass and Assembler/Encode
--     its two passes, Assembler/Branch the branches, Assembler/Include include_processor.cpp.
--     Assembler/Lexer models lexer.cpp; Lexer/Numbers is about number literals, Lexer/Progress and
--     Lexer/Ends about its loop. Assembler/Parser models parser.cpp: Parser/Operands,
--     Parser/Statements and Parser/Ends are about the tokens that each of its functions leaves,
--     Parser/Printed, Parser/RoundTrip and Parser/Program about operands, lines and programs that are
--     printed as tokens. Assembler/DebugJson models EscapeJson and EncodeDebugJson of
--     assembler/src/cartridge.cpp; DebugJson/Strings and Values are about its strings and numbers,
--     Objects, Records and Parts about its lists as the JSON parser reads them, Loads and Lookups about
--     the loader, and RoundTrip and Loaded about the whole file.
--   Sim/Json: the JSON parser of sim/src/debug_symbols.cpp; Json/Ends is about its loops.
--   Sim/Disassembler: sim/src/disassembler.cpp; Disassembler/Totals is about its end, and
--     Disassembler/Listing about instructions and branches.
--   Sim/DebugSymbols: the loader of sim/src/debug_symbols.cpp. Prelude/Digits is how C++ writes and reads numbers,
--     Prelude/Maps its maps as association lists.
--   Microcode/Ir: microcode/include/irata2/microcode/ir; Microcode/Fetch, Sequence and Optimizers the
--     rewriting passes and two validators, Microcode/Validators the other validators (Validators/Bus and
--     Places are about the buses),
--     Microcode/Encoder microcode/src/encoder, Microcode/Compiler compiler.cpp, Microcode/Decoder
--     microcode/src/debug/decoder.cpp; Decoder/Order is about the order of the table, Decoder/Totals
--     about the keys that are looked up.
--   Tests/*: the theorems at concrete inputs.
--
-- Parameters. A control is the address of its ControlInfo; what the hardware model says behind it
-- (phase, bus, path) is a parameter of the passes that read it. So are the instruction table and the
-- operand sizes, which the build generates, and what the file system and the parser give for an
-- included path. What a simulator's control is called is a parameter of the controller. The
-- components below the CPU are an interface of their five phases, any of which may throw.
--
-- Bounds and fuel. Machine words are natural numbers whose operations are cut by % 2 ^ w. Most
-- loops are structural. The include processor recurses on fuel, one for each statement and each
-- included file on the way, since the code bounds neither: the fuel is an argument of each theorem.
-- The line's loop has fuel 512, which is enough for a path between two points of a 256 by 256 frame,
-- and a bounded run has fuel for one round more than its bound. The lexer has fuel for one token more
-- than the source has characters, and for one call of NextToken behind a comment. The parser's
-- loops have fuel for one round more than there are tokens, and those of the JSON parser for one round
-- more than there are characters. The disassembler's loop has fuel for one round for each byte.
--
-- Not modelled: the tables that register the simulator's controls; a run without a bound, which
-- need not end; command-line tools and the simulator's state dump, which are output; the hardware
-- description and the YAML tables, which are data; the frontend.
pub mod Prelude
pub mod Bits
pub mod Base
pub mod Sim
pub mod Cartridge
pub mod Assembler
pub mod Microcode
pub mod Tests
