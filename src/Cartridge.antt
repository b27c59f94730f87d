-- ===== src/Cartridge.antt =====
-- The cartridge file: written by assembler/src/cartridge.cpp and WriteCartridge of
-- assembler/src/assembler.cpp, read by sim/src/cartridge.cpp. A file is the list of its bytes.
pub mod RoundTrip
pub mod Truncation
use irata.Prelude.{
  ℕ, zero, suc, ◌+◌, ◌-◌, ◌*◌, ◌/◌, ◌%◌, ◌^◌, bit_and, bit_or, Bool, true, false, not, Option, none,
  some, List, [], ◌∷◌, ◌++◌, length, get_elem?, get_or, take, replicate, ◌==◌, ltb, leb,
  if◌then◌else◌, Result, ok, err, ◌>>=◌, ◌>>◌, throw_if,
}
use irata.Bits.{u8, u16, u32, shl, shr}

abbrev pub header_size : ℕ
header_size = 32

abbrev pub cartridge_version : ℕ
cartridge_version = 1

-- 'I', 'R', 'T', 'A'
abbrev pub magic_bytes : List ℕ
magic_bytes = 73 ∷ 82 ∷ 84 ∷ 65 ∷ []

pub record CartridgeHeader : Type 0 where
  pub magic : List ℕ
  pub version : ℕ
  pub declared_size : ℕ
  pub entry : ℕ
  pub rom_size : ℕ
  pub reserved : List ℕ

-- The member initializers of the struct, with the two fields that the assembler sets.
unfoldable pub default_header : ℕ → ℕ → CartridgeHeader
default_header entry rom_size = record {
  magic = magic_bytes;
  version = cartridge_version;
  declared_size = header_size;
  entry = entry;
  rom_size = rom_size;
  reserved = replicate 18 0;
}

-- `AppendU16` and `AppendU32`: the bytes that they push.
unfoldable pub u16_bytes : ℕ → List ℕ
u16_bytes value = u8 (bit_and value 0xff) ∷ u8 (bit_and (shr value 8) 0xff) ∷ []

unfoldable pub u32_bytes : ℕ → List ℕ
u32_bytes value =
    u8 (bit_and value 0xff)
    ∷ u8 (bit_and (shr value 8) 0xff)
    ∷ u8 (bit_and (shr value 16) 0xff)
    ∷ u8 (bit_and (shr value 24) 0xff)
    ∷ []

-- `while (out.size() < kCartridgeHeaderSize) out.push_back(0);`
unfoldable pub pad : List ℕ → List ℕ
pad out = out ++ replicate (header_size - length out) 0

unfoldable pub encode_header : CartridgeHeader → List ℕ
unfolding pad u16_bytes u32_bytes
encode_header h = pad (
    h.magic
    ++ (u16_bytes h.version
        ++ (u16_bytes h.declared_size
            ++ (u16_bytes h.entry ++ (u32_bytes h.rom_size ++ h.reserved)))))

-- `WriteCartridge`: the header, then the ROM.
unfoldable pub write_cartridge : CartridgeHeader → List ℕ → List ℕ
write_cartridge header rom = encode_header header ++ rom

-- The `throw`s of the loader. `undefined_read` is a read of the file's bytes out of range, which
-- C++ leaves undefined.
pub data LoadError : Type 0 where
  truncated header_too_small magic_mismatch size_too_small file_truncated undefined_read : LoadError

unfoldable pub read_u16 : List ℕ → ℕ → Result LoadError ℕ
read_u16 bytes offset = do
  throw_if (leb (length bytes) (offset + 1)) truncated
  ok (u16 (bit_or (get_or bytes offset 0) (shl (get_or bytes (offset + 1) 0) 8)))

unfoldable pub read_u32 : List ℕ → ℕ → Result LoadError ℕ
read_u32 bytes offset = do
  throw_if (leb (length bytes) (offset + 3)) truncated
  ok (
      u32 (
        bit_or
          (bit_or (bit_or (get_or bytes offset 0) (shl (get_or bytes (offset + 1) 0) 8))
            (shl (get_or bytes (offset + 2) 0) 16))
          (shl (get_or bytes (offset + 3) 0) 24)))

abbrev pub same_bytes : List ℕ → List ℕ → Bool
same_bytes [] [] = true
same_bytes [] (y ∷ ys) = false
same_bytes (x ∷ xs) [] = false
same_bytes (x ∷ xs) (y ∷ ys) = if x == y then same_bytes xs ys else false

-- The loop that copies the ROM, with the count of bytes left, from index `i` of the file.
unfoldable pub copy_rom : ℕ → List ℕ → ℕ → Result LoadError (List ℕ)
copy_rom zero bytes i = ok []
copy_rom (suc n) bytes i = elim (get_elem? bytes i) [
  | none ↦ err undefined_read
  | some b ↦ (copy_rom n bytes (i + 1) >>= λ rest. ok (b ∷ rest))
]

pub record LoadedCartridge : Type 0 where
  pub header : CartridgeHeader
  pub rom : List ℕ

-- `LoadCartridge`, from the bytes of a file that could be read.
unfoldable pub load_cartridge : List ℕ → Result LoadError LoadedCartridge
load_cartridge bytes = do
  throw_if (ltb (length bytes) header_size) header_too_small
  let magic = take 4 bytes
  throw_if (not (same_bytes magic magic_bytes)) magic_mismatch
  version ← read_u16 bytes 4
  declared_size ← read_u16 bytes 6
  entry ← read_u16 bytes 8
  rom_size ← read_u32 bytes 10
  throw_if (ltb declared_size header_size) size_too_small
  throw_if (ltb (length bytes) (u32 (declared_size + rom_size))) file_truncated
  rom ← copy_rom rom_size bytes declared_size
  ok (record {
    header = record {
      magic = magic;
      version = version;
      declared_size = declared_size;
      entry = entry;
      rom_size = rom_size;
      reserved = replicate 18 0;
    };
    rom = rom;
  })
