-- ===== src/Cartridge/Truncation.antt =====
-- The check of the file's size adds the two header fields in 32 bits.
use irata.Prelude.{
  ℕ, zero, suc, ◌+◌, ◌<◌, ◌≤◌, ◌≡◌, ◌∙◌, List, length, take, get_elem?-none, get_elem?-eq-get_or,
  arith, ltb, leb, ok, err, Bool-cases, inl, inr, drop, if◌then◌else◌, replicate,
}
use irata.Bits.{u32}
use irata.Cartridge.{
  undefined_read, file_truncated, read_u16, read_u32, copy_rom, load_cartridge, magic_bytes,
}
use irata.Cartridge.RoundTrip.{load_fields, copy_rom-take}

read_u16-lt : (bytes : List ℕ) (i : ℕ) {v : ℕ} → read_u16 bytes i ≡ ok v → v < 65536
unfolding read_u16
read_u16-lt bytes i h = ground arith

-- A copy that reaches past the end of the file reads out of range.
copy_rom-undefined :
    (n : ℕ) (bytes : List ℕ) (i : ℕ)
    → 0 < n
    → length bytes < i + n
    → copy_rom n bytes i ≡ err undefined_read
unfolding copy_rom
copy_rom-undefined zero bytes i p h = absurd (omega arith)
copy_rom-undefined (suc n) bytes i p h = elim (Bool-cases (leb (length bytes) i)) [
  | inl past ↦ rw (get_elem?-none bytes i (ground arith), copy_rom)
  | inr inside ↦
      rw (get_elem?-eq-get_or bytes i 0 (ground arith), copy_rom)
        (rw (copy_rom-undefined n bytes (i + 1) (ground arith) (omega arith)))
]

-- What the loader makes of the size fields of a file with the magic bytes, at least 32 bytes and a
-- declared header size of at least 32. It refuses the file as truncated where it is shorter than
-- the sum of the two sizes modulo 2 ^ 32. Otherwise it returns the ROM where the file holds the
-- true sum, and where it does not, the copy reads the file's bytes out of range.
pub load_cartridge-sizes :
    (bytes : List ℕ) (version size entry rom_size : ℕ)
    → 32 ≤ length bytes
    → take 4 bytes ≡ magic_bytes
    → read_u16 bytes 4 ≡ ok version
    → read_u16 bytes 6 ≡ ok size
    → read_u16 bytes 8 ≡ ok entry
    → read_u32 bytes 10 ≡ ok rom_size
    → 32 ≤ size
    → load_cartridge bytes ≡ (
        if ltb (length bytes) (u32 (size + rom_size))
        then err file_truncated
        else if leb (size + rom_size) (length bytes)
        then ok (record {
          header = record {
            magic = magic_bytes;
            version = version;
            declared_size = size;
            entry = entry;
            rom_size = rom_size;
            reserved = replicate 18 0;
          };
          rom = take rom_size (drop size bytes);
        })
        else err undefined_read)
load_cartridge-sizes bytes version size entry rom_size long magic v s e n enough =
    load_fields bytes version size entry rom_size (ground arith) magic v s e n (ground arith)
    ∙ elim (Bool-cases (ltb (length bytes) (u32 (size + rom_size)))) [
      | inl short ↦ rw short
      | inr passed ↦ elim (Bool-cases (leb (size + rom_size) (length bytes))) [
        | inl holds ↦ rw (passed, holds, copy_rom-take rom_size bytes size (ground arith))
        | inr lacks ↦
            let some_left : 0 < rom_size = ground (arith, read_u16-lt bytes 6 s) in
            rw (passed, lacks, copy_rom-undefined rom_size bytes size some_left (ground arith))
      ]
    ]
