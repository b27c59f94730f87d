-- ===== src/Cartridge/RoundTrip.antt =====
-- The writer of the cartridge file and its loader, run one behind the other.
use irata.Prelude.{
  ℕ, zero, suc, ◌+◌, ◌*◌, ◌^◌, ◌<◌, ◌≤◌, ◌≡◌, refl, ◌∙◌, bit_and, bit_or, false, List, length, take,
  drop, drop-cons, take-length, get_elem?-eq-get_or, get_or, replicate, arith, leb, ltb, ok, ◌>>=◌,
  ◌>>◌, throw_if,
}
use irata.Bits.{u8, u16, u32, shl, shr, and_0xff, bit_or-shl_right}
use irata.Cartridge.{
  default_header, encode_header, write_cartridge, file_truncated, load_cartridge, copy_rom,
  read_u16, read_u32, magic_bytes,
}

-- Inside the file the copy is the stretch of `n` bytes from index `i`.
pub copy_rom-take :
    (n : ℕ) (bytes : List ℕ) (i : ℕ)
    → i + n ≤ length bytes
    → copy_rom n bytes i ≡ ok (take n (drop i bytes))
unfolding copy_rom
copy_rom-take zero bytes i h = refl
copy_rom-take (suc n) bytes i h =
    let e : i + 1 ≡ suc i = omega arith in
    rw (get_elem?-eq-get_or bytes i 0 (omega arith), copy_rom)
      (rw (drop-cons bytes i 0 (omega arith), copy_rom-take n bytes (i + 1) (omega arith), e))

-- Two and four little-endian bytes put together again.
join_u16 :
    (v : ℕ)
    → v < 65536
    → u16 (bit_or (u8 (bit_and v 0xff)) (shl (u8 (bit_and (shr v 8) 0xff)) 8)) ≡ v
join_u16 v h = omega (
  arith,
  and_0xff v,
  and_0xff (shr v 8),
  bit_or-shl_right 8 (u8 (bit_and (shr v 8) 0xff)) (u8 (bit_and v 0xff)) (omega arith),
)

join_u32 :
    (v : ℕ)
    → v < 2 ^ 32
    → u32 (
        bit_or
          (bit_or
            (bit_or (u8 (bit_and v 0xff)) (shl (u8 (bit_and (shr v 8) 0xff)) 8))
            (shl (u8 (bit_and (shr v 16) 0xff)) 16))
          (shl (u8 (bit_and (shr v 24) 0xff)) 24))
      ≡ v
join_u32 v h =
    let b0 = u8 (bit_and v 0xff) in
    let b1 = u8 (bit_and (shr v 8) 0xff) in
    let b2 = u8 (bit_and (shr v 16) 0xff) in
    let b3 = u8 (bit_and (shr v 24) 0xff) in
    let low = bit_or-shl_right 8 b1 b0 (omega arith) in
    let middle = bit_or-shl_right 16 b2 (b1 * 2 ^ 8 + b0) (omega arith) in
    let high = bit_or-shl_right 24 b3 (b2 * 2 ^ 16 + (b1 * 2 ^ 8 + b0)) (omega arith) in
    rw (low, middle, high)
      (omega (arith, and_0xff v, and_0xff (shr v 8), and_0xff (shr v 16), and_0xff (shr v 24)))

read_u16-at :
    (bytes : List ℕ) (i v : ℕ)
    → i + 1 < length bytes
    → u16 (bit_or (get_or bytes i 0) (shl (get_or bytes (i + 1) 0) 8)) ≡ v
    → read_u16 bytes i ≡ ok v
unfolding read_u16
read_u16-at bytes i v h e =
    let inside : leb (length bytes) (i + 1) ≡ false = ground arith in rw (inside, e)

read_u32-at :
    (bytes : List ℕ) (i v : ℕ)
    → i + 3 < length bytes
    → u32 (
        bit_or
          (bit_or
            (bit_or (get_or bytes i 0) (shl (get_or bytes (i + 1) 0) 8))
            (shl (get_or bytes (i + 2) 0) 16))
          (shl (get_or bytes (i + 3) 0) 24))
      ≡ v
    → read_u32 bytes i ≡ ok v
unfolding read_u32
read_u32-at bytes i v h e =
    let inside : leb (length bytes) (i + 3) ≡ false = ground arith in rw (inside, e)

-- The loader on a file whose fields are known.
pub load_fields :
    (bytes : List ℕ) (version size entry rom_size : ℕ)
    → ltb (length bytes) 32 ≡ false
    → take 4 bytes ≡ magic_bytes
    → read_u16 bytes 4 ≡ ok version
    → read_u16 bytes 6 ≡ ok size
    → read_u16 bytes 8 ≡ ok entry
    → read_u32 bytes 10 ≡ ok rom_size
    → ltb size 32 ≡ false
    → load_cartridge bytes ≡ (
        throw_if (ltb (length bytes) (u32 (size + rom_size))) file_truncated
        >> (copy_rom rom_size bytes size >>= λ rom. ok (record {
          header = record {
            magic = magic_bytes;
            version = version;
            declared_size = size;
            entry = entry;
            rom_size = rom_size;
            reserved = replicate 18 0;
          };
          rom = rom;
        })))
unfolding load_cartridge
load_fields bytes version size entry rom_size long magic v s e n enough =
    rw (long, magic, v, s, e, n, enough)

-- A cartridge written for any word entry and any ROM whose size leaves the header's 32 bytes below
-- 2 ^ 32 is loaded as the header and the ROM that were written.
pub load-write :
    (entry : ℕ) (rom : List ℕ)
    → entry < 65536
    → length rom + 32 < 2 ^ 32
    → let header = default_header entry (length rom) in
      load_cartridge (write_cartridge header rom) ≡ ok (record { header = header; rom = rom })
unfolding write_cartridge encode_header default_header
load-write entry rom he hr =
    let bytes = write_cartridge (default_header entry (length rom)) rom in
    load_fields bytes 1 32 entry (length rom) (ground arith) refl
      (read_u16-at bytes 4 1 (omega arith) refl) (read_u16-at bytes 6 32 (omega arith) refl)
      (read_u16-at bytes 8 entry (omega arith) (join_u16 entry he))
      (read_u32-at bytes 10 (length rom) (omega arith) (join_u32 (length rom) (omega arith))) refl
    ∙ let fits : ltb (length bytes) (u32 (32 + length rom)) ≡ false = ground arith in
      rw (fits, copy_rom-take (length rom) bytes 32 (omega arith), take-length rom)
