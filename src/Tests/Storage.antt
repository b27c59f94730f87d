-- ===== src/Tests/Storage.antt =====
-- The memory map and the cartridge at concrete values.
use irata.Prelude.{
  ℕ, ◌≡◌, refl, ◌==◌, if◌then◌else◌, List, [], ◌∷◌, replicate, ok, err, ◌>>=◌, some, arith,
}
use irata.Sim.Memory.{
  ram, rom, storage, device, Region, new_region, check_overlaps, overlaps, contains, translate,
  find_region, read_at, write_at, write_region, write_module, read_region,
}
use irata.Sim.Io.InputDevice
use irata.Sim.Io.InputDevice.{InputDevice}
use irata.Sim.Memory.Map.{check_overlaps-Apart, Apart}
use irata.Sim.Memory.Access.{value_of, read_at-write_at, write_at-refusal, error_of, refusal}
use irata.Cartridge.{load_cartridge, read_u16, read_u32, undefined_read}
use irata.Cartridge.Truncation.{load_cartridge-sizes}

-- Four bytes of RAM at 8, two of ROM at 16, and the keyboard's registers at 32.
abbrev ram_region : Region
ram_region = record { offset = 8; backing = storage ram (1 ∷ 2 ∷ 3 ∷ 4 ∷ []) }

abbrev rom_region : Region
rom_region = record { offset = 16; backing = storage rom (5 ∷ 6 ∷ []) }

abbrev keyboard : InputDevice → Region
keyboard d = record {
  offset = 32;
  backing = device (record {
    State = InputDevice;
    state = d;
    size = 16;
    read = InputDevice.read;
    write = InputDevice.write;
  });
}

abbrev regions : List Region
regions = ram_region ∷ rom_region ∷ keyboard InputDevice.new ∷ []

constructed : new_region 8 ram_region.backing ≡ ok ram_region
unfolding new_region
constructed = refl

no_overlap : check_overlaps regions ≡ ok tt
unfolding check_overlaps overlaps
no_overlap = refl

check_overlaps_example : Apart regions
check_overlaps_example =
    check_overlaps-Apart regions (omega arith, (omega arith, (omega arith, tt))) no_overlap

abbrev regions_after : List Region
regions_after =
    record { offset = 8; backing = storage ram (1 ∷ 99 ∷ 3 ∷ 4 ∷ []) }
    ∷ rom_region
    ∷ keyboard InputDevice.new
    ∷ []

written : write_at regions 9 99 ≡ ok regions_after
unfolding write_at contains translate write_region write_module
written = refl

found : find_region regions 9 ≡ some ram_region
unfolding find_region contains
found = refl

-- A read of the keyboard behind a write to the RAM.
write_at_example :
    value_of (read_at regions_after 34) ≡ (if 34 == 9 then ok 99 else value_of (read_at regions 34))
write_at_example =
    read_at-write_at regions 9 99 34 (omega arith) (omega arith) (rw found refl) written

-- The key that a read takes from the queue is gone behind it.
popped :
    value_of (
      read_at (keyboard (InputDevice.inject_key 7 InputDevice.new) ∷ []) 34 >>= λ p. read_at p.1 34)
    ≡ ok 0
unfolding read_at contains translate read_region InputDevice.read InputDevice.inject_key
    InputDevice.new InputDevice.pop
popped = refl

refusal_example : error_of (write_at regions 16 1) ≡ refusal (find_region regions 16)
refusal_example = write_at-refusal regions 16 1 (omega arith)

-- A file of the header alone, whose ROM size is 2 ^ 32 - 32.
abbrev short_file : List ℕ
short_file = 73 ∷ 82 ∷ 84 ∷ 65 ∷ 1 ∷ 0 ∷ 32 ∷ 0 ∷ 0 ∷ 128 ∷ 224 ∷ 255 ∷ 255 ∷ 255 ∷ replicate 18 0

load_cartridge_example : load_cartridge short_file ≡ err undefined_read
unfolding read_u16 read_u32
load_cartridge_example =
    load_cartridge-sizes short_file 1 32 0x8000 4294967264 (omega arith) refl refl refl refl refl
      (omega arith)
