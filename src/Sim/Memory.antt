-- ===== src/Sim/Memory.antt =====
-- Memory on the bus: sim/src/memory/module.cpp, region.cpp and memory.cpp, and the storage of
-- sim/include/irata2/sim/rom_storage.h. Addresses are words, so they stay below 2 ^ 16.
pub mod Map
pub mod Access
pub mod AddressRegister
use irata.Prelude.{
  ℕ, ◌+◌, ◌-◌, ◌%◌, ◌^◌, bit_and, Bool, true, false, not, ◌&&◌, Option, none, some, List, [], ◌∷◌,
  length, get_or, set, any, ◌==◌, ltb, leb, if◌then◌else◌, Result, ok, err, ◌>>=◌, ◌>>◌, throw_if,
}
use irata.Bits.{u16, u32}

-- The `throw`s of these files.
pub data SimError : Type 0 where
  zero_size read_out_of_range write_out_of_range rom_write : SimError
  size_not_power offset_not_aligned out_of_region overlap unmapped_write : SimError

pub data Kind : Type 0 where
  ram rom : Kind

-- A subclass of `Module` that is no storage, as the input device and the graphics coprocessor are: its
-- state, its size, and a read, which may change the state, and a write, none of which throws.
pub record Device : Type 1 where
  pub State : Type 0
  pub state : State
  pub size : ℕ
  pub read : ℕ → State → ℕ × State
  pub write : ℕ → ℕ → State → State

-- A `Module`: `Ram`, or `Rom` over its storage, with their bytes, or a device.
pub data Module : Type 1 where
  storage : Kind → List ℕ → Module
  device : Device → Module

-- `Module::size`
abbrev pub module_size : Module → ℕ
module_size (storage kind bytes) = length bytes
module_size (device d) = d.size

-- The constructors of `Ram` and `Rom`.
unfoldable pub new_module : Kind → List ℕ → Result SimError Module
new_module kind bytes = throw_if (length bytes == 0) zero_size >> ok (storage kind bytes)

-- `Module::Read`: `Ram::Read`, `Rom::Read` through `RomStorage::Read`, or the device's. A read is given
-- with the module behind it.
unfoldable pub read_module : Module → ℕ → Result SimError (ℕ × Module)
read_module (storage kind bytes) index =
    throw_if (leb (length bytes) index) read_out_of_range
    >> ok (get_or bytes index 0, storage kind bytes)
read_module (device d) index =
    let found = d.read index d.state in ok (found.0, device (record d { state = found.1 }))

-- `Ram::Write` and `Rom::Write`
unfoldable pub write_kind : Kind → List ℕ → ℕ → ℕ → Result SimError Module
write_kind ram bytes index value =
    throw_if (leb (length bytes) index) write_out_of_range
    >> ok (storage ram (set bytes index value))
write_kind rom bytes index value = err rom_write

-- `Module::Write`
unfoldable pub write_module : Module → ℕ → ℕ → Result SimError Module
unfolding write_kind
write_module (storage kind bytes) index value = write_kind kind bytes index value
write_module (device d) index value = ok (device (record d { state = d.write index value d.state }))

pub record Region : Type 1 where
  pub offset : ℕ
  pub backing : Module

abbrev pub size : Region → ℕ
size r = module_size r.backing

unfoldable pub is_power_of_two : ℕ → Bool
is_power_of_two value = not (value == 0) && (bit_and value (value - 1) == 0)

-- The constructor of `Region`, over a module that its factory built.
unfoldable pub new_region : ℕ → Module → Result SimError Region
unfolding is_power_of_two
new_region offset m =
    throw_if (not (is_power_of_two (module_size m))) size_not_power
    >> (throw_if (not (offset % module_size m == 0)) offset_not_aligned
        >> ok (record { offset = offset; backing = m }))

unfoldable pub contains : Region → ℕ → Bool
contains r value =
    let upper = u32 (r.offset + u32 (size r)) in leb r.offset value && ltb value upper

unfoldable pub overlaps : Region → Region → Bool
overlaps r other =
    let upper = u32 (r.offset + u32 (size r)) in
    let other_upper = u32 (other.offset + u32 (size other)) in
    ltb r.offset other_upper && ltb other.offset upper

unfoldable pub translate : Region → ℕ → ℕ
translate r address = u16 (address + 2 ^ 16 - r.offset)

unfoldable pub read_region : Region → ℕ → Result SimError (ℕ × Region)
unfolding read_module
read_region r address =
    throw_if (not (contains r address)) out_of_region
    >> (read_module r.backing (translate r address) >>= λ found.
        ok (found.0, record r { backing = found.1 }))

unfoldable pub write_region : Region → ℕ → ℕ → Result SimError Region
unfolding write_module
write_region r address value =
    throw_if (not (contains r address)) out_of_region
    >> (write_module r.backing (translate r address) value >>= λ m. ok (record r { backing = m }))

-- The loops of the constructor of `Memory`: each region against those that follow it.
unfoldable pub check_overlaps : List Region → Result SimError (Unit {0})
check_overlaps [] = ok tt
check_overlaps (r ∷ rs) = throw_if (any (overlaps r) rs) overlap >> check_overlaps rs

unfoldable pub new_memory : List Region → Result SimError (List Region)
new_memory rs = check_overlaps rs >> ok rs

-- `Memory::FindRegion`: the first region that contains the address.
unfoldable pub find_region : List Region → ℕ → Option Region
find_region [] address = none
find_region (r ∷ rs) address = elim (contains r address) [
  | true ↦ some r
  | false ↦ find_region rs address
]

-- `Memory::ReadAt`: an unmapped address reads as 0xFF, and the region that `find_region` finds stays in
-- its place behind the read.
unfoldable pub read_at : List Region → ℕ → Result SimError (ℕ × List Region)
read_at [] address = ok (0xff, [])
read_at (r ∷ rs) address = elim (contains r address) [
  | true ↦ (read_region r address >>= λ found. ok (found.0, found.1 ∷ rs))
  | false ↦ (read_at rs address >>= λ found. ok (found.0, r ∷ found.1))
]

-- `Memory::WriteAt`: the write goes to the region that `find_region` finds, in its place.
unfoldable pub write_at : List Region → ℕ → ℕ → Result SimError (List Region)
write_at [] address value = err unmapped_write
write_at (r ∷ rs) address value = elim (contains r address) [
  | true ↦ (write_region r address value >>= λ r'. ok (r' ∷ rs))
  | false ↦ (write_at rs address value >>= λ rs'. ok (r ∷ rs'))
]
