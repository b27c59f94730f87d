-- ===== src/Sim/Status.antt =====
-- One flag of the status register: the class `Status` of sim/src/status.cpp, a view of one bit of
-- the register's byte, and the analyzer of sim/include/irata2/sim/status_register.h.
pub mod Laws
use irata.Prelude.{
  ℕ, ◌+◌, ◌-◌, ◌*◌, ◌/◌, ◌^◌, ◌<◌, bit_and, bit_or, ◌≡◌, Bool, true, not, ◌&&◌, ◌||◌, arith, ◌==◌,
  if◌then◌else◌, same, eq→==,
}
use irata.Bits.{u8, shl, shr, holds_below, holds_below-at}
use irata.Base.Byte.{IsByte}

-- The indices of the bits, as the register's constructor gives them.
abbrev pub negative : ℕ
negative = 7

abbrev pub overflow : ℕ
overflow = 6

abbrev pub interrupt_disable : ℕ
interrupt_disable = 2

abbrev pub zero_flag : ℕ
zero_flag = 1

abbrev pub carry : ℕ
carry = 0

-- `Status::value`
unfoldable pub value : ℕ → ℕ → Bool
value status bit_index = not (bit_and (shr status bit_index) 1 == 0)

-- `Status::Set`
unfoldable pub assign : ℕ → ℕ → Bool → ℕ
assign status bit_index on =
    let mask = u8 (shl 1 bit_index) in
    if on then u8 (bit_or status mask) else u8 (bit_and status (u8 (2 ^ 8 - 1 - mask)))

-- `Status::TickProcess`
unfoldable pub tick_process : Bool → Bool → ℕ → ℕ → ℕ
tick_process want_set want_clear bit_index status =
    if not want_set && not want_clear then status else assign status bit_index want_set

-- `StatusAnalyzer::TickRead`, once its register has taken the byte from the bus.
unfoldable pub analyze : ℕ → ℕ → ℕ
analyze byte status =
    assign (assign status zero_flag (byte == 0)) negative (not (bit_and byte 0x80 == 0))
