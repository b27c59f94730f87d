-- ===== src/Sim/Alu/Keeps.antt =====
-- What all the opcodes of sim/src/alu/alu.cpp have in common.
use irata.Prelude.{ℕ, ◌+◌, ◌<◌, ◌≡◌, ◌≢◌, refl, Bool, arith, ◌==◌, if◌then◌else◌, leb, if_both}
use irata.Bits.{u16}
use irata.Base.Byte.{IsByte}
use irata.Sim.Status.{value, assign, carry, overflow}
use irata.Sim.Alu.{
  Alu, Step, opcode, carry_in, set_carry_out, add, subtract, increment, decrement, logic, shifted,
  asl, lsr, rol, ror, bit_test, execute, tick_process,
}
use irata.Sim.Alu.Flags.{
  set_carry_out-IsByte, value-set_carry_out, value-both_flags, both_flags-IsByte,
}

-- A step that stores a byte, leaves the operands, and writes at most the two flags.
record Keeps (a : Alu) (s : ℕ) (step : Step) : Type 0 where
  result_byte : IsByte step.0.result
  status_byte : IsByte step.1
  same_lhs : step.0.lhs ≡ a.lhs
  same_rhs : step.0.rhs ≡ a.rhs
  other_flags : (j : ℕ) → j < 8 → j ≢ carry → j ≢ overflow → value step.1 j ≡ value s j

module _ (a : Alu) (s : ℕ) (hs : IsByte s) where
  other :
      (c v : Bool) (j : ℕ)
      → j < 8
      → j ≢ carry
      → j ≢ overflow
      → value (assign (set_carry_out s c) overflow v) j ≡ value s j
  other c v j h n m = ground (arith, value-both_flags s hs c v j h)

  add-Keeps : Keeps a s (add a s)
  unfolding add
  add-Keeps = record {
    result_byte = omega arith;
    status_byte = both_flags-IsByte s hs _ _;
    same_lhs = refl;
    same_rhs = refl;
    other_flags = λ j h n m. other _ _ j h n m;
  }

  subtract-Keeps : Keeps a s (subtract a s)
  unfolding subtract
  subtract-Keeps = record {
    result_byte = omega arith;
    status_byte = set_carry_out-IsByte s hs _;
    same_lhs = refl;
    same_rhs = refl;
    other_flags = λ j h n m. ground (
      arith,
      value-set_carry_out s hs (leb (u16 (a.rhs + (if carry_in s then 0 else 1))) a.lhs) j h,
    );
  }

  logic-Keeps : (r : ℕ) → Keeps a s (logic r a s)
  unfolding logic
  logic-Keeps r = record {
    result_byte = omega arith;
    status_byte = both_flags-IsByte s hs _ _;
    same_lhs = refl;
    same_rhs = refl;
    other_flags = λ j h n m. other _ _ j h n m;
  }

  shifted-Keeps : (r : ℕ) (out : Bool) → Keeps a s (shifted r out a s)
  unfolding shifted
  shifted-Keeps r out = record {
    result_byte = omega arith;
    status_byte = both_flags-IsByte s hs _ _;
    same_lhs = refl;
    same_rhs = refl;
    other_flags = λ j h n m. other _ _ j h n m;
  }

  stored-Keeps : (r : ℕ) → IsByte r → Keeps a s (record a { result = r }, s)
  stored-Keeps r h = record {
    result_byte = h;
    status_byte = hs;
    same_lhs = refl;
    same_rhs = refl;
    other_flags = λ j h n m. refl;
  }

  asl-Keeps : Keeps a s (asl a s)
  unfolding asl
  asl-Keeps = shifted-Keeps _ _

  lsr-Keeps : Keeps a s (lsr a s)
  unfolding lsr
  lsr-Keeps = shifted-Keeps _ _

  rol-Keeps : Keeps a s (rol a s)
  unfolding rol
  rol-Keeps = shifted-Keeps _ _

  ror-Keeps : Keeps a s (ror a s)
  unfolding ror
  ror-Keeps = shifted-Keeps _ _

  execute-Keeps : (op : ℕ) → IsByte a.result → Keeps a s (execute op a s)
  unfolding execute increment decrement bit_test
  execute-Keeps op hr = if_both K (op == 0x1) add-Keeps (
      if_both K (op == 0x2) subtract-Keeps (
        if_both K (op == 0x3) (stored-Keeps _ (omega arith)) (
          if_both K (op == 0x4) (logic-Keeps _) (
            if_both K (op == 0x5) (logic-Keeps _) (
              if_both K (op == 0x6) (logic-Keeps _) (
                if_both K (op == 0x7) asl-Keeps (
                  if_both K (op == 0x8) lsr-Keeps (
                    if_both K (op == 0x9) rol-Keeps (
                      if_both K (op == 0xa) ror-Keeps (
                        if_both K (op == 0xb) (stored-Keeps _ (omega arith)) (
                          if_both K (op == 0xc) (stored-Keeps _ (omega arith))
                            (stored-Keeps a.result hr))))))))))))
    where
      K : Step → Type 0
      K = Keeps a s

tick_process-Keeps : (a : Alu) (s : ℕ) → IsByte a.result → IsByte s → Keeps a s (tick_process a s)
unfolding tick_process
tick_process-Keeps a s hr hs =
    if_both (Keeps a s) (opcode a == 0) (stored-Keeps a s hs a.result hr)
      (execute-Keeps a s hs (opcode a) hr)

-- Whatever opcode is asserted, from byte registers and a status byte: the result register and the
-- status stay bytes, the operand registers keep their values, and so does every flag but the carry
-- and the overflow.
pub tick_process_keeps :
    (a : Alu) (s j : ℕ)
    → IsByte a.result
    → IsByte s
    → j < 8
    → j ≢ carry
    → j ≢ overflow
    → let (a', s') = tick_process a s in
      IsByte a'.result × IsByte s' × (a'.lhs ≡ a.lhs) × (a'.rhs ≡ a.rhs) × (value s' j ≡ value s j)
tick_process_keeps a s j hr hs hj nc nv =
    let k = tick_process-Keeps a s hr hs in
    (k.result_byte, k.status_byte, k.same_lhs, k.same_rhs, k.other_flags j hj nc nv)
