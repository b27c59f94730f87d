-- ===== src/Tests/Dumps.antt =====
-- The dumps of a small program.
use irata.Prelude.{codes, ◌≡◌, refl, [], ◌∷◌, ok, arith}
use irata.Prelude.Digits.{write_number}
use irata.Microcode.Decoder.{
  decode_status_bits, text_step, yaml_step, MicrocodeProgram, dump_program, dump_program_yaml,
  dump_instruction, dump_instruction_yaml,
}
use irata.Microcode.Decoder.Totals.{Made, dumps-Made}
use irata.Microcode.Decoder.Order.{with_table, dump_program-swap}

abbrev program : MicrocodeProgram
program = record {
  table = (0x020100, 2) ∷ (0x020000, 5) ∷ (0x010001, 0) ∷ [];
  control_paths = codes "halt" ∷ codes "a.read" ∷ codes "pc.write" ∷ [];
  status_bits = (codes "carry", 0) ∷ [];
}

dumped :
    dump_program program
    ≡ ok (
        codes
          "opcode 1:\n  status carry:\n    step 0: []\n\nopcode 2:\n  status default:\n    step 0: [halt, pc.write]\n    step 1: [a.read]\n")
unfolding dump_program decode_status_bits text_step write_number
dumped = refl

-- The only opcode is 255, and its header is left out.
headless :
    dump_program (with_table program ((0xff00ff, 1) ∷ [])) ≡ ok (codes "    step 0: [halt]\n")
unfolding dump_program text_step write_number
headless = refl

yaml :
    dump_instruction_yaml program 1
    ≡ ok (codes "opcode_1:\n  status_carry:\n    steps:\n      - stage: 0\n        controls:\n")
unfolding dump_instruction_yaml decode_status_bits yaml_step write_number
yaml = refl

dumps_example :
    Made (dump_program program)
    × Made (dump_instruction program 2)
    × Made (dump_program_yaml program)
    × Made (dump_instruction_yaml program 2)
dumps_example = dumps-Made program 2 (omega arith, (omega arith, (omega arith, tt)))

swap_example :
    (dump_program (with_table program ((0x010001, 0) ∷ (0x020100, 2) ∷ (0x020000, 5) ∷ []))
      ≡ dump_program (with_table program ((0x010001, 0) ∷ (0x020000, 5) ∷ (0x020100, 2) ∷ [])))
    × (dump_program_yaml (with_table program ((0x010001, 0) ∷ (0x020100, 2) ∷ (0x020000, 5) ∷ []))
        ≡ dump_program_yaml
            (with_table program ((0x010001, 0) ∷ (0x020000, 5) ∷ (0x020100, 2) ∷ [])))
swap_example =
    dump_program-swap program (0x020100, 2) (0x020000, 5) ((0x010001, 0) ∷ []) [] (omega arith)
