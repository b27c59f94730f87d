-- ===== src/Tests/Assembly.antt =====
-- The assembler on a small program.
use irata.Prelude.{
  Text, same_text, ℕ, ◌≡◌, ◌≢◌, refl, true, false, Option, none, some, List, [], ◌∷◌, map, length,
  ok, err, arith, if◌then◌else◌,
}
use irata.Bits.{u32}
use irata.Sim.Counter.{tick_process}
use irata.Cartridge.{default_header, write_cartridge, load_cartridge}
use irata.Assembler.{
  Operand, label, number, no_index, index_y, Statement, label_decl, instruction_stmt,
  directive_stmt, include, Names, resolve_target, resolve_relative_operand,
}
use irata.Assembler.Lexer.{
  TokenKind, Token, directive, string, end_of_file, lex, parse_number_literal,
}
use irata.Assembler.Lexer.Numbers.{
  Digit, hexadecimal, with_hash, with_prefix, digit_char, positional,
  parse_number_literal-positional,
}
use irata.Assembler.Lexer.Ends.{Lexed, lex-Lexed}
use irata.Assembler.Lexer
use irata.Assembler.Parser.{out_of_fuel, parse}
use irata.Assembler.Parser.Ends.{parse-Ended}
use irata.Assembler.Parser.Printed.{literal, name, parenthesized}
use irata.Assembler.Parser.Program.{
  Line, label_line, instruction_line, org_line, byte_line, include_line, statement_of,
  print_program, parse-print_program,
}
use irata.Assembler.Branch.{take_branch, resolve_relative_operand-target}
use irata.Assembler.FirstPass.{
  InstructionInfo, AddressingMode, imp, imm, rel, FirstPassResult, first_pass, instruction,
}
use irata.Assembler.FirstPass.Layout.{IsLaidOut, first_pass-IsLaidOut}
use irata.Assembler.Encode.{AssemblerOptions, encode}
use irata.Assembler.Encode.Cartridge.{load-encode}
use irata.Assembler.Include.{Files, process, unfinished}
use irata.Assembler.Include.Cycles.{process-self_include}

abbrev start_name : Text
start_name = 115 ∷ []

abbrev to_start : Operand
to_start = record {
  value = label start_name;
  immediate = false;
  indirect = false;
  index_register = no_index;
}

abbrev three : Operand
three = record { value = number 3; immediate = true; indirect = false; index_register = no_index }

abbrev beq_name : Text
beq_name = 98 ∷ 101 ∷ 113 ∷ []

abbrev lda_name : Text
lda_name = 108 ∷ 100 ∷ 97 ∷ []

-- s: LDA #3; beq s
abbrev program : List Statement
program =
    label_decl start_name
    ∷ instruction_stmt (76 ∷ 68 ∷ 65 ∷ []) (three ∷ [])
    ∷ instruction_stmt beq_name (to_start ∷ [])
    ∷ []

abbrev table : List InstructionInfo
table =
    record { mnemonic = lda_name; addressing_mode = imm; opcode = 0xa9 }
    ∷ record { mnemonic = beq_name; addressing_mode = rel; opcode = 0xf0 }
    ∷ []

abbrev operand_bytes : AddressingMode → Option ℕ
operand_bytes imp = some 0
operand_bytes imm = some 1
operand_bytes rel = some 1
operand_bytes mode = none

abbrev names : Names
names = record { symbols = (start_name, 0x8000) ∷ []; constants = [] }

abbrev assembled : FirstPassResult
assembled = record {
  items =
      record { address = 0x8000; kind = instruction 0xa9 imm 1; operands = three ∷ [] }
      ∷ record { address = 0x8002; kind = instruction 0xf0 rel 1; operands = to_start ∷ [] }
      ∷ [];
  names = names;
  max_address = 0x8003;
  cursor = 0x8004;
}

first_passed : first_pass table operand_bytes 0x8000 program ≡ ok assembled
unfolding first_pass
first_passed = refl

layout_example : IsLaidOut 0x8000 assembled
layout_example =
    first_pass-IsLaidOut table operand_bytes 0x8000 program assembled (omega arith) first_passed

branch_resolved : resolve_relative_operand names to_start 0x8002 ≡ ok 0xfc
unfolding resolve_relative_operand
branch_resolved = refl

branch_example :
    resolve_target names to_start
    ≡ ok ((tick_process take_branch (record { value = 0x8004; signed_offset = 0xfc })).value)
branch_example =
    resolve_relative_operand-target names to_start 0x8002 0xfc (omega arith, tt) branch_resolved

abbrev options : AssemblerOptions
options = record { origin = 0x8000; rom_size = 6 }

abbrev image : List ℕ
image = 0xa9 ∷ 3 ∷ 0xf0 ∷ 0xfc ∷ 0xff ∷ 0xff ∷ []

second_passed : encode assembled options ≡ ok image
unfolding encode
second_passed = refl

image_example :
    (load_cartridge (write_cartridge (default_header 0x8000 6) image)
      ≡ ok (record { header = default_header 0x8000 6; rom = image }))
    × (length image ≡ 6)
image_example = load-encode assembled options image (omega arith) (omega arith) second_passed

-- The file "a" includes itself; every other file is the program.
abbrev self_file : List Statement
self_file = directive_stmt include [] (97 ∷ []) ∷ program

abbrev files : Files
files = record {
  canonical = λ dir name. ok name;
  parent_path = λ path. [];
  load_and_parse = λ path. if same_text path (97 ∷ []) then ok self_file else ok program;
}

self_include_example : process files 1000 [] self_file ≡ err unfinished
self_include_example = process-self_include files 1000 (97 ∷ []) (97 ∷ []) [] program refl refl

included : process files 5 [] (directive_stmt include [] (98 ∷ []) ∷ []) ≡ ok program
unfolding process
included = refl

-- `lda #300 ; x`
tokens_example :
    Lexed (lex (b'l' ∷ b'd' ∷ b'a' ∷ b' ' ∷ b'#' ∷ b'3' ∷ b'0' ∷ b'0' ∷ b';' ∷ b'x' ∷ []))
tokens_example =
    lex-Lexed (b'l' ∷ b'd' ∷ b'a' ∷ b' ' ∷ b'#' ∷ b'3' ∷ b'0' ∷ b'0' ∷ b';' ∷ b'x' ∷ [])

abbrev upper_f : Digit
upper_f = (true, 15)

abbrev lower_f : Digit
lower_f = (false, 15)

abbrev large : List Digit
large =
    (true, 1) ∷ upper_f ∷ lower_f ∷ upper_f ∷ lower_f ∷ upper_f ∷ lower_f ∷ upper_f ∷ lower_f ∷ []

-- 0x1ffffffff is cut to 0xffffffff.
literal_example :
    parse_number_literal (with_hash true (with_prefix hexadecimal (map digit_char large)))
    ≡ ok (u32 (positional 16 large))
literal_example =
    parse_number_literal-positional true hexadecimal (true, 1)
      (upper_f ∷ lower_f ∷ upper_f ∷ lower_f ∷ upper_f ∷ lower_f ∷ upper_f ∷ lower_f ∷ [])
      (omega arith)

directive_tokens :
    lex (b'.' ∷ b'A' ∷ b' ' ∷ b'"' ∷ b'q' ∷ b'"' ∷ [])
    ≡ ok (
        record {
          kind = directive;
          text = b'a' ∷ [];
          line = 1;
          column = 1;
          span_length = 2;
          number = none;
          string_value = none;
        }
        ∷ record {
          kind = string;
          text = b'"' ∷ b'q' ∷ b'"' ∷ [];
          line = 1;
          column = 4;
          span_length = 3;
          number = none;
          string_value = some (b'q' ∷ []);
        }
        ∷ record {
          kind = end_of_file;
          text = [];
          line = 1;
          column = 7;
          span_length = 0;
          number = none;
          string_value = none;
        }
        ∷ [])
unfolding lex
directive_tokens = refl

abbrev token : TokenKind → Text → Token
token kind text = record {
  kind = kind;
  text = text;
  line = 1;
  column = 1;
  span_length = 1;
  number = some 3;
  string_value = none;
}

-- s: LDA #3; beq s
abbrev line_tokens : List Token
line_tokens =
    token Lexer.identifier start_name
    ∷ token Lexer.colon (58 ∷ [])
    ∷ token Lexer.identifier (76 ∷ 68 ∷ 65 ∷ [])
    ∷ token Lexer.number (35 ∷ 51 ∷ [])
    ∷ token Lexer.newline (10 ∷ [])
    ∷ token Lexer.identifier beq_name
    ∷ token Lexer.identifier start_name
    ∷ token Lexer.end_of_file []
    ∷ []

line_parsed : parse line_tokens ≡ ok program
unfolding parse
line_parsed = refl

parse_line_example : parse line_tokens ≢ err out_of_fuel
parse_line_example = parse-Ended line_tokens

-- .org 32768; s: LDA (s, x); LDA 3, s, Y; .byte 3, s; .include "a"
abbrev lines : List Line
lines =
    org_line (literal false 0x8000) []
    ∷ label_line start_name
    ∷ instruction_line lda_name (parenthesized (name false start_name) true) [] no_index
    ∷ instruction_line lda_name (literal false 3) (name false start_name ∷ []) index_y
    ∷ byte_line (literal false 3) (name false start_name ∷ [])
    ∷ include_line (97 ∷ [])
    ∷ []

print_lines_example : parse (print_program lines) ≡ ok (map statement_of lines)
print_lines_example =
    parse-print_program lines
      (tt, (tt, ((tt, refl), ((tt, (refl, refl), tt), ((tt, tt), (tt, tt))))))
