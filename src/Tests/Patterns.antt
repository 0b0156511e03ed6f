-- ===== src/Tests/Patterns.antt =====
-- The recovery of a pattern, and the exit statuses, at concrete inputs.
use yaradec.Prelude.{◌∷◌, [], some, none, false, refl, ◌≡◌, arith}
use yaradec.Prelude.Int.{pos}
use yaradec.Prelude.Text.{codes}
use yaradec.Result.{ok}
use yaradec.Bytes.{Bytes, pack}
use yaradec.Constants.ReOp
use yaradec.Arena.{Arena}
use yaradec.Arena.Access.{buffer}
use yaradec.Parser.Structs.{YrString}
use yaradec.Parser.Rules.{rule_strings}
use yaradec.Code.Bodies.{dict_get}
use yaradec.Acmatch.{collect_string_code, collect_loop, collect_match, update_entry, add_offset}
use yaradec.RePattern.Decode.{decode_instr, decode_op, read_operands, read_value}
use yaradec.RePattern.Programs.{
  program_containing, segment_programs, segment_loop, disassemble_program, disassemble_loop,
}
use yaradec.RePattern.Hex.{render_hex, hex_parts, hex_token}
use yaradec.RePattern.Writer.{literal}
use yaradec.RePattern.SegmentWriter.{final, write_all}
use yaradec.Decompile.Patterns.{
  Runtime, recover_patterns, recover_each, recover_pattern, render_programs, segments_of,
  sort_offsets, insert_offset,
}
use yaradec.Decompile.Filled.{AreFilled, recover_patterns-AreFilled}
use yaradec.Cli.{Printers, Arguments, info, disasm, main}
use yaradec.Cli.Status.{IsStatus, main-IsStatus, main_unsupported}

abbrev runtime : Runtime
runtime = record { double_repr = λ _. []; regex_limit = 100; set_order = λ ts. ts }

-- The pattern { 61 }, linked to the program at 0.
abbrev pattern : YrString
pattern = record {
  index = 0;
  identifier = codes "$a";
  flags = 0x42;
  rule_index = 0;
  length = pos 0;
  content = [];
  fixed_offset = none;
  chained_to = none;
  chain_gap_min = pos 0;
  chain_gap_max = pos 0;
  re_code_ref = none;
  rendered = none;
}

abbrev one_match : Bytes
one_match =
    pack (4 ∷ 4 ∷ 4 ∷ 4 ∷ 4 ∷ 4 ∷ 4 ∷ 4 ∷ 8 ∷ [])
      (3 ∷ 0 ∷ 7 ∷ 0 ∷ 0xFFFFFFFF ∷ 0xFFFFFFFF ∷ 0 ∷ 0 ∷ 0 ∷ [])

abbrev with_pattern : Arena
with_pattern = record {
  version = 21;
  buffers =
      []
      ∷ []
      ∷ []
      ∷ []
      ∷ []
      ∷ []
      ∷ []
      ∷ write_all (literal b'a' ∷ final ∷ [])
      ∷ []
      ∷ []
      ∷ one_match
      ∷ []
      ∷ [];
  relocations = [];
}

pattern_recovered :
    recover_patterns runtime with_pattern (pattern ∷ [])
    ≡ ok (record pattern { rendered = some (codes "{ 61 }") } ∷ [], [])
unfolding recover_patterns recover_each recover_pattern render_programs segments_of sort_offsets
    insert_offset buffer collect_string_code collect_loop collect_match update_entry add_offset
    dict_get program_containing segment_programs segment_loop decode_instr decode_op ReOp.of_byte
    ReOp.find_value read_operands read_value disassemble_program disassemble_loop ReOp.fixed_width
    hex_parts render_hex hex_token
pattern_recovered = refl

recover_patterns-AreFilled_example :
    AreFilled (pattern ∷ []) (record pattern { rendered = some (codes "{ 61 }") } ∷ [])
    × AreFilled
        (rule_strings (pattern ∷ []) 0)
        (rule_strings (record pattern { rendered = some (codes "{ 61 }") } ∷ []) 0)
recover_patterns-AreFilled_example =
    recover_patterns-AreFilled runtime with_pattern (pattern ∷ [])
      (record pattern { rendered = some (codes "{ 61 }") } ∷ []) [] 0 pattern_recovered

abbrev printers : Printers
printers = record { message = λ e. codes "error"; dumps = λ p. codes "{}" }

abbrev asking : Arguments
asking = record { path = codes "rules.yarc"; format = info; no_listing = false; lenient = false }

-- The header of a file that YARA 4.2 wrote.
abbrev older : Bytes
older = b'Y' ∷ b'A' ∷ b'R' ∷ b'A' ∷ 19 ∷ 12 ∷ []

main-IsStatus_example : IsStatus (main runtime printers asking older)
main-IsStatus_example = main-IsStatus runtime printers asking older refl

main_unsupported_example : main runtime printers (record asking { format = disasm }) older ≡ some 3
main_unsupported_example =
    main_unsupported runtime printers (record asking { format = disasm }) older (omega arith) refl
      (λ e. absurd (omega arith))
