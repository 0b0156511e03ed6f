-- ===== src/Tests/Pipeline.antt =====
-- A whole file at a concrete input, and the recovery of a pattern.
use yaradec.Prelude.{All, map, ◌++◌, ◌∷◌, [], List, some, none, true, ◌≡◌, ℕ, arith}
use mathlib.Core.Path.{refl}
use yaradec.Prelude.Int.{pos}
use yaradec.Prelude.Text.{codes}
use yaradec.Result.{ok}
use yaradec.Bytes.{Bytes, pack, find_nul}
use yaradec.Bytes.Utf8.{decode_utf8}
use yaradec.Constants.Op
use yaradec.Constants.Section
use yaradec.Arena.{Arena}
use yaradec.Arena.Layout.{save, IsSavable}
use yaradec.Arena.RoundTrip.{parse-save}
use yaradec.Arena.Access.{buffer, cstring, cstring_bytes, cstring_list, cstring_list_bytes}
use yaradec.Code.Bodies.{dict_get}
use yaradec.Code.Writer.{write, write_all, halt, Fits}
use yaradec.Code.Blocks.{New}
use yaradec.Code.Compiled.{str, number, filesize, binary_op}
use yaradec.Code.Compiled.Program.{program, blocks}
use yaradec.Parser.Structs.{YrString, Rule, CompiledRules}
use yaradec.Parser.Metas.{parse_metas}
use yaradec.Parser.Strings.{strings_loop, parse_strings}
use yaradec.Parser.Rules.{
  read_summary, namespaces_loop, parse_namespaces, strings_of_rule, insert_string, sort_strings,
  rule_strings, namespace_of, rule_of, rules_loop, parse_rules, parse_compiled,
}
use yaradec.Emit.Rules.{default_options}
use yaradec.Decompile.Patterns.{
  Runtime, recover_patterns, recover_each, recover_pattern, render_programs, segments_of,
  sort_offsets, insert_offset,
}
use yaradec.Decompile.Pipeline.{Decompiled, decompile}
use yaradec.Decompile.Recovery.{Source, codes_of}
use yaradec.Decompile.Names.{Distinct, string_pair, rule_pair}
use yaradec.Decompile.Whole.{IsSource, Decompiles, decompile-write}
use yaradec.Constants.ReOp
use yaradec.Acmatch.{collect_string_code, collect_loop, collect_match, update_entry, add_offset}
use yaradec.RePattern.Decode.{decode_instr, decode_op, read_operands, read_value}
use yaradec.RePattern.Programs.{
  program_containing, segment_programs, segment_loop, disassemble_program, disassemble_loop,
}
use yaradec.RePattern.Hex.{render_hex, hex_parts, hex_token}
use yaradec.RePattern.Writer as Re
use yaradec.RePattern.SegmentWriter as Program
use yaradec.RePattern.SegmentWriter.{final}
use yaradec.Parser.Strings.{string_format, string_of, string_content, chain_target}

abbrev runtime : Runtime
runtime = record { double_repr = λ _. []; regex_limit = 100; set_order = λ ts. ts }

-- rule main { strings: $a = { 61 } condition: $a and filesize > 300 }, in the namespace default.
abbrev pattern : YrString
pattern = record {
  index = 0;
  identifier = codes "$a";
  flags = 0x2;
  rule_index = 0;
  length = pos 0;
  content = [];
  fixed_offset = none;
  chained_to = none;
  chain_gap_min = pos 0;
  chain_gap_max = pos 0;
  re_code_ref = none;
  rendered = none;
}

abbrev main_rule : Rule
main_rule = record {
  index = 0;
  identifier = codes "main";
  namespace = some (codes "default");
  flags = 0;
  tags = [];
  metas = [];
  strings = pattern ∷ [];
  num_atoms = pos 0;
  required_strings = 0;
  condition = none;
}

abbrev sources : List Source
sources =
    record {
      rule = main_rule;
      condition = binary_op Op.and (str 0) (binary_op Op.int_gt filesize (number 300));
      skip = pos 20;
    }
    ∷ []

abbrev null : ℕ
null = 0xFFFFFFFF

abbrev section : Bytes
section = write_all (program (codes_of sources)) ++ (write halt ++ [])

abbrev file : Arena
file = record {
  version = 21;
  buffers =
      pack (4 ∷ 4 ∷ 8 ∷ []) (5 ∷ 0 ∷ 0 ∷ [])
      ∷ pack (4 ∷ 4 ∷ 4 ∷ 4 ∷ 4 ∷ 4 ∷ 4 ∷ 4 ∷ 4 ∷ 4 ∷ 4 ∷ 4 ∷ 4 ∷ 4 ∷ [])
          (0 ∷ 0 ∷ 0 ∷ 0 ∷ 5 ∷ 8 ∷ null ∷ null ∷ null ∷ null ∷ null ∷ null ∷ 0 ∷ 0 ∷ [])
      ∷ []
      ∷ pack string_format (2 ∷ 0 ∷ 0 ∷ 0 ∷ 0 ∷ null ∷ null ∷ null ∷ null ∷ 0 ∷ 0 ∷ 5 ∷ 13 ∷ [])
      ∷ []
      ∷ (codes "default" ++ (0 ∷ (codes "main" ++ (0 ∷ (codes "$a" ++ (0 ∷ []))))))
      ∷ section
      ∷ Program.write_all (Re.literal b'a' ∷ final ∷ [])
      ∷ []
      ∷ []
      ∷ pack (4 ∷ 4 ∷ 4 ∷ 4 ∷ 4 ∷ 4 ∷ 4 ∷ 4 ∷ 8 ∷ []) (3 ∷ 0 ∷ 7 ∷ 0 ∷ null ∷ null ∷ 0 ∷ 0 ∷ 0 ∷ [])
      ∷ pack (4 ∷ 4 ∷ 4 ∷ []) (1 ∷ 1 ∷ 1 ∷ [])
      ∷ [];
  relocations = [];
}

file-IsSavable : IsSavable file
unfolding Op.operands
file-IsSavable = record {
  current = refl;
  few = omega arith;
  small = (
    omega arith,
    (
      omega arith,
      (
        omega arith,
        (
          omega arith,
          (
            omega arith,
            (
              omega arith,
              (
                omega arith,
                (omega arith, (omega arith, (omega arith, (omega arith, (omega arith, tt))))),
              ),
            ),
          ),
        ),
      ),
    ),
  );
  reachable = omega arith;
  places = tt;
}

abbrev tables : CompiledRules
tables = record {
  arena = file;
  summary = record { num_rules = 1; num_strings = 1; num_namespaces = 1 };
  namespaces = codes "default" ∷ [];
  rules = main_rule ∷ [];
  strings = pattern ∷ [];
  imports = [];
}

parsed : parse_compiled file ≡ ok tables
unfolding parse_compiled read_summary parse_namespaces namespaces_loop parse_strings strings_loop
    string_of string_content chain_target parse_rules rules_loop rule_of rule_strings sort_strings
    insert_string strings_of_rule namespace_of parse_metas buffer cstring cstring_bytes cstring_list
    cstring_list_bytes find_nul decode_utf8
parsed = refl

abbrev recovered : YrString
recovered = record pattern { rendered = some (codes "{ 61 }") }

pattern_found : recover_patterns runtime file (pattern ∷ []) ≡ ok (recovered ∷ [], [])
unfolding recover_patterns recover_each recover_pattern render_programs segments_of sort_offsets
    insert_offset buffer collect_string_code collect_loop collect_match update_entry add_offset
    dict_get program_containing segment_programs segment_loop decode_instr decode_op ReOp.of_byte
    ReOp.find_value read_operands read_value disassemble_program disassemble_loop ReOp.fixed_width
    hex_parts render_hex hex_token
pattern_found = refl

section_read : buffer file Section.code_section ≡ ok section
unfolding buffer
section_read = refl

distinct :
    Distinct [] (map string_pair (recovered ∷ [])) × Distinct [] (map rule_pair (main_rule ∷ []))
unfolding dict_get
distinct = ((refl, tt), (refl, tt))

sources-IsSource : All (IsSource runtime tables (recovered ∷ [])) sources
unfolding dict_get
sources-IsSource = (
  (λ picked chosen. ((_, refl), (omega arith, (codes "$a", refl)), ((_, refl), tt, omega arith))),
  tt,
)

sources-New : New [] (blocks 0 (codes_of sources))
unfolding dict_get
sources-New = (refl, tt)

sources-Fits : All Fits (program (codes_of sources))
unfolding Op.operands
sources-Fits = (
  ((omega arith, omega arith), omega arith),
  (
    omega arith,
    (tt, ((omega arith, omega arith), (tt, (omega arith, (tt, (tt, (omega arith, tt))))))),
  ),
)

decompile-write_example :
    (d : Decompiled) × (decompile runtime default_options true (save file) ≡ ok d)
    × Decompiles runtime default_options tables (recovered ∷ []) [] sources d
decompile-write_example =
    decompile-write runtime default_options true (save file) file tables (recovered ∷ []) [] sources
      [] (parse-save file true file-IsSavable) parsed pattern_found section_read refl distinct.0
      distinct.1 sources-IsSource sources-New sources-Fits
