-- ===== src/Lib.antt =====
-- YARAdec turns compiled YARA rules (format version 21) back into source text. This library models
-- the program from the bytes of a file to the text, over lists of bytes: the container reader, the
-- parser of its sections, the two bytecode decoders, the recovery of conditions and patterns, and
-- the emitter. `yaradec/decompile.py` composes them: it reads the file with `Arena.parse` and
-- `RulesParser`, fills in the patterns by way of the Aho-Corasick matches, disassembles the
-- condition code, cuts it into the rules' bodies and runs the recovery on each, and hands the
-- rules to `render_all`; literals and regexps are fetched from the arena by the references in the
-- code.
--
-- QuotedText: quoted text as YARA's lexer reads it, up to the quote that ends it.
-- Prelude: Boolean tests on the native numbers, lists, two's complement, and texts as lists of
--     code points.
-- Result: the exceptions as values. Each handler of the source is a `catch` or a case.
-- Bytes: slices, `struct.unpack_from` for little-endian fields, `find` of a NUL, and UTF-8
--     decoding with replacement; Bytes.Laws holds their lemmas.
-- Arena: `Arena.parse` of yaradec/arena.py; Arena.Access its accessors. Arena.Layout is the format
--     as a writer, which Arena.RoundTrip holds `parse` against; Arena.Reads and Arena.Parsing say
--     what accessors and `parse` return, Arena.Errors what they raise.
-- Constants: yaradec/constants.py, with an enumeration per class; Op.value and ReOp.value are the
--     numbers.
-- RePattern: yaradec/repattern.py. Decode is `decode_instr`, Programs `disassemble_program`,
--     `segment_programs`, `program_containing` and `literal_runs`, CharClass the class printer,
--     Hex `render_hex`, Pieces the folding and formatting of quantified pieces, Regex
--     `_RegexRenderer`, Listing `format_disassembly`. Writer and SegmentWriter lay out the
--     bytecode, Boundaries and Segments treat arbitrary bytes, ClassMeaning compares a printed
--     class with its bitmap, PieceMeaning says what quantified pieces match and PieceSplit that
--     folding adds nothing.
-- Code: yaradec/code.py. Decode is `decode` and `disassemble`, Bodies `split_rule_bodies` and
--     Blocks its streams, Loops `_find_loops`, Expr and Literals the expression model, Condition
--     the class `ConditionRecovery`: its state and early returns are the monad `Exec`, its methods
--     are functions of the same names. Listing is `format_listing`. Writer lays out the bytecode,
--     Termination counts the rounds of `disassemble`, Unescape reads back what `_escape_bytes`
--     writes, Operators holds the tables of operators and the numerals that conditions are
--     described with, and Compiled describes conditions as trees with their bytecode and text,
--     which Compiled.Correct and Compiled.Program hold the recovery against.
-- Parser: yaradec/parser.py. Structs has its dataclasses, Metas, Strings and Rules the methods of
--     `RulesParser` and `parse_file`, from the file's bytes on; Errors says what they raise.
--     MetaWriter, SpaceWriter, StringWriter and RuleWriter lay out the tables, which RoundTrip
--     holds the parser against; RuleStrings says which strings a rule has. What `sorted` does is
--     `sort_strings`, a stable insertion sort.
-- Acmatch: `collect_string_code` of yaradec/acmatch.py; Acmatch.Matches holds it against the
--     entries of the pool.
-- B64: yaradec/b64.py. Codec is what it uses of Python's module base64, Quads and Candidates treat
--     a plaintext's whole groups and the tails, Recovery says when a plaintext is recovered.
-- Emit: yaradec/emit.py. Escape is `escape_text`, Strings the bodies and modifiers, Rules
--     `render_rule` and `render_all`, and Warnings the warnings as data. Quoted reads back what
--     `escape_text` writes, Legality treats bodies and modifiers, Groups the namespaces.
-- Decompile: yaradec/decompile.py. Patterns is `_recover_patterns`, Pipeline `decompile`. A
--     `YrString` is one object in the source, shared by the table and its rule; here the table is
--     what the recovery of patterns returns, and `fill_patterns` takes the rules' strings from it.
--     Filled says that these are the rules' strings still, Recovery what becomes of the
--     conditions, Names what these may name, and Whole what `decompile` returns of a whole file.
-- Cli: the texts of `--format info` and `disasm` of yaradec/cli.py, and the exit status of `main`,
--     which Cli.Status treats; Cli.Json has the values that `_to_json` hands on.
-- Tests: runs at concrete inputs.
--
-- Bounds: the loops over bytes take as many rounds as there are bytes and one more; a round takes
-- at least one byte, so that is enough; the error `out_of_fuel` stands for fuel that ran out. A
-- nested recovery is at most nine levels deep, as in the source. The regexp renderer recurses
-- without a bound in Python; its depth here is the parameter `regex_limit`, and beyond it stands
-- Python's RecursionError.
--
-- Parameters: the record `Runtime` has `repr` of a double, the depth of Python's recursion limit
-- in the regexp renderer, and the order in which a set of texts is run through; the record
-- `Printers` has `str` of an exception and `json.dumps`.
--
-- Not modelled: `from_file`, the parsing of arguments, and the reading, writing and printing of
-- `main`, which are input and output; the texts of warnings and exceptions, which are data here;
-- the scripts under tools/ and tests/, which call YARA itself. The handler of `CodeError` in
-- `decompile` has no counterpart, since the recovery that it guards decodes nothing.
pub mod Prelude
pub mod Result
pub mod Bytes
pub mod Arena
pub mod Constants
pub mod RePattern
pub mod Code
pub mod Parser
pub mod Acmatch
pub mod B64
pub mod Emit
pub mod Decompile
pub mod Cli
pub mod Tests
pub mod QuotedText
