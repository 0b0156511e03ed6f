-- ===== src/Cli.antt =====
-- yaradec/cli.py: the texts of the commands `info` and `disasm`, the values of the JSON form, and the
-- exit status. Arguments, files and the printing are input and output.
pub mod Json
pub mod Status
use yaradec.Cli.Json.{Payload, payload}
use yaradec.Prelude.{
  get_elem?, length, if◌then◌else◌, ◌==◌, ◌++◌, ◌∷◌, [], List, some, none, Option, not, true, Bool,
  ◌/◌, suc, ℕ,
}
use yaradec.Prelude.Strip.{pad_left, pad_right}
use yaradec.Prelude.Text.{Text, codes, join, show_dec}
use yaradec.Result.{
  Result, ok, err, ◌>>=◌, map_ok, Error, ArenaError, arena_error, unsupported_version,
}
use yaradec.Bytes.{Bytes}
use yaradec.Arena.{Arena, Ref, parse}
use yaradec.Arena.Access.{buffer, cstring}
use yaradec.Constants.{sizeof_string}
use yaradec.Constants.Section
use yaradec.Code.Decode.{Instr, disassemble, unpack_ref}
use yaradec.Code.Listing.{format_listing}
use yaradec.RePattern.Decode.{ReInstr}
use yaradec.RePattern.Programs.{segment_programs, disassemble_program}
use yaradec.RePattern.Listing.{format_disassembly}
use yaradec.Emit.Rules.{EmitOptions}
use yaradec.Emit.Warnings.{Warning}
use yaradec.Decompile.Patterns.{Runtime}
use yaradec.Decompile.Pipeline.{Decompiled, decompile}

-- `Section(i).name`
abbrev pub section_names : List Text
section_names =
    codes "NAMESPACES_TABLE"
    ∷ codes "RULES_TABLE"
    ∷ codes "METAS_TABLE"
    ∷ codes "STRINGS_TABLE"
    ∷ codes "EXTERNAL_VARIABLES_TABLE"
    ∷ codes "SZ_POOL"
    ∷ codes "CODE_SECTION"
    ∷ codes "RE_CODE_SECTION"
    ∷ codes "AC_TRANSITION_TABLE"
    ∷ codes "AC_STATE_MATCHES_TABLE"
    ∷ codes "AC_STATE_MATCHES_POOL"
    ∷ codes "SUMMARY_SECTION"
    ∷ []

abbrev pub or_unnamed : Option Text → Text
or_unnamed none = codes "?"
or_unnamed (some name) = name

abbrev pub info_line : Text → Text → Text → Text
info_line id name size =
    pad_left b' ' 3 id ++ (codes "  " ++ (pad_right 28 name ++ (b' ' ∷ pad_left b' ' 9 size)))

unfoldable pub buffer_lines : ℕ → List Bytes → List Text
buffer_lines i [] = []
buffer_lines i (buf ∷ bufs) =
    info_line (show_dec i) (or_unnamed (get_elem? section_names i)) (show_dec (length buf))
    ∷ buffer_lines (suc i) bufs

unfoldable pub cmd_info : Text → Bytes → Result Text
cmd_info path input =
    map_ok
      (λ (a : Arena). join (codes "\n") (
        (codes "file:            " ++ path)
        ∷ (codes "arena version:   " ++ show_dec a.version)
        ∷ (codes "buffers:         " ++ show_dec (length a.buffers))
        ∷ (codes "relocations:     " ++ show_dec (length a.relocations))
        ∷ []
        ∷ info_line (codes "id") (codes "section") (codes "bytes")
        ∷ buffer_lines 0 a.buffers))
      (parse input true)

abbrev pub quoted_or_none : Result (Option Text) → Option Text
quoted_or_none (ok (some text)) = some (b'"' ∷ (text ++ codes "\""))
quoted_or_none _ = none

abbrev pub resolve_ref : Arena → Ref → Option Text
resolve_ref a ref =
    if ref.buffer_id == Section.sz_pool
    then quoted_or_none (cstring a ref)
    else if ref.buffer_id == Section.strings_table
    then some (codes "string[" ++ (show_dec (ref.offset / sizeof_string) ++ codes "]"))
    else none

abbrev pub resolve_operand : Arena → Option ℕ → Option Text
resolve_operand a none = none
resolve_operand a (some v) = resolve_ref a (unpack_ref v)

-- The listing of one program, given the text of a decoding error.
abbrev pub program_lines : (Error → Text) → Result (List ReInstr) → List Text
program_lines message (ok instrs) = format_disassembly instrs
program_lines message (err e) = (codes "  ; " ++ message e) ∷ []

unfoldable pub programs_lines : (Error → Text) → Bytes → List (ℕ × ℕ) → List Text
programs_lines message re_code [] = []
programs_lines message re_code ((start, end) ∷ segs) =
    (codes "; program @ " ++ (show_dec start ++ (codes ".." ++ show_dec end)))
    ∷ (program_lines message (disassemble_program re_code start)
        ++ programs_lines message re_code segs)

abbrev pub re_code_lines : (Error → Text) → Bytes → List Text
re_code_lines message [] = []
re_code_lines message (b ∷ bs) =
    []
    ∷ (codes "; ---- regexp programs (" ++ (show_dec (length (b ∷ bs)) ++ codes " bytes) ----"))
    ∷ programs_lines message (b ∷ bs) (segment_programs (b ∷ bs))

-- `message` is `str` of an exception.
unfoldable pub cmd_disasm : (Error → Text) → Bytes → Result Text
cmd_disasm message input = parse input true >>= λ (a : Arena).
    buffer a Section.code_section >>= λ (code : Bytes).
    disassemble code >>= λ (instrs : List Instr).
    map_ok
      (λ (re_code : Bytes). join (codes "\n") (
        (codes "; ---- condition VM code (" ++ (show_dec (length code) ++ codes " bytes) ----"))
        ∷ (format_listing (λ ins. resolve_operand a ins.operand) instrs
            ++ re_code_lines message re_code)))
      (buffer a Section.re_code_section)

-- The choices of `--format`.
pub data Format : Type 0 where
  yara json disasm info : Format

pub record Arguments : Type 0 where
  pub path : Text
  pub format : Format
  pub no_listing : Bool
  pub lenient : Bool

abbrev pub no_warnings : Text → Text × List Warning
no_warnings output = (output, [])

-- What `main` calls and is not shown: `str` of an exception, and `json.dumps` with an indent of 2.
pub record Printers : Type 0 where
  pub message : Error → Text
  pub dumps : Payload → Text

abbrev pub run_decompile :
    Runtime → Arguments → (Decompiled → Text) → Bytes → Result (Text × List Warning)
run_decompile rt args show input =
    map_ok (λ (d : Decompiled). (show d, d.warnings))
      (decompile rt (record { indent = codes "    "; include_listing = not args.no_listing })
        (not args.lenient) input)

-- `output` and `warnings` of `main`.
abbrev pub run_format :
    Runtime → Printers → Arguments → Format → Bytes → Result (Text × List Warning)
run_format rt out args info input = map_ok no_warnings (cmd_info args.path input)
run_format rt out args disasm input = map_ok no_warnings (cmd_disasm out.message input)
run_format rt out args json input = run_decompile rt args (λ d. out.dumps (payload d)) input
run_format rt out args yara input = run_decompile rt args (λ d. d.source) input

abbrev pub status : ArenaError → ℕ
status (unsupported_version v release) = 3
status _ = 2

-- The exit status of `main` on a file that is there; `none` is an exception that escapes it.
abbrev pub exit_status {ℓ} : {A : Type ℓ} → Result A → Option ℕ
exit_status (ok out) = some 0
exit_status (err (arena_error e)) = some (status e)
exit_status (err _) = none

unfoldable pub main : Runtime → Printers → Arguments → Bytes → Option ℕ
main rt out args input = exit_status (run_format rt out args args.format input)
