-- ===== src/Tests/Programs.antt =====
-- Regexp programs as YARA compiles them, and what repattern.py makes of them.
use yaradec.Bytes.{IsByte, IsByte, Bytes}
use yaradec.Prelude.{
  ◌↔◌, true, inr, All, ◌++◌, ◌∷◌, [], List, some, ◌≡◌, refl, ◌<◌, ◌≤◌, ◌⊎◌, arith,
}
use yaradec.Result.{ok, err, past_end, unknown_re_opcode, truncated_instr}
use yaradec.Constants.ReOp
use yaradec.Constants.ReOp.{ReOp}
use yaradec.RePattern.CharClass.{ranges_of}
use yaradec.RePattern.ClassMeaning.{expand, expand-ranges_of}
use yaradec.RePattern.Pieces.{Piece, piece, merge_pieces}
use yaradec.RePattern.PieceMeaning.{Spells}
use yaradec.RePattern.PieceSplit.{merge_pieces-Spells_iff}
use yaradec.Prelude.Text.{Text, codes}
use yaradec.RePattern.Decode.{stop, decode_instr}
use yaradec.RePattern.Programs.{segment_programs, program_containing, disassemble_program}
use yaradec.RePattern.Writer.{Code, plain, literal, write, Fits, instr, decode_instr-write}
use yaradec.RePattern.Boundaries.{decode_instr-inv, decode_instr-err}
use yaradec.RePattern.Segments.{
  Chain, IsProgram, segment_programs-Chain, segment_programs-IsProgram, program_containing-Chain,
}
use yaradec.RePattern.SegmentWriter.{
  IsBody, write_program, write_programs, final, segment_programs-write, disassemble_program-write,
}

-- A literal whose value is the opcode of MATCH.
abbrev tricky : Code
tricky = literal 0xAD

abbrev tricky_body : List Code
tricky_body = tricky ∷ plain ReOp.any ∷ []

tricky-Fits : Fits tricky
tricky-Fits = omega arith

decode_instr-write_example : decode_instr (write tricky ++ (7 ∷ [])) 0 ≡ ok (instr 0 tricky)
decode_instr-write_example =
    decode_instr-write (write tricky ++ (7 ∷ [])) 0 tricky (7 ∷ []) tricky-Fits refl

decode_instr-inv_example :
    ((instr 0 tricky).offset ≡ 0) × (0 < stop (instr 0 tricky)) × (stop (instr 0 tricky) ≤ 3)
decode_instr-inv_example =
    decode_instr-inv (write tricky ++ (7 ∷ [])) 0 (instr 0 tricky) decode_instr-write_example

nothing_there : decode_instr [] 0 ≡ err (past_end 0)
unfolding decode_instr
nothing_there = refl

decode_instr-err_example :
    (past_end 0 ≡ past_end 0)
    ⊎ (past_end 0 ≡ unknown_re_opcode 0)
    ⊎ (past_end 0 ≡ truncated_instr 0)
decode_instr-err_example = decode_instr-err [] 0 (past_end 0) nothing_there

tricky-IsBody : IsBody tricky_body
unfolding ReOp.fixed_width
tricky-IsBody = ((omega arith, refl), ((refl, refl), tt))

segment_programs-write_example :
    segment_programs (write_programs (tricky_body ∷ [] ∷ [])) ≡ (0, 4) ∷ (4, 5) ∷ []
segment_programs-write_example =
    segment_programs-write (tricky_body ∷ [] ∷ []) (tricky-IsBody, (tt, tt))

disassemble_program-write_example :
    disassemble_program (write_program tricky_body ++ (1 ∷ [])) 0
    ≡ ok (instr 0 tricky ∷ instr 2 (plain ReOp.any) ∷ instr 3 final ∷ [])
disassemble_program-write_example =
    disassemble_program-write (write_program tricky_body ++ (1 ∷ [])) tricky_body 0 (1 ∷ [])
      tricky-IsBody refl

segment_programs-Chain_example : Chain 4 0 (segment_programs (write_program tricky_body))
segment_programs-Chain_example = segment_programs-Chain (write_program tricky_body)

segment_programs-IsProgram_example :
    All (IsProgram (write_program tricky_body)) (segment_programs (write_program tricky_body))
segment_programs-IsProgram_example = segment_programs-IsProgram (write_program tricky_body)

program_containing-Chain_example :
    program_containing ((0, 4) ∷ (4, 5) ∷ (5, 9) ∷ []) 4 ≡ some (4, 5)
program_containing-Chain_example =
    program_containing-Chain ((0, 4) ∷ []) 9 0 4 (4, 5) ((5, 9) ∷ [])
      (refl, omega arith, (refl, omega arith, (refl, omega arith, omega arith))) (omega arith)
      (omega arith)

expand-ranges_of_example : expand (ranges_of (4 ∷ 5 ∷ 6 ∷ 9 ∷ [])) ≡ 4 ∷ 5 ∷ 6 ∷ 9 ∷ []
expand-ranges_of_example = expand-ranges_of (4 ∷ 5 ∷ 6 ∷ 9 ∷ [])

-- The bitmap of all but the digits 0 to 7.
abbrev most : Bytes
most =
    255 ∷ 255 ∷ 255 ∷ 255 ∷ 255 ∷ 255 ∷ 0 ∷ 255 ∷ 255 ∷ 255 ∷ 255 ∷ 255 ∷ 255 ∷ 255 ∷ 255 ∷ 255
    ∷ 255 ∷ 255 ∷ 255 ∷ 255 ∷ 255 ∷ 255 ∷ 255 ∷ 255 ∷ 255 ∷ 255 ∷ 255 ∷ 255 ∷ 255 ∷ 255 ∷ 255 ∷ 255
    ∷ []

-- `aa{1,2}a?`, and three copies of `a`.
abbrev pieces : List Piece
pieces = piece (codes "a") 1 1 true ∷ piece (codes "a") 1 2 true ∷ piece (codes "a") 0 1 true ∷ []

abbrev three : List Text
three = codes "a" ∷ codes "a" ∷ codes "a" ∷ []

merge_pieces-Spells_iff_example : Spells pieces three ↔ Spells (merge_pieces pieces) three
merge_pieces-Spells_iff_example =
    merge_pieces-Spells_iff pieces three
      (
        inr (omega arith, omega arith),
        (inr (omega arith, omega arith), (inr (omega arith, omega arith), tt)),
      )
      (omega arith)
