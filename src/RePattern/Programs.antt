-- ===== src/RePattern/Programs.antt =====
-- `disassemble_program`, `segment_programs`, `program_containing` and `literal_runs` of repattern.py.
use yaradec.Prelude.{
  false, true, length, if◌then◌else◌, leb, ltb, ◌++◌, ◌∷◌, [], List, some, none, Option, ◌&&◌, Bool,
  suc, zero, ℕ,
}
use yaradec.Result.{Result, ok, err, ◌>>=◌, map_ok, out_of_fuel}
use yaradec.Bytes.{Bytes}
use yaradec.Constants.ReOp.{ReOp}
use yaradec.RePattern.Decode.{ReInstr, stop, decode_instr}

abbrev pub is_match_op : ReOp → Bool
is_match_op ReOp.match = true
is_match_op _ = false

abbrev pub is_match : ReInstr → Bool
is_match ins = is_match_op ins.op

-- The `while True` loop; every instruction has a size, so `length code` rounds reach its end.
unfoldable pub disassemble_loop : ℕ → Bytes → ℕ → Result (List ReInstr)
disassemble_loop zero code off = err out_of_fuel
disassemble_loop (suc fuel) code off = do
  ins ← decode_instr code off
  let rest = disassemble_loop fuel code (stop ins)
  if is_match ins then ok (ins ∷ []) else map_ok (λ more. ins ∷ more) rest

unfoldable pub disassemble_program : Bytes → ℕ → Result (List ReInstr)
disassemble_program code start = disassemble_loop (suc (length code)) code start

-- One round behind `decode_instr`: an undecodable instruction ends the walk.
abbrev pub segment_round : ℕ → Result ReInstr → (ℕ → ℕ → List (ℕ × ℕ)) → List (ℕ × ℕ)
segment_round start (err e) go = []
segment_round start (ok ins) go =
    if is_match ins then (start, stop ins) ∷ go (stop ins) (stop ins) else go (stop ins) start

unfoldable pub segment_loop : ℕ → Bytes → ℕ → ℕ → List (ℕ × ℕ)
segment_loop zero code off start = []
segment_loop (suc fuel) code off start =
    if ltb off (length code)
    then segment_round start (decode_instr code off)
        (λ off' start'. segment_loop fuel code off' start')
    else []

unfoldable pub segment_programs : Bytes → List (ℕ × ℕ)
segment_programs code = segment_loop (length code) code 0 0

unfoldable pub program_containing : List (ℕ × ℕ) → ℕ → Option (ℕ × ℕ)
program_containing [] offset = none
program_containing (seg ∷ segs) offset =
    if leb seg.0 offset && ltb offset seg.1 then some seg else program_containing segs offset

-- The byte of a LITERAL instruction.
abbrev pub literal_byte : ReOp → Option ℕ → Option ℕ
literal_byte ReOp.literal value = value
literal_byte _ value = none

abbrev flush : List ℕ → List (List ℕ) → List (List ℕ)
flush [] runs = runs
flush (c ∷ current) runs = (c ∷ current) ∷ runs

-- `current` holds the run being collected.
runs_from : List ℕ → List ReInstr → List (List ℕ)
runs_from current [] = flush current []
runs_from current (ins ∷ rest) = elim (literal_byte ins.op ins.value) [
  | some c ↦ runs_from (current ++ (c ∷ [])) rest
  | none ↦ flush current (runs_from [] rest)
]

unfoldable pub literal_runs : List ReInstr → List (List ℕ)
unfolding runs_from
literal_runs instrs = runs_from [] instrs
