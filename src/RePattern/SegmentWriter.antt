-- ===== src/RePattern/SegmentWriter.antt =====
-- `segment_programs` and `disassemble_program` of repattern.py on programs that are laid end to end
-- with the writer of `Writer`.
use yaradec.Result.{ok}
use mathlib.Core.List.{append_assoc}
use yaradec.Prelude.{
  length-drop, ◌<◌, length-append, ◌∙◌, ap, All, drop, length, ltb, arith, ◌++◌, ◌∷◌, [], List,
  false, true, refl, ◌≡◌, ◌≤◌, ◌-◌, ◌+◌, suc, zero, ℕ,
}
use yaradec.Bytes.{Bytes}
use yaradec.Bytes.Laws.{drop_past, length_at}
use yaradec.Constants.ReOp
use yaradec.Constants.ReOp.{ReOp}
use yaradec.RePattern.Decode.{ReInstr}
use yaradec.RePattern.Writer.{
  Code, plain, op_of, write, Fits, instr, op-instr, stop-instr, decode_instr-write,
}
use yaradec.RePattern.Programs.{
  is_match, is_match_op, disassemble_loop, disassemble_program, segment_loop, segment_programs,
}

abbrev pub write_all : List Code → Bytes
write_all [] = []
write_all (c ∷ cs) = write c ++ write_all cs

-- The closing instruction of a program.
abbrev pub final : Code
final = plain ReOp.match

-- A program's instructions up to its MATCH.
abbrev pub IsBody : List Code → Type 0
IsBody cs = All (λ c. Fits c × (is_match_op (op_of c) ≡ false)) cs

abbrev pub write_program : List Code → Bytes
write_program cs = write_all cs ++ write final

abbrev pub write_programs : List (List Code) → Bytes
write_programs [] = []
write_programs (p ∷ ps) = write_program p ++ write_programs ps

-- Where the programs stand when the first is at `off`.
abbrev pub spans : ℕ → List (List Code) → List (ℕ × ℕ)
spans off [] = []
spans off (p ∷ ps) =
    (off, off + length (write_program p)) ∷ spans (off + length (write_program p)) ps

abbrev pub instrs : ℕ → List Code → List ReInstr
instrs off [] = []
instrs off (c ∷ cs) = instr off c ∷ instrs (off + length (write c)) cs

final-Fits : Fits final
unfolding ReOp.fixed_width
final-Fits = refl

module _ (code : Bytes) where
  here_inside :
      (off : ℕ) (c : Code) (rest : Bytes)
      → drop off code ≡ write c ++ rest
      → ltb off (length code) ≡ true
  here_inside off c rest h = ground (arith, length_at code off (write c) rest h)

  step-other :
      (fuel off start : ℕ) (c : Code) (rest : Bytes)
      → Fits c
      → is_match_op (op_of c) ≡ false
      → drop off code ≡ write c ++ rest
      → segment_loop (suc fuel) code off start
        ≡ segment_loop fuel code (off + length (write c)) start
  unfolding segment_loop
  step-other fuel off start c rest fits other h =
      rw (here_inside off c rest h, decode_instr-write code off c rest fits h)
        (rw (op-instr off c)
          (rw other (ap (λ n. segment_loop fuel code n start) (stop-instr off c fits))))

  step-match :
      (fuel off start : ℕ) (rest : Bytes)
      → drop off code ≡ write final ++ rest
      → segment_loop (suc fuel) code off start
        ≡ (start, off + 1) ∷ segment_loop fuel code (off + 1) (off + 1)
  unfolding segment_loop
  step-match fuel off start rest h =
      rw (here_inside off final rest h, decode_instr-write code off final rest final-Fits h)
        (ap (λ n. (start, n) ∷ segment_loop fuel code n n) (stop-instr off final final-Fits))

  -- A body moves the walk on, and leaves the start where it is.
  segment_loop-body :
      (cs : List Code) (fuel off start : ℕ) (rest : Bytes)
      → IsBody cs
      → drop off code ≡ write_all cs ++ rest
      → segment_loop (length cs + fuel) code off start
        ≡ segment_loop fuel code (off + length (write_all cs)) start
  segment_loop-body [] fuel off start rest b h =
      let e : 0 + fuel ≡ fuel = omega arith in let e' : off + 0 ≡ off = omega arith in rw (e, e')
  segment_loop-body (c ∷ cs) fuel off start rest ((fits, other), b) h =
      let here : drop off code ≡ write c ++ (write_all cs ++ rest) =
        h ∙ append_assoc (write c) (write_all cs) rest in
      let e : suc (length cs) + fuel ≡ suc (length cs + fuel) = omega arith in
      let e' : off + length (write c) + length (write_all cs)
          ≡ off + length (write c ++ write_all cs) =
        omega (arith, length-append (write c) (write_all cs)) in
      ap (λ n. segment_loop n code off start) e
      ∙ step-other (length cs + fuel) off start c (write_all cs ++ rest) fits other here
      ∙ segment_loop-body cs fuel (off + length (write c)) start rest b
          (drop_past code off (write c) (write_all cs ++ rest) here)
      ∙ ap (λ n. segment_loop fuel code n start) e'

  -- At most one instruction to a byte.
  length-write_all : (cs : List Code) → length cs ≤ length (write_all cs)
  length-write_all [] = omega arith
  length-write_all (c ∷ cs) =
      omega (arith, length-append (write c) (write_all cs), length-write_all cs)

  segment_loop-programs :
      (ps : List (List Code)) (fuel off : ℕ)
      → All IsBody ps
      → drop off code ≡ write_programs ps
      → length (write_programs ps) ≤ fuel
      → off ≤ length code
      → segment_loop fuel code off off ≡ spans off ps
  segment_loop-programs [] zero off b h enough inside = unfold segment_loop in refl
  segment_loop-programs [] (suc fuel) off b h enough inside =
      let over : ltb off (length code) ≡ false =
        ground (arith, ap length h, length-drop off code) in
      unfold segment_loop in rw over refl
  segment_loop-programs (p ∷ ps) fuel off (b, bs) h enough inside =
      ap (λ n. segment_loop n code off off) split
      ∙ segment_loop-body p (suc f) off off (write final ++ write_programs ps) b body_at
      ∙ step-match f (off + length (write_all p)) off (write_programs ps) match_at
      ∙ ap (λ n. (off, n) ∷ segment_loop f code n n) width
      ∙ ap (λ t. (off, off + length (write_program p)) ∷ t)
          (segment_loop-programs ps f (off + length (write_program p)) bs next_at room within)
    where
      f : ℕ
      f = fuel - suc (length p)

      whole :
          length (write_program p ++ write_programs ps)
          ≡ length (write_all p) + 1 + length (write_programs ps)
      whole = omega (
        arith,
        length-append (write_program p) (write_programs ps),
        length-append (write_all p) (write final),
      )

      width : off + length (write_all p) + 1 ≡ off + length (write_program p)
      width = omega (arith, length-append (write_all p) (write final))

      split : fuel ≡ length p + suc f
      split = omega (arith, length-write_all p, whole)

      room : length (write_programs ps) ≤ f
      room = omega (arith, length-write_all p, whole)

      body_at : drop off code ≡ write_all p ++ (write final ++ write_programs ps)
      body_at = h ∙ append_assoc (write_all p) (write final) (write_programs ps)

      match_at : drop (off + length (write_all p)) code ≡ write final ++ write_programs ps
      match_at = drop_past code off (write_all p) (write final ++ write_programs ps) body_at

      next_at : drop (off + length (write_program p)) code ≡ write_programs ps
      next_at = drop_past code off (write_program p) (write_programs ps) h

      within : off + length (write_program p) ≤ length code
      within = omega (
        arith,
        length_at code off (write_program p) (write_programs ps) h,
        length-append (write_all p) (write final),
      )

-- Programs that were written end to end, none with a MATCH before its end, are segmented at exactly
-- their boundaries.
pub segment_programs-write :
    (ps : List (List Code)) → All IsBody ps → segment_programs (write_programs ps) ≡ spans 0 ps
unfolding segment_programs
segment_programs-write ps b =
    segment_loop-programs (write_programs ps) ps (length (write_programs ps)) 0 b refl (omega arith)
      (omega arith)

module _ (code : Bytes) where
  disassemble_loop-body :
      (cs : List Code) (fuel off : ℕ) (rest : Bytes)
      → IsBody cs
      → drop off code ≡ write_all cs ++ (write final ++ rest)
      → length cs < fuel
      → disassemble_loop fuel code off
        ≡ ok (instrs off cs ++ (instr (off + length (write_all cs)) final ∷ []))
  unfolding disassemble_loop
  disassemble_loop-body cs zero off rest b h enough = absurd (omega arith)
  disassemble_loop-body [] (suc fuel) off rest b h enough =
      let e : off + 0 ≡ off = omega arith in
      rw (decode_instr-write code off final rest final-Fits h, e) refl
  disassemble_loop-body (c ∷ cs) (suc fuel) off rest ((fits, other), b) h enough =
      let here : drop off code ≡ write c ++ (write_all cs ++ (write final ++ rest)) =
        h ∙ append_assoc (write c) (write_all cs) (write final ++ rest) in
      let next : disassemble_loop fuel code (off + length (write c))
          ≡ ok (
              instrs (off + length (write c)) cs
              ++ (instr (off + length (write c) + length (write_all cs)) final ∷ [])) =
        disassemble_loop-body cs fuel (off + length (write c)) rest b
          (drop_past code off (write c) _ here) (omega arith) in
      let e : off + length (write c) + length (write_all cs)
          ≡ off + length (write c ++ write_all cs) =
        omega (arith, length-append (write c) (write_all cs)) in
      let plain_step : is_match (instr off c) ≡ false = rw (op-instr off c) other in
      rw (decode_instr-write code off c (write_all cs ++ (write final ++ rest)) fits here)
        (rw plain_step (rw (stop-instr off c fits, next, e) refl))

  -- A program that was written at `off`, with no MATCH before its end, is disassembled into its
  -- instructions and its MATCH, whatever follows.
  pub disassemble_program-write :
      (cs : List Code) (off : ℕ) (rest : Bytes)
      → IsBody cs
      → drop off code ≡ write_program cs ++ rest
      → disassemble_program code off
        ≡ ok (instrs off cs ++ (instr (off + length (write_all cs)) final ∷ []))
  unfolding disassemble_program
  disassemble_program-write cs off rest b h =
      disassemble_loop-body cs (suc (length code)) off rest b
        (h ∙ append_assoc (write_all cs) (write final) rest)
        (omega (
          arith,
          length-write_all code cs,
          length_at code off (write_program cs) rest h,
          length-append (write_all cs) (write final),
        ))
