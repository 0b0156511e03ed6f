-- ===== src/RePattern/RegexTests.antt =====
-- Runs of the renderer on programs as YARA compiles them.
use yaradec.Prelude.{◌∷◌, [], List, false, true, ◌≡◌, refl}
use yaradec.Prelude.Int.{pos, negsuc, ◌+ℤ◌}
use yaradec.Prelude.Text.{codes}
use yaradec.Result.{ok}
use yaradec.Constants.ReOp
use yaradec.Constants.ReOp.{ReOp}
use yaradec.RePattern.Writer.{Code, literal, split, jump}
use yaradec.RePattern.SegmentWriter.{instrs, final}
use yaradec.RePattern.CharClass.{lit_regex}
use yaradec.RePattern.Pieces.{
  needs_group, folds, fold_two, merge_step, merge_pieces, quantifier, format_piece, format_pieces,
}
use yaradec.RePattern.Regex.{
  render_regex, render, seq, seq_loop, seq_step, back_edge, unit, split_unit, leaf, one_atom, atom,
  by_offset, prev_from, prev_instr, find_repeat_end, index_of, jumps_to, jumps_beyond,
}

-- a(b|cd)+e*
abbrev program : List Code
program =
    literal b'a'
    ∷ split true 0 (pos 9)
    ∷ literal b'b'
    ∷ jump (pos 7)
    ∷ literal b'c'
    ∷ literal b'd'
    ∷ split false 1 (negsuc 12)
    ∷ split true 2 (pos 9)
    ∷ literal b'e'
    ∷ jump (negsuc 5)
    ∷ final
    ∷ []

program_rendered : render_regex 100 (instrs 0 program) ≡ ok (codes "a(b|cd)+e*", true)
unfolding render_regex render seq seq_loop seq_step back_edge unit split_unit leaf one_atom atom
    by_offset prev_from prev_instr find_repeat_end index_of jumps_to jumps_beyond needs_group folds
    fold_two merge_step merge_pieces quantifier format_piece format_pieces lit_regex
    ReOp.fixed_width ◌+ℤ◌
program_rendered = refl
