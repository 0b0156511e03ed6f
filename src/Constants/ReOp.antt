-- ===== src/Constants/ReOp.antt =====
-- The regexp opcodes of constants.py (`class ReOp`) and their widths in repattern.py.
use yaradec.Prelude.{ℕ, Bool, Option, none, some, List, [], ◌∷◌, ◌==◌, if◌then◌else◌}
use yaradec.Prelude.Text.{Text, codes}

pub data ReOp : Type 0 where
  any literal masked_literal class word_char non_word_char space non_space digit non_digit : ReOp
  match not_literal masked_not_literal match_at_end match_at_start word_boundary : ReOp
  non_word_boundary repeat_any_greedy repeat_any_ungreedy split_a split_b jump : ReOp
  repeat_start_greedy repeat_end_greedy repeat_start_ungreedy repeat_end_ungreedy : ReOp

unfoldable pub value : ReOp → ℕ
value ReOp.any = 0xa0
value ReOp.literal = 0xa2
value ReOp.masked_literal = 0xa4
value ReOp.class = 0xa5
value ReOp.word_char = 0xa7
value ReOp.non_word_char = 0xa8
value ReOp.space = 0xa9
value ReOp.non_space = 0xaa
value ReOp.digit = 0xab
value ReOp.non_digit = 0xac
value ReOp.match = 0xad
value ReOp.not_literal = 0xae
value ReOp.masked_not_literal = 0xaf
value ReOp.match_at_end = 0xb0
value ReOp.match_at_start = 0xb1
value ReOp.word_boundary = 0xb2
value ReOp.non_word_boundary = 0xb3
value ReOp.repeat_any_greedy = 0xb4
value ReOp.repeat_any_ungreedy = 0xb5
value ReOp.split_a = 0xc0
value ReOp.split_b = 0xc1
value ReOp.jump = 0xc2
value ReOp.repeat_start_greedy = 0xc3
value ReOp.repeat_end_greedy = 0xc4
value ReOp.repeat_start_ungreedy = 0xc5
value ReOp.repeat_end_ungreedy = 0xc6

-- Every member of the enumeration.
abbrev pub members : List ReOp
members =
    ReOp.any ∷ ReOp.literal ∷ ReOp.masked_literal ∷ ReOp.class ∷ ReOp.word_char ∷ ReOp.non_word_char
    ∷ ReOp.space ∷ ReOp.non_space ∷ ReOp.digit ∷ ReOp.non_digit ∷ ReOp.match ∷ ReOp.not_literal
    ∷ ReOp.masked_not_literal ∷ ReOp.match_at_end ∷ ReOp.match_at_start ∷ ReOp.word_boundary
    ∷ ReOp.non_word_boundary ∷ ReOp.repeat_any_greedy ∷ ReOp.repeat_any_ungreedy ∷ ReOp.split_a
    ∷ ReOp.split_b ∷ ReOp.jump ∷ ReOp.repeat_start_greedy ∷ ReOp.repeat_end_greedy
    ∷ ReOp.repeat_start_ungreedy ∷ ReOp.repeat_end_ungreedy ∷ []

unfoldable pub find_value : ℕ → List ReOp → Option ReOp
unfolding value
find_value b [] = none
find_value b (o ∷ os) = let rest = find_value b os in if value o == b then some o else rest

-- `ReOp(b)`; `none` is its `ValueError`.
unfoldable pub of_byte : ℕ → Option ReOp
of_byte b = find_value b members

-- `a is b`
abbrev pub same : ReOp → ReOp → Bool
unfolding value
same a b = value a == value b

-- `op.name`
unfoldable pub name : ReOp → Text
name ReOp.any = codes "ANY"
name ReOp.literal = codes "LITERAL"
name ReOp.masked_literal = codes "MASKED_LITERAL"
name ReOp.class = codes "CLASS"
name ReOp.word_char = codes "WORD_CHAR"
name ReOp.non_word_char = codes "NON_WORD_CHAR"
name ReOp.space = codes "SPACE"
name ReOp.non_space = codes "NON_SPACE"
name ReOp.digit = codes "DIGIT"
name ReOp.non_digit = codes "NON_DIGIT"
name ReOp.match = codes "MATCH"
name ReOp.not_literal = codes "NOT_LITERAL"
name ReOp.masked_not_literal = codes "MASKED_NOT_LITERAL"
name ReOp.match_at_end = codes "MATCH_AT_END"
name ReOp.match_at_start = codes "MATCH_AT_START"
name ReOp.word_boundary = codes "WORD_BOUNDARY"
name ReOp.non_word_boundary = codes "NON_WORD_BOUNDARY"
name ReOp.repeat_any_greedy = codes "REPEAT_ANY_GREEDY"
name ReOp.repeat_any_ungreedy = codes "REPEAT_ANY_UNGREEDY"
name ReOp.split_a = codes "SPLIT_A"
name ReOp.split_b = codes "SPLIT_B"
name ReOp.jump = codes "JUMP"
name ReOp.repeat_start_greedy = codes "REPEAT_START_GREEDY"
name ReOp.repeat_end_greedy = codes "REPEAT_END_GREEDY"
name ReOp.repeat_start_ungreedy = codes "REPEAT_START_UNGREEDY"
name ReOp.repeat_end_ungreedy = codes "REPEAT_END_UNGREEDY"

-- `_FIXED_WIDTH`
unfoldable pub fixed_width : ReOp → ℕ
fixed_width ReOp.any = 1
fixed_width ReOp.match = 1
fixed_width ReOp.word_char = 1
fixed_width ReOp.non_word_char = 1
fixed_width ReOp.space = 1
fixed_width ReOp.non_space = 1
fixed_width ReOp.digit = 1
fixed_width ReOp.non_digit = 1
fixed_width ReOp.match_at_start = 1
fixed_width ReOp.match_at_end = 1
fixed_width ReOp.word_boundary = 1
fixed_width ReOp.non_word_boundary = 1
fixed_width ReOp.literal = 2
fixed_width ReOp.not_literal = 2
fixed_width ReOp.masked_literal = 3
fixed_width ReOp.masked_not_literal = 3
fixed_width ReOp.class = 34
fixed_width ReOp.jump = 3
fixed_width ReOp.split_a = 4
fixed_width ReOp.split_b = 4
fixed_width ReOp.repeat_any_greedy = 5
fixed_width ReOp.repeat_any_ungreedy = 5
fixed_width ReOp.repeat_start_greedy = 9
fixed_width ReOp.repeat_end_greedy = 9
fixed_width ReOp.repeat_start_ungreedy = 9
fixed_width ReOp.repeat_end_ungreedy = 9
