-- ===== src/Code/Loops.antt =====
-- `LoopShape` and `_find_loops` of code.py.
use yaradec.Prelude.{
  get_elem?, length, if◌then◌else◌, leb, [], List, some, none, Option, ◌&&◌, not, false, true, Bool,
  ◌-◌, ◌+◌, suc, zero, ℕ,
}
use yaradec.Result.{Result, ok, err, ◌>>=◌, index_error}
use yaradec.Constants.Op.{Op}
use yaradec.Code.Decode.{Instr}
use yaradec.Code.Expr.{is_popping_jump}
use yaradec.Code.Bodies.{dict_set}

pub record LoopShape : Type 0 where
  pub header : ℕ
  pub quant_slot : Option ℕ
  pub iter_lo : ℕ
  pub iter_start : ℕ
  pub kind : Op
  pub var_slot : Option ℕ
  pub body_lo : ℕ
  pub body_hi : ℕ
  pub stop : ℕ

-- `op in _ITER_STARTS`
abbrev pub is_iter_start : Op → Bool
is_iter_start Op.iter_start_array = true
is_iter_start Op.iter_start_dict = true
is_iter_start Op.iter_start_int_range = true
is_iter_start Op.iter_start_int_enum = true
is_iter_start Op.iter_start_string_set = true
is_iter_start Op.iter_start_text_string_set = true
is_iter_start _ = false

abbrev is_pop_m : Op → Bool
is_pop_m Op.pop_m = true
is_pop_m _ = false

abbrev is_clear_m : Op → Bool
is_clear_m Op.clear_m = true
is_clear_m _ = false

abbrev is_push_m : Op → Bool
is_push_m Op.push_m = true
is_push_m _ = false

abbrev is_incr_m : Op → Bool
is_incr_m Op.incr_m = true
is_incr_m _ = false

abbrev is_iter_next : Op → Bool
is_iter_next Op.iter_next = true
is_iter_next _ = false

abbrev is_iter_condition : Op → Bool
is_iter_condition Op.iter_condition = true
is_iter_condition _ = false

abbrev is_iter_end : Op → Bool
is_iter_end Op.iter_end = true
is_iter_end _ = false

abbrev op_or_error : Option Instr → Op
op_or_error (some ins) = ins.op
op_or_error none = Op.error

-- `instrs[i].op`, at an index that the loops' bounds keep inside.
abbrev pub op_at : List Instr → ℕ → Op
op_at instrs i = op_or_error (get_elem? instrs i)

abbrev operand_or_none : Option Instr → Option ℕ
operand_or_none (some ins) = ins.operand
operand_or_none none = none

-- `for j in range(n - 1, 1, -1)`: the first POP_M, from the end, behind two CLEAR_M.
unfoldable pub find_header : List Instr → ℕ → Option ℕ
find_header instrs (suc (suc (suc j))) =
    let earlier = find_header instrs (suc (suc j)) in
    if is_pop_m (op_at instrs (suc (suc j)))
      && is_clear_m (op_at instrs (suc j))
      && is_clear_m (op_at instrs j)
    then some j
    else earlier
find_header instrs _ = none

-- `for j in range(j, j + remaining)`: the INCR_M that begins the epilogue.
unfoldable pub find_epilogue : List Instr → ℕ → ℕ → Option ℕ
find_epilogue instrs j zero = none
find_epilogue instrs j (suc remaining) =
    let later = find_epilogue instrs (suc j) remaining in
    if is_incr_m (op_at instrs j)
      && is_push_m (op_at instrs (j + 1))
      && is_push_m (op_at instrs (j + 2))
      && is_iter_condition (op_at instrs (j + 3))
    then some j
    else later

unfoldable pub find_iter_end : List Instr → ℕ → ℕ → Option ℕ
find_iter_end instrs j zero = none
find_iter_end instrs j (suc remaining) =
    let later = find_iter_end instrs (suc j) remaining in
    if is_iter_end (op_at instrs j) then some j else later

-- The last steps for one ITER_START, given the header and the start of the body.
abbrev with_end : List Instr → ℕ → ℕ → ℕ → ℕ → Option ℕ → Option LoopShape
with_end instrs s_idx header body_lo body_hi none = none
with_end instrs s_idx header body_lo body_hi (some stop) = some (record {
  header = header;
  quant_slot = operand_or_none (get_elem? instrs (header + 2));
  iter_lo = header + 3;
  iter_start = s_idx;
  kind = op_at instrs s_idx;
  var_slot = operand_or_none (get_elem? instrs (s_idx + 2));
  body_lo = body_lo;
  body_hi = body_hi;
  stop = stop;
})

abbrev with_body : List Instr → ℕ → ℕ → ℕ → Option ℕ → Option LoopShape
with_body instrs s_idx header body_lo none = none
with_body instrs s_idx header body_lo (some body_hi) =
    with_end instrs s_idx header body_lo body_hi
      (find_iter_end instrs body_hi (length instrs - body_hi))

-- `instrs[s_idx + 3]` is read with no test that it is there.
abbrev with_preamble : List Instr → ℕ → ℕ → Option Instr → Result (Option LoopShape)
with_preamble instrs s_idx header none = err index_error
with_preamble instrs s_idx header (some third) =
    let body_lo = if is_popping_jump third.op then s_idx + 4 else s_idx + 3 in
    ok (
      with_body instrs s_idx header body_lo
        (find_epilogue instrs body_lo (length instrs - 3 - body_lo)))

abbrev with_header : List Instr → ℕ → Option ℕ → Result (Option LoopShape)
with_header instrs s_idx none = ok none
with_header instrs s_idx (some header) =
    if leb (length instrs) (s_idx + 2)
    then ok none
    else if not (is_iter_next (op_at instrs (s_idx + 1)))
    then ok none
    else if not (is_pop_m (op_at instrs (s_idx + 2)))
    then ok none
    else with_preamble instrs s_idx header (get_elem? instrs (s_idx + 3))

unfoldable pub loop_at : List Instr → ℕ → Result (Option LoopShape)
loop_at instrs s_idx =
    if is_iter_start (op_at instrs s_idx)
    then with_header instrs s_idx (find_header instrs s_idx)
    else ok none

abbrev pub Loops : Type 0
Loops = List (ℕ × LoopShape)

abbrev add_loop : Option LoopShape → Loops → Loops
add_loop none out = out
add_loop (some shape) out = dict_set out shape.header shape

unfoldable pub find_loops_from : List Instr → ℕ → ℕ → Loops → Result Loops
find_loops_from instrs s_idx zero out = ok out
find_loops_from instrs s_idx (suc remaining) out = do
  shape ← loop_at instrs s_idx
  find_loops_from instrs (suc s_idx) remaining (add_loop shape out)

unfoldable pub find_loops : List Instr → Result Loops
find_loops instrs = find_loops_from instrs 0 (length instrs) []
