-- ===== src/RePattern/Boundaries.antt =====
-- Decoding any bytes: what a decoded instruction spans, and which exceptions there are.
use yaradec.Bytes.Laws.{get_elem?_lt}
use yaradec.Prelude.{
  leb→le, ltb→lt, get_elem?, Bool-cases, leb, ltb, inr, inl, ◌⊎◌, ◌≢◌, length, arith, some, none,
  Option, ◌≡◌, ◌<◌, ◌≤◌, ◌+◌, ℕ,
}
use yaradec.Result.{err, ok, Error, past_end, unknown_re_opcode, truncated_instr}
use yaradec.Bytes.{Bytes}
use yaradec.Constants.ReOp
use yaradec.Constants.ReOp.{ReOp}
use yaradec.RePattern.Decode.{
  ReInstr, blank, stop, read_value, read_masked, read_class, read_branch, read_bounds, read_repeat,
  read_operands, decode_op, decode_instr,
}

abbrev Same : ReInstr → ReInstr → Type 0
Same r ins = (r.offset ≡ ins.offset) × (r.size ≡ ins.size) × (r.op ≡ ins.op)

module _ (code : Bytes) where
  read_value-Same : (ins r : ReInstr) → read_value code ins ≡ ok r → Same r ins
  unfolding read_value
  read_value-Same ins r h = ground arith

  read_masked-Same : (ins r : ReInstr) → read_masked code ins ≡ ok r → Same r ins
  unfolding read_masked
  read_masked-Same ins r h = ground arith

  read_class-Same : (ins r : ReInstr) → read_class code ins ≡ ok r → Same r ins
  unfolding read_class
  read_class-Same ins r h = ground arith

  read_branch-Same : (at : ℕ) (ins r : ReInstr) → read_branch code at ins ≡ ok r → Same r ins
  unfolding read_branch
  read_branch-Same at ins r h = ground arith

  read_bounds-Same : (ins r : ReInstr) → read_bounds code ins ≡ ok r → Same r ins
  unfolding read_bounds
  read_bounds-Same ins r h = ground arith

  read_repeat-Same : (ins r : ReInstr) → read_repeat code ins ≡ ok r → Same r ins
  unfolding read_repeat
  read_repeat-Same ins r h = ground arith

  -- The operands change neither the place nor the opcode.
  read_operands-Same : (op : ReOp) (ins r : ReInstr) → read_operands op code ins ≡ ok r → Same r ins
  unfolding read_operands
  read_operands-Same ReOp.literal ins r h = read_value-Same ins r h
  read_operands-Same ReOp.not_literal ins r h = read_value-Same ins r h
  read_operands-Same ReOp.masked_literal ins r h = read_masked-Same ins r h
  read_operands-Same ReOp.masked_not_literal ins r h = read_masked-Same ins r h
  read_operands-Same ReOp.class ins r h = read_class-Same ins r h
  read_operands-Same ReOp.jump ins r h = read_branch-Same (ins.offset + 1) ins r h
  read_operands-Same ReOp.split_a ins r h = read_branch-Same (ins.offset + 2) ins r h
  read_operands-Same ReOp.split_b ins r h = read_branch-Same (ins.offset + 2) ins r h
  read_operands-Same ReOp.repeat_any_greedy ins r h = read_bounds-Same ins r h
  read_operands-Same ReOp.repeat_any_ungreedy ins r h = read_bounds-Same ins r h
  read_operands-Same ReOp.repeat_start_greedy ins r h = read_repeat-Same ins r h
  read_operands-Same ReOp.repeat_end_greedy ins r h = read_repeat-Same ins r h
  read_operands-Same ReOp.repeat_start_ungreedy ins r h = read_repeat-Same ins r h
  read_operands-Same ReOp.repeat_end_ungreedy ins r h = read_repeat-Same ins r h
  read_operands-Same _ ins r h = ground arith

fixed_width-pos : (op : ReOp) → 0 < ReOp.fixed_width op
unfolding ReOp.fixed_width
fixed_width-pos ReOp.any = omega arith
fixed_width-pos _ = omega arith

abbrev get_or_zero : Option ℕ → ℕ
get_or_zero (some b) = b
get_or_zero none = 0

decode_op-inv :
    (code : Bytes) (off : ℕ) (o : Option ReOp) (ins : ReInstr)
    → decode_op code off o ≡ ok ins
    → (ins.offset ≡ off) × (off < stop ins) × (stop ins ≤ length code)
unfolding decode_op
decode_op-inv code off none ins h = cc
decode_op-inv code off (some op) ins h =
    ground (arith, fixed_width-pos op, read_operands-Same code op (blank off op) ins)

-- A decoded instruction starts where it was read, is not empty, and ends within the code.
pub decode_instr-inv :
    (code : Bytes) (off : ℕ) (ins : ReInstr)
    → decode_instr code off ≡ ok ins
    → (ins.offset ≡ off) × (off < stop ins) × (stop ins ≤ length code)
unfolding decode_instr
decode_instr-inv code off ins h = ground (arith, decode_op-inv code off (ReOp.of_byte raw) ins)
  where
    raw : ℕ
    raw = get_or_zero (get_elem? code off)

-- With the operands inside the code none of the reads fails.
module _ (code : Bytes) (e : Error) where
  read_value-ne-err : (ins : ReInstr) → ins.offset + 2 ≤ length code → read_value code ins ≢ err e
  unfolding read_value
  read_value-ne-err ins fits h =
      let (v, found) = get_elem?_lt code (ins.offset + 1) (omega arith) in cc (rw found at h)

  read_masked-ne-err : (ins : ReInstr) → ins.offset + 3 ≤ length code → read_masked code ins ≢ err e
  unfolding read_masked
  read_masked-ne-err ins fits h =
      let (v, found) = get_elem?_lt code (ins.offset + 1) (omega arith) in
      let (m, found') = get_elem?_lt code (ins.offset + 2) (omega arith) in
      cc (rw (found, found') at h)

  read_class-ne-err : (ins : ReInstr) → ins.offset + 34 ≤ length code → read_class code ins ≢ err e
  unfolding read_class
  read_class-ne-err ins fits h =
      let (v, found) = get_elem?_lt code (ins.offset + 1) (omega arith) in cc (rw found at h)

  read_branch-ne-err :
      (at : ℕ) (ins : ReInstr) → at + 2 ≤ length code → read_branch code at ins ≢ err e
  unfolding read_branch
  read_branch-ne-err at ins fits h = ground arith

  read_bounds-ne-err : (ins : ReInstr) → ins.offset + 5 ≤ length code → read_bounds code ins ≢ err e
  unfolding read_bounds
  read_bounds-ne-err ins fits h = ground arith

  read_repeat-ne-err : (ins : ReInstr) → ins.offset + 9 ≤ length code → read_repeat code ins ≢ err e
  unfolding read_repeat
  read_repeat-ne-err ins fits h = ground arith

  read_operands-ne-err :
      (op : ReOp) (off : ℕ)
      → off + ReOp.fixed_width op ≤ length code
      → read_operands op code (blank off op) ≢ err e
  unfolding read_operands ReOp.fixed_width
  read_operands-ne-err ReOp.literal off fits = read_value-ne-err (blank off _) fits
  read_operands-ne-err ReOp.not_literal off fits = read_value-ne-err (blank off _) fits
  read_operands-ne-err ReOp.masked_literal off fits = read_masked-ne-err (blank off _) fits
  read_operands-ne-err ReOp.masked_not_literal off fits = read_masked-ne-err (blank off _) fits
  read_operands-ne-err ReOp.class off fits = read_class-ne-err (blank off _) fits
  read_operands-ne-err ReOp.jump off fits = read_branch-ne-err (off + 1) (blank off _) (omega arith)
  read_operands-ne-err ReOp.split_a off fits =
      read_branch-ne-err (off + 2) (blank off _) (omega arith)
  read_operands-ne-err ReOp.split_b off fits =
      read_branch-ne-err (off + 2) (blank off _) (omega arith)
  read_operands-ne-err ReOp.repeat_any_greedy off fits = read_bounds-ne-err (blank off _) fits
  read_operands-ne-err ReOp.repeat_any_ungreedy off fits = read_bounds-ne-err (blank off _) fits
  read_operands-ne-err ReOp.repeat_start_greedy off fits = read_repeat-ne-err (blank off _) fits
  read_operands-ne-err ReOp.repeat_end_greedy off fits = read_repeat-ne-err (blank off _) fits
  read_operands-ne-err ReOp.repeat_start_ungreedy off fits = read_repeat-ne-err (blank off _) fits
  read_operands-ne-err ReOp.repeat_end_ungreedy off fits = read_repeat-ne-err (blank off _) fits
  read_operands-ne-err _ off fits = λ h. cc

decode_op-err :
    (code : Bytes) (off : ℕ) (o : Option ReOp) (e : Error)
    → decode_op code off o ≡ err e
    → (e ≡ unknown_re_opcode off) ⊎ (e ≡ truncated_instr off)
unfolding decode_op
decode_op-err code off none e h = inl (ground arith)
decode_op-err code off (some op) e h =
    elim (Bool-cases (leb (off + ReOp.fixed_width op) (length code))) [
      | inl fits ↦ absurd (read_operands-ne-err code e op off (leb→le _ _ fits) (rw fits at h))
      | inr short ↦ inr (ground arith)
    ]

-- Decoding raises `ReDecodeError` and nothing else: no index or `struct` error escapes it.
pub decode_instr-err :
    (code : Bytes) (off : ℕ) (e : Error)
    → decode_instr code off ≡ err e
    → (e ≡ past_end off) ⊎ (e ≡ unknown_re_opcode off) ⊎ (e ≡ truncated_instr off)
unfolding decode_instr
decode_instr-err code off e h = elim (Bool-cases (ltb off (length code))) [
  | inr past ↦ inl (ground arith)
  | inl inside ↦
      let (b, found) = get_elem?_lt code off (ltb→lt _ _ inside) in
      inr (decode_op-err code off (ReOp.of_byte b) e (rw (inside, found) at h))
]
