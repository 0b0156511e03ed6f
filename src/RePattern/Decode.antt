-- ===== src/RePattern/Decode.antt =====
-- `decode_instr` of repattern.py.
use yaradec.Prelude.{
  length, ◌==◌, leb, ltb, ◌∷◌, [], some, none, Option, not, false, Bool, ◌^◌, ◌+◌, ℕ,
}
use yaradec.Prelude.Int.{ℤ, pos, signed, ◌+ℤ◌}
use yaradec.Result.{
  Result, ok, err, ◌>>=◌, ◌>>◌, guard, past_end, unknown_re_opcode, truncated_instr,
}
use yaradec.Bytes.{Bytes, slice, byte_at, unpack_from, field_at}
use yaradec.Constants.ReOp
use yaradec.Constants.ReOp.{ReOp}

pub record ReInstr : Type 0 where
  pub offset : ℕ
  pub op : ReOp
  pub size : ℕ
  pub value : Option ℕ
  pub mask : Option ℕ
  pub bitmap : Option Bytes
  pub negated : Bool
  pub min : Option ℕ
  pub max : Option ℕ
  pub target : Option ℤ

-- `ReInstr(offset=…, op=…, size=…)`, with the defaults of the other fields.
abbrev pub blank : ℕ → ReOp → ReInstr
blank off op = record {
  offset = off;
  op = op;
  size = ReOp.fixed_width op;
  value = none;
  mask = none;
  bitmap = none;
  negated = false;
  min = none;
  max = none;
  target = none;
}

-- The property `end`.
abbrev pub stop : ReInstr → ℕ
stop ins = ins.offset + ins.size

unfoldable pub read_value : Bytes → ReInstr → Result ReInstr
read_value code ins = do v ← byte_at code (ins.offset + 1); ok (record ins { value = some v })

unfoldable pub read_masked : Bytes → ReInstr → Result ReInstr
read_masked code ins = do
  v ← byte_at code (ins.offset + 1)
  m ← byte_at code (ins.offset + 2)
  ok (record ins { value = some v; mask = some m })

unfoldable pub read_class : Bytes → ReInstr → Result ReInstr
read_class code ins = do
  flag ← byte_at code (ins.offset + 1)
  ok (record ins {
    negated = not (flag == 0);
    bitmap = some (slice code (ins.offset + 2) (ins.offset + 34));
  })

-- `ins.target = off + rel` for a 16-bit `rel` at `at`.
unfoldable pub read_branch : Bytes → ℕ → ReInstr → Result ReInstr
read_branch code at ins = do
  vals ← unpack_from (2 ∷ []) code at
  ok (record ins { target = some (pos ins.offset +ℤ signed (2 ^ 15) (field_at vals 0)) })

unfoldable pub read_bounds : Bytes → ReInstr → Result ReInstr
read_bounds code ins = do
  vals ← unpack_from (2 ∷ 2 ∷ []) code (ins.offset + 1)
  ok (record ins { min = some (field_at vals 0); max = some (field_at vals 1) })

unfoldable pub read_repeat : Bytes → ReInstr → Result ReInstr
read_repeat code ins = do
  vals ← unpack_from (2 ∷ 2 ∷ 4 ∷ []) code (ins.offset + 1)
  ok (record ins {
    min = some (field_at vals 0);
    max = some (field_at vals 1);
    target = some (pos ins.offset +ℤ signed (2 ^ 31) (field_at vals 2));
  })

-- The chain of `if op in …`, from the instruction with no operands yet.
unfoldable pub read_operands : ReOp → Bytes → ReInstr → Result ReInstr
read_operands ReOp.literal code ins = read_value code ins
read_operands ReOp.not_literal code ins = read_value code ins
read_operands ReOp.masked_literal code ins = read_masked code ins
read_operands ReOp.masked_not_literal code ins = read_masked code ins
read_operands ReOp.class code ins = read_class code ins
read_operands ReOp.jump code ins = read_branch code (ins.offset + 1) ins
read_operands ReOp.split_a code ins = read_branch code (ins.offset + 2) ins
read_operands ReOp.split_b code ins = read_branch code (ins.offset + 2) ins
read_operands ReOp.repeat_any_greedy code ins = read_bounds code ins
read_operands ReOp.repeat_any_ungreedy code ins = read_bounds code ins
read_operands ReOp.repeat_start_greedy code ins = read_repeat code ins
read_operands ReOp.repeat_end_greedy code ins = read_repeat code ins
read_operands ReOp.repeat_start_ungreedy code ins = read_repeat code ins
read_operands ReOp.repeat_end_ungreedy code ins = read_repeat code ins
read_operands op code ins = ok ins

-- The part of `decode_instr` behind `ReOp(raw)`.
unfoldable pub decode_op : Bytes → ℕ → Option ReOp → Result ReInstr
decode_op code off none = err (unknown_re_opcode off)
decode_op code off (some op) = do
  guard (leb (off + ReOp.fixed_width op) (length code)) (truncated_instr off)
  read_operands op code (blank off op)

unfoldable pub decode_instr : Bytes → ℕ → Result ReInstr
decode_instr code off = do
  guard (ltb off (length code)) (past_end off)
  raw ← byte_at code off
  decode_op code off (ReOp.of_byte raw)
