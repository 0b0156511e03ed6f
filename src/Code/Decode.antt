-- ===== src/Code/Decode.antt =====
-- `decode`, `disassemble` and `unpack_ref` of code.py.
use yaradec.Prelude.{
  length, if◌then◌else◌, ltb, ◌∷◌, [], List, some, none, Option, false, true, Bool, ◌^◌, ◌%◌, ◌/◌,
  ◌+◌, suc, zero, ℕ,
}
use yaradec.Prelude.Int.{ℤ, pos, signed, ◌+ℤ◌}
use yaradec.Result.{Result, ok, err, ◌>>=◌, map_ok, unknown_opcode, out_of_fuel}
use yaradec.Bytes.{Bytes, byte_at, unpack_from, field_at}
use yaradec.Constants.Op
use yaradec.Constants.Op.{Op, OperandKind, u8, u16, u32, u64, jmp, jmp_u32}
use yaradec.Arena.{Ref}

pub record Instr : Type 0 where
  pub offset : ℕ
  pub op : Op
  pub size : ℕ
  pub operand : Option ℕ
  pub target : Option ℤ
  pub rule_index : Option ℕ

-- The property `end`.
abbrev pub stop : Instr → ℕ
stop ins = ins.offset + ins.size

-- `OPERAND_WIDTH.get(kind, 0) if kind else 0`
unfoldable pub width_of : Option OperandKind → ℕ
unfolding Op.operand_width
width_of none = 0
width_of (some kind) = Op.operand_width kind

-- `Instr(offset=off, op=op, size=1 + width)`
abbrev pub blank : ℕ → Op → Instr
blank off op = record {
  offset = off;
  op = op;
  size = 1 + width_of (Op.operands op);
  operand = none;
  target = none;
  rule_index = none;
}

-- `(ins.operand,) = struct.unpack_from(fmt, code, off + 1)` for a field of width `w`.
unfoldable pub read_immediate : ℕ → Bytes → Instr → Result Instr
read_immediate w code ins = do
  vals ← unpack_from (w ∷ []) code (ins.offset + 1)
  ok (record ins { operand = some (field_at vals 0) })

unfoldable pub read_u8 : Bytes → Instr → Result Instr
read_u8 code ins = do v ← byte_at code (ins.offset + 1); ok (record ins { operand = some v })

unfoldable pub read_jump : Bytes → Instr → Result Instr
read_jump code ins = do
  vals ← unpack_from (4 ∷ []) code (ins.offset + 1)
  ok (record ins { target = some (pos ins.offset +ℤ signed (2 ^ 31) (field_at vals 0)) })

unfoldable pub read_init_rule : Bytes → Instr → Result Instr
read_init_rule code ins = do
  vals ← unpack_from (4 ∷ 4 ∷ []) code (ins.offset + 1)
  ok (record ins {
    target = some (pos ins.offset +ℤ signed (2 ^ 31) (field_at vals 0));
    rule_index = some (field_at vals 1);
  })

unfoldable pub read_kind : Option OperandKind → Bytes → Instr → Result Instr
read_kind none code ins = ok ins
read_kind (some u64) code ins = read_immediate 8 code ins
read_kind (some u32) code ins = read_immediate 4 code ins
read_kind (some u16) code ins = read_immediate 2 code ins
read_kind (some u8) code ins = read_u8 code ins
read_kind (some jmp) code ins = read_jump code ins
read_kind (some jmp_u32) code ins = read_init_rule code ins

unfoldable pub decode_op : Bytes → ℕ → Option Op → Result Instr
decode_op code off none = err (unknown_opcode off)
decode_op code off (some op) = read_kind (Op.operands op) code (blank off op)

unfoldable pub decode : Bytes → ℕ → Result Instr
decode code off = do raw ← byte_at code off; decode_op code off (Op.of_byte raw)

abbrev pub is_halt : Op → Bool
is_halt Op.halt = true
is_halt _ = false

-- The `while` loop; every instruction has a size, so `length code` rounds reach its end.
unfoldable pub disassemble_loop : ℕ → Bytes → ℕ → Result (List Instr)
disassemble_loop zero code off = if ltb off (length code) then err out_of_fuel else ok []
disassemble_loop (suc fuel) code off =
    let next = (do
      ins ← decode code off
      let rest = disassemble_loop fuel code (stop ins)
      if is_halt ins.op then ok (ins ∷ []) else map_ok (λ more. ins ∷ more) rest) in
    if ltb off (length code) then next else ok []

unfoldable pub disassemble : Bytes → Result (List Instr)
disassemble code = disassemble_loop (length code) code 0

-- Buffer id in the low word, offset in the high one: `value & 0xFFFFFFFF`, `(value >> 32) & …`.
unfoldable pub unpack_ref : ℕ → Ref
unpack_ref value = record { buffer_id = value % 2 ^ 32; offset = value / 2 ^ 32 % 2 ^ 32 }
