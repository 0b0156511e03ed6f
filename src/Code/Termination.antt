-- ===== src/Code/Termination.antt =====
-- The `while` loop of `disassemble` on any bytes: its rounds against the fuel of the model.
use yaradec.Prelude.{
  get_elem?, Option-cases, Bool, ◌∙◌, length, ltb, if◌then◌else◌, Bool-cases, inl, inr, ◌∷◌, [],
  List, some, none, Option, false, true, ◌≡◌, ◌≢◌, arith, ◌<◌, ◌≤◌, ◌+◌, suc, zero, ℕ,
}
use yaradec.Result.{Error, Result, ok, err, out_of_fuel, Result-cases, map_ok}
use yaradec.Bytes.{Bytes}
use yaradec.Constants.Op
use yaradec.Constants.Op.{Op, OperandKind, u8, u16, u32, u64, jmp, jmp_u32}
use yaradec.Code.Decode.{
  Instr, stop, blank, read_immediate, read_u8, read_jump, read_init_rule, read_kind, decode_op,
  decode, is_halt, disassemble_loop, disassemble,
}

module _ (code : Bytes) where
  read_kind-ne :
      (kind : Option OperandKind) (ins : Instr) → read_kind kind code ins ≢ err out_of_fuel
  unfolding read_kind read_immediate read_u8 read_jump read_init_rule
  read_kind-ne none ins h = cc
  read_kind-ne (some u8) ins h = ground arith
  read_kind-ne (some u16) ins h = ground arith
  read_kind-ne (some u32) ins h = ground arith
  read_kind-ne (some u64) ins h = ground arith
  read_kind-ne (some jmp) ins h = ground arith
  read_kind-ne (some jmp_u32) ins h = ground arith

  read_kind-stop :
      (kind : Option OperandKind) (ins r : Instr)
      → read_kind kind code ins ≡ ok r
      → stop r ≡ stop ins
  unfolding read_kind read_immediate read_u8 read_jump read_init_rule
  read_kind-stop none ins r h = ground arith
  read_kind-stop (some u8) ins r h = ground arith
  read_kind-stop (some u16) ins r h = ground arith
  read_kind-stop (some u32) ins r h = ground arith
  read_kind-stop (some u64) ins r h = ground arith
  read_kind-stop (some jmp) ins r h = ground arith
  read_kind-stop (some jmp_u32) ins r h = ground arith

  decode_op-ne : (off : ℕ) (op : Option Op) → decode_op code off op ≢ err out_of_fuel
  unfolding decode_op
  decode_op-ne off none h = cc
  decode_op-ne off (some op) h = read_kind-ne (Op.operands op) (blank off op) h

  decode_op-past :
      (off : ℕ) (op : Option Op) (r : Instr) → decode_op code off op ≡ ok r → off < stop r
  unfolding decode_op
  decode_op-past off none r h = cc
  decode_op-past off (some op) r h =
      omega (arith, read_kind-stop (Op.operands op) (blank off op) r h)

  decode-ne : (off : ℕ) → decode code off ≢ err out_of_fuel
  unfolding decode
  decode-ne off h = elim (Option-cases (get_elem? code off)) [
    | inl gone ↦ ground (arith, gone)
    | inr (raw, found) ↦ decode_op-ne off (Op.of_byte raw) (rw found at h)
  ]

  decode-past : (off : ℕ) (r : Instr) → decode code off ≡ ok r → off < stop r
  unfolding decode
  decode-past off r h = elim (Option-cases (get_elem? code off)) [
    | inl gone ↦ ground (arith, gone)
    | inr (raw, found) ↦ decode_op-past off (Op.of_byte raw) r (rw found at h)
  ]

  round-ne :
      (last : Bool) (ins : Instr) (rest : Result (List Instr))
      → rest ≢ err out_of_fuel
      → (if last then ok (ins ∷ []) else map_ok (λ more. ins ∷ more) rest) ≢ err out_of_fuel
  round-ne true ins rest ih h = cc
  round-ne false ins (ok more) ih h = cc
  round-ne false ins (err e) ih h = ih h

  same_error :
      (e : Error)
      → ◌≡◌ {A = Result (List Instr)} (err e) (err out_of_fuel)
      → ◌≡◌ {A = Result Instr} (err e) (err out_of_fuel)
  same_error e h = cc

  disassemble_loop-ne :
      (fuel off : ℕ) → length code ≤ off + fuel → disassemble_loop fuel code off ≢ err out_of_fuel
  unfolding disassemble_loop
  disassemble_loop-ne zero off enough h = ground arith
  disassemble_loop-ne (suc fuel) off enough h = elim (Bool-cases (ltb off (length code))) [
    | inr past ↦ ground (arith, past)
    | inl inside ↦ elim (Result-cases (decode code off)) [
      | inr (e, q) ↦ decode-ne off (q ∙ same_error e (rw (inside, q) at h))
      | inl (ins, q) ↦
          round-ne (is_halt ins.op) ins (disassemble_loop fuel code (stop ins))
            (disassemble_loop-ne fuel (stop ins) (omega (arith, decode-past off ins q)))
            (rw (inside, q) at h)
    ]
  ]

  -- The disassembly of any bytes ends: it never runs out of the model's rounds.
  pub disassemble-ne-out_of_fuel : disassemble code ≢ err out_of_fuel
  unfolding disassemble
  disassemble-ne-out_of_fuel = disassemble_loop-ne (length code) 0 (omega arith)
