-- ===== src/Code/Writer.antt =====
-- The VM bytecode as OPERANDS of constants.py lays it out, written down as a writer, and `decode`
-- and `disassemble` against it.
use mathlib.Core.List.{append_assoc}
use yaradec.Prelude.{
  length-append, All, length, ltb, List, none, false, true, sym, ◌≤◌, suc, zero, drop, arith, ◌++◌,
  ◌∷◌, [], some, Option, ◌∙◌, ap, refl, ◌≡◌, ◌<◌, ◌^◌, ◌+◌, ℕ,
}
use yaradec.Prelude.Int.{ℤ, pos, signed, unsigned, FitsSigned, signed-unsigned, unsigned-lt, ◌+ℤ◌}
use yaradec.Result.{ok, ◌>>=◌}
use yaradec.Bytes.{Bytes, IsByte, pack, field_at}
use yaradec.Bytes.Laws.{drop_past, unpack_from_at, get_elem?_at, length_at}
use yaradec.Constants.Op
use yaradec.Constants.Op.{Op, OperandKind, u8, u16, u32, u64, jmp, jmp_u32}
use yaradec.Constants.Codes.{of_byte-value}
use yaradec.Code.Decode.{
  Instr, stop, blank, width_of, read_immediate, read_u8, read_jump, read_init_rule, read_kind,
  decode_op, decode, is_halt, disassemble_loop, disassemble,
}

-- An opcode's argument: none, a number, a jump, or a jump with a rule's index.
pub data Arg : Type 0 where
  nothing : Arg
  immediate : ℕ → Arg
  jump : ℤ → Arg
  init_rule : ℤ → ℕ → Arg

pub record Code : Type 0 where
  pub op : Op
  pub arg : Arg

-- The argument is of the opcode's kind, and fits its fields.
abbrev pub FitsKind : Option OperandKind → Arg → Type 0
FitsKind none nothing = Unit
FitsKind (some u8) (immediate v) = IsByte v
FitsKind (some u16) (immediate v) = v < 2 ^ 16
FitsKind (some u32) (immediate v) = v < 2 ^ 32
FitsKind (some u64) (immediate v) = v < 2 ^ 64
FitsKind (some jmp) (jump r) = FitsSigned (2 ^ 31) r
FitsKind (some jmp_u32) (init_rule r i) = FitsSigned (2 ^ 31) r × (i < 2 ^ 32)
FitsKind _ _ = ⊥

abbrev pub Fits : Code → Type 0
Fits c = FitsKind (Op.operands c.op) c.arg

abbrev pub arg_bytes : Option OperandKind → Arg → Bytes
arg_bytes (some u8) (immediate v) = v ∷ []
arg_bytes (some u16) (immediate v) = pack (2 ∷ []) (v ∷ [])
arg_bytes (some u32) (immediate v) = pack (4 ∷ []) (v ∷ [])
arg_bytes (some u64) (immediate v) = pack (8 ∷ []) (v ∷ [])
arg_bytes (some jmp) (jump r) = pack (4 ∷ []) (unsigned (2 ^ 31) r ∷ [])
arg_bytes (some jmp_u32) (init_rule r i) = pack (4 ∷ 4 ∷ []) (unsigned (2 ^ 31) r ∷ i ∷ [])
arg_bytes _ _ = []

abbrev pub write : Code → Bytes
write c = Op.value c.op ∷ arg_bytes (Op.operands c.op) c.arg

-- The instruction with its argument read in.
abbrev pub with_arg : Instr → Arg → Instr
with_arg ins nothing = ins
with_arg ins (immediate v) = record ins { operand = some v }
with_arg ins (jump r) = record ins { target = some (pos ins.offset +ℤ r) }
with_arg ins (init_rule r i) = record ins {
  target = some (pos ins.offset +ℤ r);
  rule_index = some i;
}

abbrev pub instr : ℕ → Code → Instr
instr off c = with_arg (blank off c.op) c.arg

module _ (code : Bytes) (ins : Instr) where
  read_immediate_lem :
      (w v : ℕ) (rest : Bytes)
      → v < 256 ^ w
      → 0 < w
      → drop (ins.offset + 1) code ≡ pack (w ∷ []) (v ∷ []) ++ rest
      → read_immediate w code ins ≡ ok (record ins { operand = some v })
  unfolding read_immediate
  read_immediate_lem w v rest fits wide e =
      ap (λ m. m >>= λ vals. ok (record ins { operand = some (field_at vals 0) }))
        (unpack_from_at (w ∷ []) (v ∷ []) code (ins.offset + 1) rest (fits, tt) (omega arith) e)

  read_jump_lem :
      (r : ℤ) (rest : Bytes)
      → FitsSigned (2 ^ 31) r
      → drop (ins.offset + 1) code ≡ pack (4 ∷ []) (unsigned (2 ^ 31) r ∷ []) ++ rest
      → read_jump code ins ≡ ok (record ins { target = some (pos ins.offset +ℤ r) })
  unfolding read_jump
  read_jump_lem r rest fits e =
      ap
        (λ m. m >>= λ vals.
          ok (record ins { target = some (pos ins.offset +ℤ signed (2 ^ 31) (field_at vals 0)) }))
        (unpack_from_at (4 ∷ []) (unsigned (2 ^ 31) r ∷ []) code (ins.offset + 1) rest
          (unsigned-lt (2 ^ 31) r fits, tt) (omega arith) e)
      ∙ rw (signed-unsigned (2 ^ 31) r fits)

  read_init_rule_lem :
      (r : ℤ) (i : ℕ) (rest : Bytes)
      → FitsSigned (2 ^ 31) r
      → i < 2 ^ 32
      → drop (ins.offset + 1) code ≡ pack (4 ∷ 4 ∷ []) (unsigned (2 ^ 31) r ∷ i ∷ []) ++ rest
      → read_init_rule code ins
        ≡ ok (record ins { target = some (pos ins.offset +ℤ r); rule_index = some i })
  unfolding read_init_rule
  read_init_rule_lem r i rest fits hi e =
      ap
        (λ m. m >>= λ vals. ok (record ins {
          target = some (pos ins.offset +ℤ signed (2 ^ 31) (field_at vals 0));
          rule_index = some (field_at vals 1);
        }))
        (unpack_from_at (4 ∷ 4 ∷ []) (unsigned (2 ^ 31) r ∷ i ∷ []) code (ins.offset + 1) rest
          (unsigned-lt (2 ^ 31) r fits, (hi, tt)) (omega arith) e)
      ∙ rw (signed-unsigned (2 ^ 31) r fits)

  read_u8_lem :
      (v : ℕ) (rest : Bytes)
      → drop (ins.offset + 1) code ≡ v ∷ rest
      → read_u8 code ins ≡ ok (record ins { operand = some v })
  unfolding read_u8
  read_u8_lem v rest e = rw (get_elem?_at code (ins.offset + 1) v rest e)

  read_kind_lem :
      (kind : Option OperandKind) (arg : Arg) (rest : Bytes)
      → FitsKind kind arg
      → drop (ins.offset + 1) code ≡ arg_bytes kind arg ++ rest
      → read_kind kind code ins ≡ ok (with_arg ins arg)
  unfolding read_kind
  read_kind_lem none nothing rest h e = refl
  read_kind_lem (some u8) (immediate v) rest h e = read_u8_lem v rest e
  read_kind_lem (some u16) (immediate v) rest h e = read_immediate_lem 2 v rest h (omega arith) e
  read_kind_lem (some u32) (immediate v) rest h e = read_immediate_lem 4 v rest h (omega arith) e
  read_kind_lem (some u64) (immediate v) rest h e = read_immediate_lem 8 v rest h (omega arith) e
  read_kind_lem (some jmp) (jump r) rest h e = read_jump_lem r rest h e
  read_kind_lem (some jmp_u32) (init_rule r i) rest (hr, hi) e = read_init_rule_lem r i rest hr hi e
  read_kind_lem _ _ rest h e = elim h [ ]

pub length-write : (c : Code) → Fits c → length (write c) ≡ 1 + width_of (Op.operands c.op)
unfolding width_of
length-write c h = omega (arith, length-arg (Op.operands c.op) c.arg h)
  where
    length-arg :
        (kind : Option OperandKind) (arg : Arg)
        → FitsKind kind arg
        → length (arg_bytes kind arg) ≡ width_of kind
    length-arg none nothing h = refl
    length-arg (some u8) (immediate v) h = refl
    length-arg (some u16) (immediate v) h = refl
    length-arg (some u32) (immediate v) h = refl
    length-arg (some u64) (immediate v) h = refl
    length-arg (some jmp) (jump r) h = refl
    length-arg (some jmp_u32) (init_rule r i) h = refl
    length-arg _ _ h = elim h [ ]

instr_fields :
    (off : ℕ) (c : Code)
    → ((instr off c).op ≡ c.op) × (stop (instr off c) ≡ off + (1 + width_of (Op.operands c.op)))
instr_fields off c = of_arg c.arg
  where
    of_arg :
        (arg : Arg)
        → ((with_arg (blank off c.op) arg).op ≡ c.op)
          × (stop (with_arg (blank off c.op) arg) ≡ off + (1 + width_of (Op.operands c.op)))
    of_arg nothing = (refl, refl)
    of_arg _ = (refl, refl)

pub op-instr : (off : ℕ) (c : Code) → (instr off c).op ≡ c.op
op-instr off c = (instr_fields off c).0

stop-instr : (off : ℕ) (c : Code) → Fits c → stop (instr off c) ≡ off + length (write c)
stop-instr off c h = (instr_fields off c).1 ∙ ap (λ n. off + n) (sym (length-write c h))

abbrev pub write_all : List Code → Bytes
write_all [] = []
write_all (c ∷ cs) = write c ++ write_all cs

abbrev pub instrs : ℕ → List Code → List Instr
instrs off [] = []
instrs off (c ∷ cs) = instr off c ∷ instrs (off + length (write c)) cs

abbrev pub halt : Code
halt = record { op = Op.halt; arg = nothing }

halt-Fits : Fits halt
unfolding Op.operands
halt-Fits = tt

module _ (code : Bytes) where
  -- An instruction that was written at `off`, its argument fitting its opcode, is decoded as that
  -- instruction, whatever follows it.
  pub decode-write :
      (off : ℕ) (c : Code) (rest : Bytes)
      → Fits c
      → drop off code ≡ write c ++ rest
      → decode code off ≡ ok (instr off c)
  unfolding decode decode_op
  decode-write off c rest h e =
      rw (get_elem?_at code off (Op.value c.op) (arg_bytes (Op.operands c.op) c.arg ++ rest) e) (
        rw (of_byte-value c.op) (
          read_kind_lem code (blank off c.op) (Op.operands c.op) c.arg rest h (
            drop_past code off (Op.value c.op ∷ []) (arg_bytes (Op.operands c.op) c.arg ++ rest)
              e)))

  disassemble_loop-write :
      (cs : List Code) (fuel off : ℕ) (rest : Bytes)
      → All (λ c. Fits c × (is_halt c.op ≡ false)) cs
      → drop off code ≡ write_all cs ++ (write halt ++ rest)
      → length cs < fuel
      → disassemble_loop fuel code off
        ≡ ok (instrs off cs ++ (instr (off + length (write_all cs)) halt ∷ []))
  unfolding disassemble_loop
  disassemble_loop-write cs zero off rest b h enough = absurd (omega arith)
  disassemble_loop-write [] (suc fuel) off rest b h enough =
      let e : off + 0 ≡ off = omega arith in
      let inside : ltb off (length code) ≡ true =
        ground (arith, length_at code off (write halt) rest h) in
      rw (inside, decode-write off halt rest halt-Fits h, e) refl
  disassemble_loop-write (c ∷ cs) (suc fuel) off rest ((fits, other), b) h enough =
      let after : Bytes = write_all cs ++ (write halt ++ rest) in
      let here : drop off code ≡ write c ++ after =
        h ∙ append_assoc (write c) (write_all cs) (write halt ++ rest) in
      let inside : ltb off (length code) ≡ true =
        ground (arith, length_at code off (write c) after here) in
      let next : disassemble_loop fuel code (off + length (write c))
          ≡ ok (
              instrs (off + length (write c)) cs
              ++ (instr (off + length (write c) + length (write_all cs)) halt ∷ [])) =
        disassemble_loop-write cs fuel (off + length (write c)) rest b
          (drop_past code off (write c) after here) (omega arith) in
      let e : off + length (write c) + length (write_all cs)
          ≡ off + length (write c ++ write_all cs) =
        omega (arith, length-append (write c) (write_all cs)) in
      let goes_on : is_halt (instr off c).op ≡ false = rw (op-instr off c) other in
      rw (inside, decode-write off c after fits here)
        (rw goes_on (rw (stop-instr off c fits, next, e) refl))

length-write_all : (cs : List Code) → length cs ≤ length (write_all cs)
length-write_all [] = omega arith
length-write_all (c ∷ cs) =
    omega (arith, length-append (write c) (write_all cs), length-write_all cs)

-- A code section that was written as instructions whose arguments fit, none of them HALT, and then
-- HALT is disassembled into exactly these, whatever follows.
pub disassemble-write :
    (cs : List Code) (rest : Bytes)
    → All (λ c. Fits c × (is_halt c.op ≡ false)) cs
    → disassemble (write_all cs ++ (write halt ++ rest))
      ≡ ok (instrs 0 cs ++ (instr (length (write_all cs)) halt ∷ []))
unfolding disassemble
disassemble-write cs rest b =
    let code : Bytes = write_all cs ++ (write halt ++ rest) in
    let e : 0 + length (write_all cs) ≡ length (write_all cs) = omega arith in
    rw e at (
      disassemble_loop-write code cs (length code) 0 rest b refl
        (omega (arith, length-write_all cs, length-append (write_all cs) (write halt ++ rest))))
