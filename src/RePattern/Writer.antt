-- ===== src/RePattern/Writer.antt =====
-- The regexp bytecode as the table at the top of repattern.py lays it out, written down as a
-- writer, and `decode_instr` against it.
use yaradec.Result.{◌>>=◌, ok}
use yaradec.Bytes.Laws.{slice_at, length_at, unpack_from_at, drop_past, get_elem?_at}
use yaradec.Prelude.{
  ◌==◌, leb, ltb, not, ◌-◌, ◌∙◌, ap, drop, get_elem?, ◌++◌, ◌+◌, length, if◌then◌else◌, arith, ◌∷◌,
  [], some, false, true, Bool, refl, ◌≡◌, ◌<◌, ◌^◌, ℕ,
}
use yaradec.Prelude.Int.{unsigned-lt, signed-unsigned, ℤ, pos, signed, unsigned, FitsSigned, ◌+ℤ◌}
use yaradec.Bytes.{slice, field_at, Bytes, IsByte, pack}
use yaradec.Constants.ReOp
use yaradec.Constants.ReOp.{ReOp}
use yaradec.Constants.Codes.{re_of_byte-value}
use yaradec.RePattern.Decode.{
  read_class, read_masked, read_branch, read_repeat, read_bounds, read_value, ReInstr, blank, stop,
  read_operands, decode_op, decode_instr,
}

-- One instruction with its operands; jumps are relative to the opcode.
pub data Code : Type 0 where
  plain : ReOp → Code
  literal not_literal : ℕ → Code
  masked masked_not : ℕ → ℕ → Code
  class : Bool → Bytes → Code
  jump : ℤ → Code
  -- `a` or `b`, the split's id, and its jump.
  split : Bool → ℕ → ℤ → Code
  repeat_any : Bool → ℕ → ℕ → Code
  repeat_start repeat_end : Bool → ℕ → ℕ → ℤ → Code

abbrev pub op_of : Code → ReOp
op_of (plain op) = op
op_of (literal v) = ReOp.literal
op_of (not_literal v) = ReOp.not_literal
op_of (masked v m) = ReOp.masked_literal
op_of (masked_not v m) = ReOp.masked_not_literal
op_of (class n b) = ReOp.class
op_of (jump r) = ReOp.jump
op_of (split true i r) = ReOp.split_a
op_of (split false i r) = ReOp.split_b
op_of (repeat_any true lo hi) = ReOp.repeat_any_greedy
op_of (repeat_any false lo hi) = ReOp.repeat_any_ungreedy
op_of (repeat_start true lo hi r) = ReOp.repeat_start_greedy
op_of (repeat_start false lo hi r) = ReOp.repeat_start_ungreedy
op_of (repeat_end true lo hi r) = ReOp.repeat_end_greedy
op_of (repeat_end false lo hi r) = ReOp.repeat_end_ungreedy

-- The bytes behind the opcode.
abbrev pub operand_bytes : Code → Bytes
operand_bytes (plain op) = []
operand_bytes (literal v) = v ∷ []
operand_bytes (not_literal v) = v ∷ []
operand_bytes (masked v m) = v ∷ m ∷ []
operand_bytes (masked_not v m) = v ∷ m ∷ []
operand_bytes (class n b) = (if n then 1 else 0) ∷ b
operand_bytes (jump r) = pack (2 ∷ []) (unsigned (2 ^ 15) r ∷ [])
operand_bytes (split a i r) = i ∷ pack (2 ∷ []) (unsigned (2 ^ 15) r ∷ [])
operand_bytes (repeat_any g lo hi) = pack (2 ∷ 2 ∷ []) (lo ∷ hi ∷ [])
operand_bytes (repeat_start g lo hi r) = pack (2 ∷ 2 ∷ 4 ∷ []) (lo ∷ hi ∷ unsigned (2 ^ 31) r ∷ [])
operand_bytes (repeat_end g lo hi r) = pack (2 ∷ 2 ∷ 4 ∷ []) (lo ∷ hi ∷ unsigned (2 ^ 31) r ∷ [])

abbrev pub write : Code → Bytes
write c = ReOp.value (op_of c) ∷ operand_bytes c

-- Operands that fit their fields; a plain opcode is one that has none.
abbrev pub Fits : Code → Type 0
Fits (plain op) = ReOp.fixed_width op ≡ 1
Fits (literal v) = IsByte v
Fits (not_literal v) = IsByte v
Fits (masked v m) = IsByte v × IsByte m
Fits (masked_not v m) = IsByte v × IsByte m
Fits (class n b) = length b ≡ 32
Fits (jump r) = FitsSigned (2 ^ 15) r
Fits (split a i r) = IsByte i × FitsSigned (2 ^ 15) r
Fits (repeat_any g lo hi) = (lo < 2 ^ 16) × (hi < 2 ^ 16)
Fits (repeat_start g lo hi r) = (lo < 2 ^ 16) × (hi < 2 ^ 16) × FitsSigned (2 ^ 31) r
Fits (repeat_end g lo hi r) = (lo < 2 ^ 16) × (hi < 2 ^ 16) × FitsSigned (2 ^ 31) r

-- What the instruction at `off` has to be read as.
abbrev pub instr : ℕ → Code → ReInstr
instr off (plain op) = blank off op
instr off (literal v) = record (blank off ReOp.literal) { value = some v }
instr off (not_literal v) = record (blank off ReOp.not_literal) { value = some v }
instr off (masked v m) = record (blank off ReOp.masked_literal) { value = some v; mask = some m }
instr off (masked_not v m) = record (blank off ReOp.masked_not_literal) {
  value = some v;
  mask = some m;
}
instr off (class n b) = record (blank off ReOp.class) { negated = n; bitmap = some b }
instr off (jump r) = record (blank off ReOp.jump) { target = some (pos off +ℤ r) }
instr off (split a i r) = record (blank off (op_of (split a i r))) { target = some (pos off +ℤ r) }
instr off (repeat_any g lo hi) = record (blank off (op_of (repeat_any g lo hi))) {
  min = some lo;
  max = some hi;
}
instr off (repeat_start g lo hi r) = record (blank off (op_of (repeat_start g lo hi r))) {
  min = some lo;
  max = some hi;
  target = some (pos off +ℤ r);
}
instr off (repeat_end g lo hi r) = record (blank off (op_of (repeat_end g lo hi r))) {
  min = some lo;
  max = some hi;
  target = some (pos off +ℤ r);
}

pub length-write : (c : Code) → Fits c → length (write c) ≡ ReOp.fixed_width (op_of c)
unfolding ReOp.fixed_width
length-write (plain op) h = omega arith
length-write (class n b) h = omega arith
length-write (split true i r) h = refl
length-write (split false i r) h = refl
length-write (repeat_any true lo hi) h = refl
length-write (repeat_any false lo hi) h = refl
length-write (repeat_start true lo hi r) h = refl
length-write (repeat_start false lo hi r) h = refl
length-write (repeat_end true lo hi r) h = refl
length-write (repeat_end false lo hi r) h = refl
length-write _ h = refl

module _ (code : Bytes) (off : ℕ) where
  module _ (rest : Bytes) where
    byte_one : (a b : ℕ) → drop off code ≡ a ∷ b ∷ rest → get_elem? code (off + 1) ≡ some b
    byte_one a b h = get_elem?_at code (off + 1) b rest (drop_past code off (a ∷ []) (b ∷ rest) h)

    byte_two : (a b c : ℕ) → drop off code ≡ a ∷ b ∷ c ∷ rest → get_elem? code (off + 2) ≡ some c
    byte_two a b c h =
        get_elem?_at code (off + 2) c rest (drop_past code off (a ∷ b ∷ []) (c ∷ rest) h)

  read_branch_lem :
      (at : ℕ) (r : ℤ) (rest : Bytes) (ins : ReInstr)
      → FitsSigned (2 ^ 15) r
      → drop at code ≡ pack (2 ∷ []) (unsigned (2 ^ 15) r ∷ []) ++ rest
      → read_branch code at ins ≡ ok (record ins { target = some (pos ins.offset +ℤ r) })
  unfolding read_branch
  read_branch_lem at r rest ins h e =
      ap
        (λ m. m >>= λ vals.
          ok (record ins { target = some (pos ins.offset +ℤ signed (2 ^ 15) (field_at vals 0)) }))
        (unpack_from_at (2 ∷ []) (unsigned (2 ^ 15) r ∷ []) code at rest
          (unsigned-lt (2 ^ 15) r h, tt) (omega arith) e)
      ∙ rw (signed-unsigned (2 ^ 15) r h)

  read_bounds_lem :
      (lo hi : ℕ) (rest : Bytes) (ins : ReInstr)
      → lo < 2 ^ 16
      → hi < 2 ^ 16
      → drop (ins.offset + 1) code ≡ pack (2 ∷ 2 ∷ []) (lo ∷ hi ∷ []) ++ rest
      → read_bounds code ins ≡ ok (record ins { min = some lo; max = some hi })
  unfolding read_bounds
  read_bounds_lem lo hi rest ins hl hh e =
      ap
        (λ m. m >>= λ vals.
          ok (record ins { min = some (field_at vals 0); max = some (field_at vals 1) }))
        (unpack_from_at (2 ∷ 2 ∷ []) (lo ∷ hi ∷ []) code (ins.offset + 1) rest (omega arith)
          (omega arith) e)

  read_repeat_lem :
      (lo hi : ℕ) (r : ℤ) (rest : Bytes) (ins : ReInstr)
      → lo < 2 ^ 16
      → hi < 2 ^ 16
      → FitsSigned (2 ^ 31) r
      → drop (ins.offset + 1) code
        ≡ pack (2 ∷ 2 ∷ 4 ∷ []) (lo ∷ hi ∷ unsigned (2 ^ 31) r ∷ []) ++ rest
      → read_repeat code ins
        ≡ ok (record ins { min = some lo; max = some hi; target = some (pos ins.offset +ℤ r) })
  unfolding read_repeat
  read_repeat_lem lo hi r rest ins hl hh hr e =
      ap
        (λ m. m >>= λ vals. ok (record ins {
          min = some (field_at vals 0);
          max = some (field_at vals 1);
          target = some (pos ins.offset +ℤ signed (2 ^ 31) (field_at vals 2));
        }))
        (unpack_from_at (2 ∷ 2 ∷ 4 ∷ []) (lo ∷ hi ∷ unsigned (2 ^ 31) r ∷ []) code (ins.offset + 1)
          rest (hl, (hh, (unsigned-lt (2 ^ 31) r hr, tt))) (omega arith) e)
      ∙ rw (signed-unsigned (2 ^ 31) r hr)

  read_class_lem :
      (f : ℕ) (b rest : Bytes) (x : ℕ)
      → length b ≡ 32
      → drop off code ≡ x ∷ f ∷ (b ++ rest)
      → read_class code (blank off ReOp.class)
        ≡ ok (record (blank off ReOp.class) { negated = not (f == 0); bitmap = some b })
  unfolding read_class
  read_class_lem f b rest x h e =
      let width : off + 34 ≡ off + 2 + length b = omega arith in
      let there : slice code (off + 2) (off + 34) ≡ b =
        rw width (slice_at code (off + 2) b rest (drop_past code off (x ∷ f ∷ []) (b ++ rest) e)) in
      rw (byte_one (b ++ rest) x f e) (
        ap (λ t. ok (record (blank off ReOp.class) { negated = not (f == 0); bitmap = some t }))
          there)

  plain_read :
      (op : ReOp)
      → ReOp.fixed_width op ≡ 1
      → read_operands op code (blank off op) ≡ ok (blank off op)
  unfolding read_operands ReOp.fixed_width
  plain_read ReOp.literal h = absurd (omega arith)
  plain_read ReOp.not_literal h = absurd (omega arith)
  plain_read ReOp.masked_literal h = absurd (omega arith)
  plain_read ReOp.masked_not_literal h = absurd (omega arith)
  plain_read ReOp.class h = absurd (omega arith)
  plain_read ReOp.jump h = absurd (omega arith)
  plain_read ReOp.split_a h = absurd (omega arith)
  plain_read ReOp.split_b h = absurd (omega arith)
  plain_read ReOp.repeat_any_greedy h = absurd (omega arith)
  plain_read ReOp.repeat_any_ungreedy h = absurd (omega arith)
  plain_read ReOp.repeat_start_greedy h = absurd (omega arith)
  plain_read ReOp.repeat_end_greedy h = absurd (omega arith)
  plain_read ReOp.repeat_start_ungreedy h = absurd (omega arith)
  plain_read ReOp.repeat_end_ungreedy h = absurd (omega arith)
  plain_read _ h = refl

  operands_read :
      (c : Code) (rest : Bytes)
      → Fits c
      → drop off code ≡ write c ++ rest
      → read_operands (op_of c) code (blank off (op_of c)) ≡ ok (instr off c)
  unfolding read_operands read_value read_masked read_class
  operands_read (plain op) rest h e = plain_read op h
  operands_read (literal v) rest h e = rw (byte_one rest _ v e)
  operands_read (not_literal v) rest h e = rw (byte_one rest _ v e)
  operands_read (masked v m) rest h e = rw (byte_one (m ∷ rest) _ v e, byte_two rest _ v m e)
  operands_read (masked_not v m) rest h e = rw (byte_one (m ∷ rest) _ v e, byte_two rest _ v m e)
  operands_read (class true b) rest h e = read_class_lem 1 b rest _ h e
  operands_read (class false b) rest h e = read_class_lem 0 b rest _ h e
  operands_read (jump r) rest h e =
      read_branch_lem (off + 1) r rest _ h (drop_past code off (_ ∷ []) _ e)
  operands_read (split true i r) rest (hi, hr) e =
      read_branch_lem (off + 2) r rest _ hr (drop_past code off (_ ∷ i ∷ []) _ e)
  operands_read (split false i r) rest (hi, hr) e =
      read_branch_lem (off + 2) r rest _ hr (drop_past code off (_ ∷ i ∷ []) _ e)
  operands_read (repeat_any true lo hi) rest (hl, hh) e =
      read_bounds_lem lo hi rest _ hl hh (drop_past code off (_ ∷ []) _ e)
  operands_read (repeat_any false lo hi) rest (hl, hh) e =
      read_bounds_lem lo hi rest _ hl hh (drop_past code off (_ ∷ []) _ e)
  operands_read (repeat_start true lo hi r) rest (hl, hh, hr) e =
      read_repeat_lem lo hi r rest _ hl hh hr (drop_past code off (_ ∷ []) _ e)
  operands_read (repeat_start false lo hi r) rest (hl, hh, hr) e =
      read_repeat_lem lo hi r rest _ hl hh hr (drop_past code off (_ ∷ []) _ e)
  operands_read (repeat_end true lo hi r) rest (hl, hh, hr) e =
      read_repeat_lem lo hi r rest _ hl hh hr (drop_past code off (_ ∷ []) _ e)
  operands_read (repeat_end false lo hi r) rest (hl, hh, hr) e =
      read_repeat_lem lo hi r rest _ hl hh hr (drop_past code off (_ ∷ []) _ e)

  -- An instruction that was written at `off`, its operands fitting their fields, is decoded as
  -- that instruction, whatever follows it.
  pub decode_instr-write :
      (c : Code) (rest : Bytes)
      → Fits c
      → drop off code ≡ write c ++ rest
      → decode_instr code off ≡ ok (instr off c)
  unfolding decode_instr decode_op
  decode_instr-write c rest h e =
      let room : length code - off ≡ length (write c) + length rest =
        length_at code off (write c) rest e in
      let here : ltb off (length code) ≡ true = ground arith in
      let whole : leb (off + ReOp.fixed_width (op_of c)) (length code) ≡ true =
        ground (arith, length-write c h) in
      rw (here, get_elem?_at code off (ReOp.value (op_of c)) (operand_bytes c ++ rest) e)
        (rw (re_of_byte-value (op_of c)) (rw whole (operands_read c rest h e)))

instr_fields :
    (off : ℕ) (c : Code)
    → ((instr off c).op ≡ op_of c)
      × ((instr off c).offset ≡ off)
      × ((instr off c).size ≡ ReOp.fixed_width (op_of c))
instr_fields off (split true i r) = (refl, refl, refl)
instr_fields off (plain op) = (refl, refl, refl)
instr_fields off _ = (refl, refl, refl)

pub op-instr : (off : ℕ) (c : Code) → (instr off c).op ≡ op_of c
op-instr off c = (instr_fields off c).0

pub stop-instr : (off : ℕ) (c : Code) → Fits c → stop (instr off c) ≡ off + length (write c)
stop-instr off c h =
    let (_, at, size) = instr_fields off c in
    let width : length (write c) ≡ ReOp.fixed_width (op_of c) = length-write c h in omega arith
