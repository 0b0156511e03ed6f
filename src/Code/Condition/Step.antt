-- ===== src/Code/Condition/Step.antt =====
-- One instruction of `run`, loops aside: the chain of `if op is …`.
use yaradec.Prelude.{if◌then◌else◌, ◌++◌, ◌∷◌, [], List, some, none, Option, Bool, ◌+◌, ℕ}
use yaradec.Prelude.Text.{Text, codes, text_eq, lstrip_dollar, show_dec}
use yaradec.Constants.Op.{Op}
use yaradec.Code.Decode.{Instr, unpack_ref}
use yaradec.Code.Bodies.{dict_get}
use yaradec.Code.Expr.{Expr, atom, expr, paren, prec_cmp, prec_unary, binop, is_dbl, read_int_name}
use yaradec.Code.Literals.{int_literal}
use yaradec.Code.Condition.Monad.{
  unbound_slot, unhandled, value, undefined, Exec, pure, give_up, note, incomplete, push, pop,
  ◌>>=◌, ◌>>◌,
}
use yaradec.Code.Condition.Operands.{Context, sz, push_operand, as_double}
use yaradec.Code.Condition.Sets.{recover_of, recover_call}

-- `_sz(…) or "?"`
abbrev or_question : Option Text → Text
or_question none = codes "?"
or_question (some []) = codes "?"
or_question (some (ch ∷ t)) = ch ∷ t

abbrev pub operand_of : Instr → ℕ
operand_of ins = elim ins.operand [ some v ↦ v | none ↦ 0 ]

unfoldable pub push_rule : Context → ℕ → Exec Unit
push_rule c v = push (
    value (
      atom
        (elim (dict_get c.rule_names v) [ some name ↦ name | none ↦ codes "rule_" ++ show_dec v ])))

abbrev pub Bindings : Type 0
Bindings = List (ℕ × Text)

abbrev push_bound : Option Text → ℕ → ℕ → Exec Unit
push_bound none slot offset = do note (unbound_slot slot offset); incomplete; give_up
push_bound (some name) slot offset = push (value (atom name))

abbrev pub push_expr : Expr → Exec Unit
push_expr e = push (value e)

abbrev drop_top : Exec Unit
drop_top = pop >>= λ _. pure tt

-- COUNT, LENGTH and OFFSET.
unfoldable pub count : Exec Unit
count = do s ← pop; push_expr (atom (b'#' ∷ lstrip_dollar s.text))

unfoldable pub occurrence : ℕ → Exec Unit
occurrence sigil = do
  s ← pop
  index ← pop
  let base = sigil ∷ lstrip_dollar s.text
  push_expr (
      atom (
        if text_eq index.text (codes "1")
        then base
        else base ++ (b'[' ∷ (index.text ++ codes "]"))))

abbrev range_text : Expr → Expr → Text
range_text lo hi = codes " in (" ++ (lo.text ++ (codes ".." ++ (hi.text ++ codes ")")))

unfoldable pub found_at : Exec Unit
found_at = do
  s ← pop
  offset ← pop
  push_expr (expr (s.text ++ (codes " at " ++ paren offset prec_cmp)) prec_cmp)

unfoldable pub found_in : Exec Unit
found_in = do s ← pop; hi ← pop; lo ← pop; push_expr (expr (s.text ++ range_text lo hi) prec_cmp)

unfoldable pub count_in : Exec Unit
count_in = do
  s ← pop
  hi ← pop
  lo ← pop
  push_expr (expr (b'#' ∷ (lstrip_dollar s.text ++ range_text lo hi)) prec_cmp)

-- NOT, `~`, `-` and DEFINED.
unfoldable pub unary : Text → Exec Unit
unary symbol = do v ← pop; push_expr (expr (symbol ++ paren v prec_unary) prec_unary)

-- What a binary operator makes of its operands; the right one is set in parentheses at equal
-- precedence.
unfoldable pub binary_expr : Text → ℕ → Expr → Expr → Expr
binary_expr symbol prec lhs rhs =
    expr (paren lhs prec ++ (b' ' ∷ (symbol ++ (b' ' ∷ paren rhs (prec + 1))))) prec

unfoldable pub binary : Context → Bool → Text × ℕ → Exec Unit
binary c doubles (symbol, prec) = do
  rhs ← pop
  lhs ← pop
  push_expr (
      if doubles
      then binary_expr symbol prec (as_double c lhs) (as_double c rhs)
      else binary_expr symbol prec lhs rhs)

unfoldable pub obj_field : Context → ℕ → Exec Unit
obj_field c v = do
  base ← pop
  push_expr (atom (base.text ++ (b'.' ∷ or_question (sz c (unpack_ref v)))))

-- INDEX_ARRAY and LOOKUP_DICT.
unfoldable pub subscript : Exec Unit
subscript = do
  index ← pop
  base ← pop
  push_expr (atom (base.text ++ (b'[' ∷ (index.text ++ codes "]"))))

unfoldable pub read_int : Text → Exec Unit
read_int name = do addr ← pop; push_expr (atom (name ++ (b'(' ∷ (addr.text ++ codes ")"))))

-- The tables `_BINOP` and `READ_INT_NAMES`, then what is not handled.
abbrev pub read_int_or_unhandled : Op → Instr → Option Text → Exec Unit
read_int_or_unhandled op ins (some name) = read_int name
read_int_or_unhandled op ins none = do note (unhandled op ins.offset); incomplete; give_up

abbrev pub binary_or_other : Context → Op → Instr → Option (Text × ℕ) → Exec Unit
binary_or_other c op ins (some row) = binary c (is_dbl op) row
binary_or_other c op ins none = read_int_or_unhandled op ins (read_int_name op)

unfoldable pub step : Context → Bindings → Op → Instr → Exec Unit
step c b Op.jfalse ins = pure tt
step c b Op.jtrue ins = pure tt
step c b Op.jnundef ins = pure tt
step c b Op.jundef ins = pure tt
step c b Op.jz ins = pure tt
step c b Op.jfalse_p ins = drop_top
step c b Op.jtrue_p ins = drop_top
step c b Op.jundef_p ins = drop_top
step c b Op.jnundef_p ins = drop_top
step c b Op.jz_p ins = drop_top
step c b Op.jl_p ins = drop_top
step c b Op.jle_p ins = drop_top
step c b Op.nop ins = pure tt
step c b Op.init_rule ins = pure tt
step c b Op.match_rule ins = pure tt
step c b Op.halt ins = pure tt
step c b Op.import ins = pure tt
step c b Op.push ins = do e ← push_operand c (operand_of ins); push_expr e
step c b Op.push_8 ins = push_expr (atom (int_literal (operand_of ins)))
step c b Op.push_16 ins = push_expr (atom (int_literal (operand_of ins)))
step c b Op.push_32 ins = push_expr (atom (int_literal (operand_of ins)))
step c b Op.push_u ins = push undefined
step c b Op.push_rule ins = push_rule c (operand_of ins)
step c b Op.push_m ins = push_bound (dict_get b (operand_of ins)) (operand_of ins) ins.offset
step c b Op.filesize ins = push_expr (atom (codes "filesize"))
step c b Op.entrypoint ins = push_expr (atom (codes "entrypoint"))
step c b Op.found ins = do e ← pop; push_expr (atom e.text)
step c b Op.count ins = count
step c b Op.length ins = occurrence b'!'
step c b Op.offset ins = occurrence b'@'
step c b Op.found_at ins = found_at
step c b Op.found_in ins = found_in
step c b Op.count_in ins = count_in
step c b Op.of ins = do e ← recover_of c Op.of ins; push_expr e
step c b Op.of_percent ins = do e ← recover_of c Op.of_percent ins; push_expr e
step c b Op.of_found_in ins = do e ← recover_of c Op.of_found_in ins; push_expr e
step c b Op.of_found_at ins = do e ← recover_of c Op.of_found_at ins; push_expr e
step c b Op.not ins = unary (codes "not ")
step c b Op.bitwise_not ins = unary (codes "~")
step c b Op.int_minus ins = unary (codes "-")
step c b Op.dbl_minus ins = unary (codes "-")
step c b Op.defined ins = unary (codes "defined ")
step c b Op.obj_load ins = push_expr (atom (or_question (sz c (unpack_ref (operand_of ins)))))
step c b Op.obj_field ins = obj_field c (operand_of ins)
step c b Op.obj_value ins = pure tt
step c b Op.index_array ins = subscript
step c b Op.lookup_dict ins = subscript
step c b Op.call ins = do e ← recover_call c ins; push_expr e
step c b Op.int_to_dbl ins = pure tt
step c b Op.str_to_bool ins = pure tt
step c b Op.swapundef ins = pure tt
step c b op ins = binary_or_other c op ins (binop op)
