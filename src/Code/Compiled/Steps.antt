-- ===== src/Code/Compiled/Steps.antt =====
-- What one instruction of a compiled condition does, by the tables of operators.
use yaradec.Prelude.{Bool, ◌==◌, some, false, true, ◌≡◌, refl, arith, ◌<◌, ◌^◌, ◌*◌, ◌%◌, ◌/◌, ℕ}
use yaradec.Prelude.Text.{Text}
use yaradec.Constants.Op.{Op}
use yaradec.Code.Blocks.{is_boundary}
use yaradec.Code.Decode.{is_halt, Instr, unpack_ref}
use yaradec.Code.Bodies.{dict_get}
use yaradec.Code.Expr.{atom, binop, read_int_name}
use yaradec.Code.Loops.{is_iter_start}
use yaradec.Code.Literals.{undefined_value}
use yaradec.Code.Condition.Monad.{pure}
use yaradec.Code.Condition.Operands.{Context, string_name, push_operand}
use yaradec.Code.Condition.Step.{Bindings, step, unary, binary_or_other, read_int_or_unhandled}
use yaradec.Code.Compiled.{unary_symbol, string_ref, name_of, IsNamed}

module _ (c : Context) (b : Bindings) (ins : Instr) where
  pub step-unary : (op : Op) (s : Text) → unary_symbol op ≡ some s → step c b op ins ≡ unary s
  unfolding step
  step-unary Op.not s h = cc
  step-unary Op.bitwise_not s h = cc
  step-unary Op.int_minus s h = cc
  step-unary Op.defined s h = cc
  step-unary _ s h = cc

  pub step-binop :
      (op : Op) (row : Text × ℕ)
      → binop op ≡ some row
      → step c b op ins ≡ binary_or_other c op ins (binop op)
  unfolding step binop
  step-binop Op.not row h = cc
  step-binop _ row h = cc

  pub step-read :
      (op : Op) (name : Text)
      → read_int_name op ≡ some name
      → step c b op ins ≡ read_int_or_unhandled op ins (read_int_name op)
  unfolding step binop read_int_name
  step-read Op.not name h = cc
  step-read _ name h = cc

-- The opcodes that begin a loop, those that bound a rule, and IMPORT: a condition without loops has
-- none.
abbrev pub is_special : Op → Bool
is_special Op.init_rule = true
is_special Op.match_rule = true
is_special Op.halt = true
is_special Op.import = true
is_special op = is_iter_start op

pub special-iter_start : (op : Op) → is_special op ≡ false → is_iter_start op ≡ false
special-iter_start Op.init_rule h = refl
special-iter_start Op.match_rule h = refl
special-iter_start Op.halt h = refl
special-iter_start Op.import h = refl
special-iter_start _ h = h

pub special-boundary : (op : Op) → is_special op ≡ false → is_boundary op ≡ false
special-boundary Op.init_rule h = cc
special-boundary Op.match_rule h = cc
special-boundary Op.halt h = cc
special-boundary _ h = refl

pub special-halt : (op : Op) → is_special op ≡ false → is_halt op ≡ false
special-halt Op.halt h = cc
special-halt _ h = refl

pub special-binop : (op : Op) (row : Text × ℕ) → binop op ≡ some row → is_special op ≡ false
unfolding binop
special-binop Op.not row h = refl
special-binop _ row h = cc

pub special-read : (op : Op) (name : Text) → read_int_name op ≡ some name → is_special op ≡ false
unfolding read_int_name
special-read Op.not row h = refl
special-read _ row h = cc

pub special-unary : (op : Op) (s : Text) → unary_symbol op ≡ some s → is_special op ≡ false
special-unary Op.not row h = refl
special-unary _ row h = cc

string_name_ref :
    (c : Context) (i : ℕ)
    → i < 2 ^ 20
    → string_name c (unpack_ref (string_ref i)) ≡ dict_get c.string_names i
unfolding string_name unpack_ref
string_name_ref c i h =
    let low : string_ref i % 2 ^ 32 ≡ 3 = omega arith in
    let high : string_ref i / 2 ^ 32 % 2 ^ 32 ≡ 56 * i = omega arith in
    let whole : 56 * i % 56 ≡ 0 = omega arith in
    let index : 56 * i / 56 ≡ i = omega arith in rw (low, high) (rw whole (rw index refl))

pub push_operand_ref :
    (c : Context) (i : ℕ) → IsNamed c i → push_operand c (string_ref i) ≡ pure (atom (name_of c i))
unfolding push_operand
push_operand_ref c i (small, (name, found)) =
    let other : (string_ref i == undefined_value) ≡ false = ground arith in
    rw other (rw (string_name_ref c i small) (rw found refl))
