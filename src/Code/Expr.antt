-- ===== src/Code/Expr.antt =====
-- The expression model of code.py: `Expr`, the precedences and the operator tables.
use yaradec.Prelude.{if◌then◌else◌, ltb, ◌++◌, ◌∷◌, some, none, Option, false, true, Bool, ℕ}
use yaradec.Prelude.Text.{Text, codes}
use yaradec.Constants.Op.{Op}

-- `_PREC`; higher binds tighter.
abbrev pub prec_or : ℕ
prec_or = 1

abbrev pub prec_and : ℕ
prec_and = 2

abbrev pub prec_cmp : ℕ
prec_cmp = 3

abbrev pub prec_add : ℕ
prec_add = 4

abbrev pub prec_mul : ℕ
prec_mul = 5

abbrev pub prec_unary : ℕ
prec_unary = 6

abbrev pub prec_atom : ℕ
prec_atom = 7

pub record Expr : Type 0 where
  pub text : Text
  pub prec : ℕ
  -- The operand of a literal PUSH.
  pub raw : Option ℕ

-- `Expr(text)` and `Expr(text, prec)`
abbrev pub atom : Text → Expr
atom text = record { text = text; prec = prec_atom; raw = none }

abbrev pub expr : Text → ℕ → Expr
expr text prec = record { text = text; prec = prec; raw = none }

-- `paren`
unfoldable pub paren : Expr → ℕ → Text
paren e min_prec = if ltb e.prec min_prec then b'(' ∷ (e.text ++ codes ")") else e.text

-- `_BINOP.get(op)`
unfoldable pub binop : Op → Option (Text × ℕ)
binop Op.int_eq = some (codes "==", prec_cmp)
binop Op.int_neq = some (codes "!=", prec_cmp)
binop Op.int_lt = some (codes "<", prec_cmp)
binop Op.int_gt = some (codes ">", prec_cmp)
binop Op.int_le = some (codes "<=", prec_cmp)
binop Op.int_ge = some (codes ">=", prec_cmp)
binop Op.int_add = some (codes "+", prec_add)
binop Op.int_sub = some (codes "-", prec_add)
binop Op.int_mul = some (codes "*", prec_mul)
binop Op.int_div = some (codes "\\", prec_mul)
binop Op.dbl_eq = some (codes "==", prec_cmp)
binop Op.dbl_neq = some (codes "!=", prec_cmp)
binop Op.dbl_lt = some (codes "<", prec_cmp)
binop Op.dbl_gt = some (codes ">", prec_cmp)
binop Op.dbl_le = some (codes "<=", prec_cmp)
binop Op.dbl_ge = some (codes ">=", prec_cmp)
binop Op.dbl_add = some (codes "+", prec_add)
binop Op.dbl_sub = some (codes "-", prec_add)
binop Op.dbl_mul = some (codes "*", prec_mul)
binop Op.dbl_div = some (codes "\\", prec_mul)
binop Op.str_eq = some (codes "==", prec_cmp)
binop Op.str_neq = some (codes "!=", prec_cmp)
binop Op.str_lt = some (codes "<", prec_cmp)
binop Op.str_gt = some (codes ">", prec_cmp)
binop Op.str_le = some (codes "<=", prec_cmp)
binop Op.str_ge = some (codes ">=", prec_cmp)
binop Op.modulo = some (codes "%", prec_mul)
binop Op.bitwise_and = some (codes "&", prec_add)
binop Op.bitwise_or = some (codes "|", prec_add)
binop Op.bitwise_xor = some (codes "^", prec_add)
binop Op.shl = some (codes "<<", prec_add)
binop Op.shr = some (codes ">>", prec_add)
binop Op.and = some (codes "and", prec_and)
binop Op.or = some (codes "or", prec_or)
binop Op.matches = some (codes "matches", prec_cmp)
binop Op.contains = some (codes "contains", prec_cmp)
binop Op.icontains = some (codes "icontains", prec_cmp)
binop Op.startswith = some (codes "startswith", prec_cmp)
binop Op.istartswith = some (codes "istartswith", prec_cmp)
binop Op.endswith = some (codes "endswith", prec_cmp)
binop Op.iendswith = some (codes "iendswith", prec_cmp)
binop Op.iequals = some (codes "iequals", prec_cmp)
binop _ = none

-- `op in _DBL_OPS`
abbrev pub is_dbl : Op → Bool
is_dbl Op.dbl_eq = true
is_dbl Op.dbl_neq = true
is_dbl Op.dbl_lt = true
is_dbl Op.dbl_gt = true
is_dbl Op.dbl_le = true
is_dbl Op.dbl_ge = true
is_dbl Op.dbl_add = true
is_dbl Op.dbl_sub = true
is_dbl Op.dbl_mul = true
is_dbl Op.dbl_div = true
is_dbl _ = false

-- `op in _STACK_NEUTRAL_JUMPS`
abbrev pub is_neutral_jump : Op → Bool
is_neutral_jump Op.jfalse = true
is_neutral_jump Op.jtrue = true
is_neutral_jump Op.jnundef = true
is_neutral_jump Op.jundef = true
is_neutral_jump Op.jz = true
is_neutral_jump _ = false

-- `op in _POPPING_JUMPS`
abbrev pub is_popping_jump : Op → Bool
is_popping_jump Op.jfalse_p = true
is_popping_jump Op.jtrue_p = true
is_popping_jump Op.jundef_p = true
is_popping_jump Op.jnundef_p = true
is_popping_jump Op.jz_p = true
is_popping_jump Op.jl_p = true
is_popping_jump Op.jle_p = true
is_popping_jump _ = false

-- `READ_INT_NAMES.get(op)`
unfoldable pub read_int_name : Op → Option Text
read_int_name Op.int8 = some (codes "int8")
read_int_name Op.int16 = some (codes "int16")
read_int_name Op.int32 = some (codes "int32")
read_int_name Op.uint8 = some (codes "uint8")
read_int_name Op.uint16 = some (codes "uint16")
read_int_name Op.uint32 = some (codes "uint32")
read_int_name Op.int8be = some (codes "int8be")
read_int_name Op.int16be = some (codes "int16be")
read_int_name Op.int32be = some (codes "int32be")
read_int_name Op.uint8be = some (codes "uint8be")
read_int_name Op.uint16be = some (codes "uint16be")
read_int_name Op.uint32be = some (codes "uint32be")
read_int_name _ = none
