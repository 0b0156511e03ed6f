-- ===== src/Code/Operators.antt =====
-- The operators of conditions as YARA's language writes them, with the levels by which parentheses are
-- placed. The description of conditions prints by these tables, and those of code.py are held against
-- them.
use yaradec.Prelude.{
  if◌then◌else◌, ◌==◌, ltb, arith, ◌++◌, ◌∷◌, ◌||◌, ◌&&◌, ◌<◌, ◌^◌, ◌%◌, ◌/◌, some, none, Option,
  false, ◌≡◌, ℕ,
}
use yaradec.Prelude.Text.{Text, codes, show_dec, show_upper_hex}
use yaradec.Constants.Op.{Op}
use yaradec.Code.Literals.{int_literal}
use yaradec.Code.Expr.{binop, is_dbl, read_int_name}

-- The operators of two operands on integers, texts and conditions. The levels are those of code.py: one
-- for all comparisons, one for the bitwise operators, the shifts, `+` and `-`, and one for `*`, `\` and
-- `%`. A unary operator has 6, and what needs no parentheses anywhere 7.
abbrev pub operator : Op → Option (Text × ℕ)
operator Op.or = some (codes "or", 1)
operator Op.and = some (codes "and", 2)
operator Op.int_lt = some (codes "<", 3)
operator Op.int_le = some (codes "<=", 3)
operator Op.int_gt = some (codes ">", 3)
operator Op.int_ge = some (codes ">=", 3)
operator Op.int_eq = some (codes "==", 3)
operator Op.int_neq = some (codes "!=", 3)
operator Op.str_lt = some (codes "<", 3)
operator Op.str_le = some (codes "<=", 3)
operator Op.str_gt = some (codes ">", 3)
operator Op.str_ge = some (codes ">=", 3)
operator Op.str_eq = some (codes "==", 3)
operator Op.str_neq = some (codes "!=", 3)
operator Op.contains = some (codes "contains", 3)
operator Op.icontains = some (codes "icontains", 3)
operator Op.startswith = some (codes "startswith", 3)
operator Op.istartswith = some (codes "istartswith", 3)
operator Op.endswith = some (codes "endswith", 3)
operator Op.iendswith = some (codes "iendswith", 3)
operator Op.iequals = some (codes "iequals", 3)
operator Op.matches = some (codes "matches", 3)
operator Op.bitwise_or = some (codes "|", 4)
operator Op.bitwise_xor = some (codes "^", 4)
operator Op.bitwise_and = some (codes "&", 4)
operator Op.shl = some (codes "<<", 4)
operator Op.shr = some (codes ">>", 4)
operator Op.int_add = some (codes "+", 4)
operator Op.int_sub = some (codes "-", 4)
operator Op.int_mul = some (codes "*", 5)
operator Op.int_div = some (codes "\\", 5)
operator Op.modulo = some (codes "%", 5)
operator _ = none

-- The functions that read an integer of a width, signed or not, in either byte order.
abbrev pub reader : Op → Option Text
reader Op.uint8 = some (codes "uint8")
reader Op.uint16 = some (codes "uint16")
reader Op.uint32 = some (codes "uint32")
reader Op.uint8be = some (codes "uint8be")
reader Op.uint16be = some (codes "uint16be")
reader Op.uint32be = some (codes "uint32be")
reader Op.int8 = some (codes "int8")
reader Op.int16 = some (codes "int16")
reader Op.int32 = some (codes "int32")
reader Op.int8be = some (codes "int8be")
reader Op.int16be = some (codes "int16be")
reader Op.int32be = some (codes "int32be")
reader _ = none

-- An integer below 2 ^ 32 as conditions write it: whole megabytes below 2 ^ 30 with their unit, and
-- other numbers in decimal up to 4095 or where 1000 or 1024 divides them, and else in hex.
abbrev pub numeral : ℕ → Text
numeral v =
    if ltb 0 v && ltb v 1073741824 && v % 1048576 == 0
    then show_dec (v / 1048576) ++ codes "MB"
    else if ltb v 4096 || (v % 1000 == 0 || v % 1024 == 0)
    then show_dec v
    else b'0' ∷ b'x' ∷ show_upper_hex v

pub int_literal-numeral : (v : ℕ) → v < 2 ^ 32 → int_literal v ≡ numeral v
unfolding int_literal
int_literal-numeral v h = ground arith

pub operator-binop : (op : Op) (row : Text × ℕ) → operator op ≡ some row → binop op ≡ some row
unfolding binop
operator-binop Op.not row h = cc
operator-binop _ row h = cc

pub operator-is_dbl : (op : Op) (row : Text × ℕ) → operator op ≡ some row → is_dbl op ≡ false
operator-is_dbl Op.not row h = cc
operator-is_dbl _ row h = cc

pub reader-read_int_name :
    (op : Op) (name : Text) → reader op ≡ some name → read_int_name op ≡ some name
unfolding read_int_name
reader-read_int_name Op.not name h = cc
reader-read_int_name _ name h = cc
