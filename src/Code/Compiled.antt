-- ===== src/Code/Compiled.antt =====
-- Conditions as trees, the bytecode that YARA's compiler makes of them, and their source text. This
-- is the description that the recovery is held against.
use yaradec.Prelude.{
  Bool, All, length, if◌then◌else◌, ltb, map, ◌++◌, ◌∷◌, [], List, some, none, Option, false, true,
  ◌⊎◌, ◌≡◌, ◌<◌, ◌^◌, ◌*◌, ◌+◌, ℕ,
}
pub mod Straight
pub mod Steps
pub mod Sets
pub mod Recovery
pub mod Correct
pub mod Program
use yaradec.Prelude.Int.{ℤ, pos}
use yaradec.Prelude.Text.{text_eq, Text, codes, join, lstrip_dollar}
use yaradec.Constants.Op
use yaradec.Constants.Op.{Op}
use yaradec.Constants.{sizeof_string}
use yaradec.Constants.Section as Sections
use yaradec.Code.Writer.{Code, Arg, nothing, immediate, jump, write_all}
use yaradec.Code.Bodies.{dict_get}
use yaradec.Code.Operators.{operator, reader, numeral}
use yaradec.Code.Condition.Operands.{Context}
use yaradec.Code.Condition.Sets.{covers_rule, has_anonymous, all_or, comma}

pub data Cond : Type 0 where
  number : ℕ → Cond
  filesize entrypoint : Cond
  -- A string's identifier alone, its count, and its presence at an offset.
  str str_count : ℕ → Cond
  str_at : ℕ → Cond → Cond
  -- Another rule.
  rule : ℕ → Cond
  unary_op : Op → Cond → Cond
  binary_op : Op → Cond → Cond → Cond
  -- `uint16(…)` and its kin.
  read : Op → Cond → Cond
  -- "all of" and "n of" a set of strings.
  all_of : List ℕ → Cond
  some_of : Cond → List ℕ → Cond

abbrev pub code : Op → Arg → Code
code op arg = record { op = op; arg = arg }

-- A reference to an entry of the string table, packed into a PUSH.
abbrev pub string_ref : ℕ → ℕ
string_ref i = Sections.strings_table + 2 ^ 32 * (i * sizeof_string)

abbrev pub push_string : ℕ → Code
push_string i = code Op.push (immediate (string_ref i))

-- The narrowest PUSH that holds a number.
abbrev pub push_width : Bool → Bool → Op
push_width true word = Op.push_8
push_width false true = Op.push_16
push_width false false = Op.push_32

abbrev pub push_number : ℕ → Code
push_number v = code (push_width (ltb v 256) (ltb v 65536)) (immediate v)

-- The jump with which AND and OR skip their right operand, over `n` bytes and the operator.
abbrev pub short_circuit : Op → ℕ → List Code
short_circuit Op.and n = code Op.jfalse (jump (pos (n + 6))) ∷ []
short_circuit Op.or n = code Op.jtrue (jump (pos (n + 6))) ∷ []
short_circuit op n = []

abbrev pub compile : Cond → List Code
compile (number v) = push_number v ∷ []
compile filesize = code Op.filesize nothing ∷ []
compile entrypoint = code Op.entrypoint nothing ∷ []
compile (str i) = push_string i ∷ code Op.found nothing ∷ []
compile (str_count i) = push_string i ∷ code Op.count nothing ∷ []
compile (str_at i e) = compile e ++ (push_string i ∷ code Op.found_at nothing ∷ [])
compile (rule i) = code Op.push_rule (immediate i) ∷ []
compile (unary_op op e) = compile e ++ (code op nothing ∷ [])
compile (binary_op op l r) =
    let right = compile r in
    compile l ++ (short_circuit op (length (write_all right)) ++ (right ++ (code op nothing ∷ [])))
compile (read op e) = compile e ++ (code op nothing ∷ [])
compile (all_of is) =
    code Op.push_u nothing
    ∷ code Op.push_u nothing
    ∷ (map push_string is ++ (code Op.of (immediate 0) ∷ []))
compile (some_of q is) =
    compile q ++ (code Op.push_u nothing ∷ (map push_string is ++ (code Op.of (immediate 0) ∷ [])))

-- The word before the operand of a unary operator.
abbrev pub unary_symbol : Op → Option Text
unary_symbol Op.not = some (codes "not ")
unary_symbol Op.bitwise_not = some (codes "~")
unary_symbol Op.int_minus = some (codes "-")
unary_symbol Op.defined = some (codes "defined ")
unary_symbol _ = none

abbrev symbol_or_empty : Option Text → Text
symbol_or_empty (some s) = s
symbol_or_empty none = []

abbrev row_or_empty : Option (Text × ℕ) → Text × ℕ
row_or_empty (some row) = row
row_or_empty none = ([], 0)

module _ (c : Context) where
  abbrev pub name_of : ℕ → Text
  name_of i = symbol_or_empty (dict_get c.string_names i)

  abbrev pub prec_of : Cond → ℕ
  prec_of (str_at i e) = 3
  prec_of (unary_op op e) = 6
  prec_of (binary_op op l r) = (row_or_empty (operator op)).1
  prec_of (all_of is) = 3
  prec_of (some_of q is) = 3
  prec_of _ = 7

  -- In parentheses where the operand binds less tightly than its place asks for.
  abbrev pub wrap : ℕ → ℕ → Text → Text
  wrap least prec text = if ltb prec least then b'(' ∷ (text ++ codes ")") else text

  abbrev pub set_text : List ℕ → Text
  set_text is =
      if covers_rule c (map name_of is)
      then codes "them"
      else b'(' ∷ (join comma (map name_of is) ++ codes ")")

  -- The source text of a condition.
  abbrev pub show : Cond → Text
  show (number v) = numeral v
  show filesize = codes "filesize"
  show entrypoint = codes "entrypoint"
  show (str i) = name_of i
  show (str_count i) = b'#' ∷ lstrip_dollar (name_of i)
  show (str_at i e) = name_of i ++ (codes " at " ++ wrap 3 (prec_of e) (show e))
  show (rule i) = symbol_or_empty (dict_get c.rule_names i)
  show (unary_op op e) = symbol_or_empty (unary_symbol op) ++ wrap 6 (prec_of e) (show e)
  show (binary_op op l r) =
      let (symbol, prec) = row_or_empty (operator op) in
      wrap prec (prec_of l) (show l)
      ++ (b' ' ∷ (symbol ++ (b' ' ∷ wrap (prec + 1) (prec_of r) (show r))))
  show (read op e) = symbol_or_empty (reader op) ++ (b'(' ∷ (show e ++ codes ")"))
  show (all_of is) = codes "all of " ++ set_text is
  show (some_of q is) = show q ++ (codes " of " ++ set_text is)

  -- Every string and rule that is named is one of the file's, operators are of their kind, numbers
  -- fit 32 bits, and a set that is not the whole rule has no anonymous string.
  abbrev pub IsNamed : ℕ → Type 0
  IsNamed i = (i < 2 ^ 20) × ((name : Text) × (dict_get c.string_names i ≡ some name))

  abbrev pub IsListing : List ℕ → Type 0
  IsListing is =
      All IsNamed is
      × (length is < 65536)
      × ((covers_rule c (map name_of is) ≡ true) ⊎ (has_anonymous (map name_of is) ≡ false))

  abbrev pub Valid : Cond → Type 0
  Valid (number v) = v < 2 ^ 32
  Valid filesize = Unit
  Valid entrypoint = Unit
  Valid (str i) = IsNamed i
  Valid (str_count i) = IsNamed i
  Valid (str_at i e) = IsNamed i × Valid e
  Valid (rule i) = (name : Text) × (dict_get c.rule_names i ≡ some name)
  Valid (unary_op op e) = ((s : Text) × (unary_symbol op ≡ some s)) × Valid e
  Valid (binary_op op l r) = ((row : Text × ℕ) × (operator op ≡ some row)) × Valid l × Valid r
  Valid (read op e) = ((name : Text) × (reader op ≡ some name)) × Valid e
  Valid (all_of is) = IsListing is
  Valid (some_of q is) = (text_eq (show q) (codes "undefined") ≡ false) × Valid q × IsListing is
