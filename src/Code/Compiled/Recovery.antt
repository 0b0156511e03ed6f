-- ===== src/Code/Compiled/Recovery.antt =====
-- `run` on the bytecode of a condition.
use mathlib.Core.List.{append_assoc}
use yaradec.Prelude.{
  ◌<◌, ◌^◌, Bool, All, length, length-append, ltb, map, ◌++◌, ◌∷◌, [], List, some, false, true, ◌≡◌,
  refl, ◌∙◌, ap, arith, ◌+◌, ℕ,
}
use yaradec.Prelude.Text.{Text, codes}
use yaradec.Constants.Op.{Op}
use yaradec.Code.Decode.{Instr}
use yaradec.Code.Writer.{Code, nothing, immediate, write, write_all, instr, instrs}
use yaradec.Code.Expr.{atom, expr, paren, prec_cmp, binop, is_dbl}
use yaradec.Code.Condition.Monad.{expr_of, Item, value, undefined, Machine}
use yaradec.Code.Condition.Operands.{Context}
use yaradec.Code.Condition.Sets.{all_or}
use yaradec.Code.Condition.Step.{
  step, unary, binary, binary_expr, read_int, push_rule, count, found_at,
}
use yaradec.Code.Compiled.{
  str, str_count, str_at, rule, read, all_of, some_of, number, filesize, entrypoint, unary_op,
  binary_op, row_or_empty, push_width, Cond, compile, code, show, prec_of, name_of, set_text,
  IsNamed, IsListing, Valid, push_string, short_circuit, unary_symbol,
}
use yaradec.Code.Compiled.Straight.{steps}
use yaradec.Code.Operators.{
  operator, reader, operator-binop, operator-is_dbl, reader-read_int_name, int_literal-numeral,
}
use yaradec.Code.Compiled.Steps.{step-unary, step-binop, step-read, push_operand_ref}
use yaradec.Code.Compiled.Sets.{names_onto, recover_of_names}

pub instrs-append :
    (xs ys : List Code) (off : ℕ)
    → instrs off (xs ++ ys) ≡ instrs off xs ++ instrs (off + length (write_all xs)) ys
instrs-append [] ys off = let e : off + 0 ≡ off = omega arith in rw e refl
instrs-append (x ∷ xs) ys off =
    let e : off + length (write x) + length (write_all xs)
        ≡ off + length (write x ++ write_all xs) =
      omega (arith, length-append (write x) (write_all xs)) in
    rw (instrs-append xs ys (off + length (write x)), e) refl

module _ (c : Context) where
  -- The steps of `cs` put `item` onto the stack, wherever `cs` stands and whatever follows.
  abbrev pub Pushes : List Code → Item → Type 0
  Pushes cs item =
      (off : ℕ) (rest : List Instr) (m : Machine)
      → steps c [] (instrs off cs ++ rest) m ≡ steps c [] rest (record m { stack = item ∷ m.stack })

  abbrev pub shown : Cond → Item
  shown e = value (expr (show c e) (prec_of c e))

  -- Two pieces of bytecode run one after the other.
  steps-append :
      (xs ys : List Code) (off : ℕ) (rest : List Instr) (m : Machine)
      → steps c [] (instrs off (xs ++ ys) ++ rest) m
        ≡ steps c [] (instrs off xs ++ (instrs (off + length (write_all xs)) ys ++ rest)) m
  steps-append xs ys off rest m =
      ap (λ is. steps c [] is m)
        (rw (instrs-append xs ys off)
          (append_assoc (instrs off xs) (instrs (off + length (write_all xs)) ys) rest))

  -- An operand, then what is done with it.
  pub steps-Pushes :
      (xs ys : List Code) (item : Item) (off : ℕ) (rest : List Instr) (m : Machine)
      → Pushes xs item
      → steps c [] (instrs off (xs ++ ys) ++ rest) m
        ≡ steps c []
            (instrs (off + length (write_all xs)) ys ++ rest)
            (record m { stack = item ∷ m.stack })
  steps-Pushes xs ys item off rest m h =
      steps-append xs ys off rest m ∙ h off (instrs (off + length (write_all xs)) ys ++ rest) m

  steps-push_string :
      (i off : ℕ) (rest : List Instr) (m : Machine)
      → IsNamed c i
      → steps c [] (instr off (push_string i) ∷ rest) m
        ≡ steps c [] rest (record m { stack = value (atom (name_of c i)) ∷ m.stack })
  unfolding steps step
  steps-push_string i off rest m named = rw (push_operand_ref c i named) refl

  steps-push_strings :
      (is : List ℕ) (off : ℕ) (rest : List Instr) (m : Machine)
      → All (IsNamed c) is
      → steps c [] (instrs off (map push_string is) ++ rest) m
        ≡ steps c [] rest (record m { stack = names_onto c is m.stack })
  steps-push_strings [] off rest m named = refl
  steps-push_strings (i ∷ is) off rest m (here, named) =
      steps-push_string i off _ m here
      ∙ steps-push_strings is (off + length (write (push_string i))) rest
          (record m { stack = value (atom (name_of c i)) ∷ m.stack }) named

  number-Pushes :
      (byte word : Bool) (v : ℕ)
      → v < 2 ^ 32
      → Pushes (code (push_width byte word) (immediate v) ∷ []) (shown (number v))
  unfolding steps step
  number-Pushes true word v h off rest m = rw (int_literal-numeral v h) refl
  number-Pushes false true v h off rest m = rw (int_literal-numeral v h) refl
  number-Pushes false false v h off rest m = rw (int_literal-numeral v h) refl

  unary-Pushes :
      (op : Op) (s : Text) (e : Cond)
      → unary_symbol op ≡ some s
      → Pushes (compile e) (shown e)
      → Pushes (compile e ++ (code op nothing ∷ [])) (shown (unary_op op e))
  unfolding steps unary paren
  unary-Pushes op s e h p off rest m =
      steps-Pushes (compile e) (code op nothing ∷ []) (shown e) off rest m p
      ∙ rw (step-unary c [] (instr _ (code op nothing)) op s h) (rw h refl)

  read-Pushes :
      (op : Op) (name : Text) (e : Cond)
      → reader op ≡ some name
      → Pushes (compile e) (shown e)
      → Pushes (compile e ++ (code op nothing ∷ [])) (shown (read op e))
  unfolding steps read_int
  read-Pushes op name e h p off rest m =
      steps-Pushes (compile e) (code op nothing ∷ []) (shown e) off rest m p
      ∙ rw (step-read c [] (instr _ (code op nothing)) op name (reader-read_int_name op name h))
          (rw (reader-read_int_name op name h) (rw h refl))

  -- The jump over the right operand leaves the stack alone.
  steps-short_circuit :
      (op : Op) (n off : ℕ) (rest : List Instr) (m : Machine)
      → steps c [] (instrs off (short_circuit op n) ++ rest) m ≡ steps c [] rest m
  unfolding steps step
  steps-short_circuit Op.and n off rest m = refl
  steps-short_circuit Op.or n off rest m = refl
  steps-short_circuit _ n off rest m = refl

  operator_step :
      (op : Op) (row : Text × ℕ) (l r : Cond) (off : ℕ) (rest : List Instr) (m : Machine)
      → operator op ≡ some row
      → steps c []
          (instr off (code op nothing) ∷ rest)
          (record m { stack = shown r ∷ shown l ∷ m.stack })
        ≡ steps c [] rest (record m { stack = shown (binary_op op l r) ∷ m.stack })
  unfolding steps binary binary_expr paren
  operator_step op row l r off rest m h =
      let known : binop op ≡ some row = operator-binop op row h in
      let single : is_dbl op ≡ false = operator-is_dbl op row h in
      let p : prec_of c (binary_op op l r) ≡ row.1 = ap (λ o. (row_or_empty o).1) h in
      rw (step-binop c [] (instr off (code op nothing)) op row known)
        (rw known (rw single (rw p (rw h refl))))

  binary-Pushes :
      (op : Op) (row : Text × ℕ) (l r : Cond)
      → operator op ≡ some row
      → Pushes (compile l) (shown l)
      → Pushes (compile r) (shown r)
      → Pushes (compile (binary_op op l r)) (shown (binary_op op l r))
  binary-Pushes op row l r h pl pr off rest m =
      let jumps : List Code = short_circuit op (length (write_all (compile r))) in
      let at : ℕ = off + length (write_all (compile l)) in
      let m1 : Machine = record m { stack = shown l ∷ m.stack } in
      steps-Pushes (compile l) (jumps ++ (compile r ++ (code op nothing ∷ []))) (shown l) off rest m
        pl
      ∙ steps-append jumps (compile r ++ (code op nothing ∷ [])) at rest m1
      ∙ steps-short_circuit op (length (write_all (compile r))) at _ m1
      ∙ steps-Pushes (compile r) (code op nothing ∷ []) (shown r) _ rest m1 pr
      ∙ operator_step op row l r _ rest m h

  set_steps :
      (q : Cond) (item : Item) (is : List ℕ) (off : ℕ) (rest : List Instr) (m : Machine)
      → IsListing c is
      → steps c []
          (instrs off (map push_string is ++ (code Op.of (immediate 0) ∷ [])) ++ rest)
          (record m { stack = undefined ∷ item ∷ m.stack })
        ≡ steps c [] rest (record m {
          stack =
              value (expr (all_or (expr_of item).text ++ (codes " of " ++ set_text c is)) prec_cmp)
              ∷ m.stack;
        })
  unfolding steps step
  set_steps q item is off rest m listed =
      let m1 : Machine = record m { stack = undefined ∷ item ∷ m.stack } in
      steps-append (map push_string is) (code Op.of (immediate 0) ∷ []) off rest m1
      ∙ steps-push_strings is off _ m1 listed.0
      ∙ rw (recover_of_names c (instr _ (code Op.of (immediate 0))) is m item m.stack listed) refl

  pub compile-Pushes : (e : Cond) → Valid c e → Pushes (compile e) (shown e)
  unfolding steps step count found_at paren push_rule all_or
  compile-Pushes (number v) h off rest m = number-Pushes (ltb v 256) (ltb v 65536) v h off rest m
  compile-Pushes filesize h off rest m = refl
  compile-Pushes entrypoint h off rest m = refl
  compile-Pushes (str i) h off rest m = rw (push_operand_ref c i h) refl
  compile-Pushes (str_count i) h off rest m = rw (push_operand_ref c i h) refl
  compile-Pushes (str_at i e) (named, h) off rest m =
      steps-Pushes (compile e) (push_string i ∷ code Op.found_at nothing ∷ []) (shown e) off rest m
        (compile-Pushes e h)
      ∙ rw (push_operand_ref c i named) refl
  compile-Pushes (rule i) (name, h) off rest m = rw h refl
  compile-Pushes (unary_op op e) ((s, h), v) off rest m =
      unary-Pushes op s e h (compile-Pushes e v) off rest m
  compile-Pushes (binary_op op l r) ((row, h), vl, vr) off rest m =
      binary-Pushes op row l r h (compile-Pushes l vl) (compile-Pushes r vr) off rest m
  compile-Pushes (read op e) ((name, h), v) off rest m =
      read-Pushes op name e h (compile-Pushes e v) off rest m
  compile-Pushes (all_of is) h off rest m = set_steps filesize undefined is _ rest m h
  compile-Pushes (some_of q is) (plain, v, h) off rest m =
      steps-Pushes (compile q)
        (code Op.push_u nothing ∷ (map push_string is ++ (code Op.of (immediate 0) ∷ []))) (shown q)
        off rest m (compile-Pushes q v)
      ∙ set_steps q (shown q) is _ rest m h
      ∙ rw plain refl
