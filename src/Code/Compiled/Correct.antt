-- ===== src/Code/Compiled/Correct.antt =====
-- The recovery of conditions and their description: from instructions, and from bytes.
use yaradec.Bytes.{Bytes}
use mathlib.Core.List.{append-nil}
use yaradec.Prelude.{
  length, All, All-append, map, ◌++◌, ◌∷◌, [], List, some, false, true, ◌≡◌, refl, sym, ◌∙◌, ap,
  ltb, Bool, ℕ,
}
use yaradec.Prelude.Text.{Text}
use yaradec.Result.{ok, ◌>>=◌}
use yaradec.Constants.Op.{Op}
use yaradec.Code.Decode.{Instr, disassemble, is_halt}
use yaradec.Code.Writer.{
  Code, immediate, write, write_all, instr, instrs, halt, Fits, op-instr, disassemble-write,
}
use yaradec.Code.Loops.{is_iter_start}
use yaradec.Code.Condition.Operands.{Context}
use yaradec.Code.Condition.Step.{step}
use yaradec.Code.Condition.Run.{Outcome, run, fresh, finish, exprs, conclude}
use yaradec.Code.Compiled.{
  Cond, compile, code, show, Valid, push_string, push_width, short_circuit, number, filesize,
  entrypoint, str, str_count, str_at, rule, unary_op, binary_op, read, all_of, some_of,
}
use yaradec.Code.Compiled.Straight.{NoLoop, steps, run-NoLoop}
use yaradec.Code.Compiled.Steps.{
  is_special, special-iter_start, special-halt, special-unary, special-binop, special-read,
}
use yaradec.Code.Operators.{operator-binop, reader-read_int_name}
use yaradec.Code.Compiled.Recovery.{compile-Pushes}

abbrev pub Plain : Code → Type 0
Plain x = is_special x.op ≡ false

instrs-NoLoop : (cs : List Code) (off : ℕ) → All Plain cs → NoLoop (instrs off cs)
instrs-NoLoop [] off h = tt
instrs-NoLoop (x ∷ cs) off (h, hs) =
    (rw (op-instr off x) (special-iter_start x.op h), instrs-NoLoop cs _ hs)

pub Fits-Plain :
    (cs : List Code) → All Fits cs → All Plain cs → All (λ x. Fits x × (is_halt x.op ≡ false)) cs
Fits-Plain [] h k = tt
Fits-Plain (x ∷ cs) (h, hs) (k, ks) = ((h, special-halt x.op k), Fits-Plain cs hs ks)

strings-Plain : (is : List ℕ) → All Plain (map push_string is)
strings-Plain [] = tt
strings-Plain (i ∷ is) = (refl, strings-Plain is)

number-Plain : (byte word : Bool) → is_special (push_width byte word) ≡ false
number-Plain true word = refl
number-Plain false true = refl
number-Plain false false = refl

short_circuit-Plain : (op : Op) (n : ℕ) → All Plain (short_circuit op n)
short_circuit-Plain Op.and n = (refl, tt)
short_circuit-Plain Op.or n = (refl, tt)
short_circuit-Plain _ n = tt

set-Plain : (is : List ℕ) → All Plain (map push_string is ++ (code Op.of (immediate 0) ∷ []))
set-Plain is =
    All-append Plain (map push_string is) (code Op.of (immediate 0) ∷ []) (strings-Plain is)
      (refl, tt)

module _ (c : Context) where
  pub compile-Plain : (e : Cond) → Valid c e → All Plain (compile e)
  compile-Plain (number v) h = (number-Plain (ltb v 256) (ltb v 65536), tt)
  compile-Plain filesize h = (refl, tt)
  compile-Plain entrypoint h = (refl, tt)
  compile-Plain (str i) h = (refl, (refl, tt))
  compile-Plain (str_count i) h = (refl, (refl, tt))
  compile-Plain (str_at i e) (named, h) =
      All-append Plain (compile e) _ (compile-Plain e h) (refl, (refl, tt))
  compile-Plain (rule i) h = (refl, tt)
  compile-Plain (unary_op op e) ((s, h), v) =
      All-append Plain (compile e) _ (compile-Plain e v) (special-unary op s h, tt)
  compile-Plain (binary_op op l r) ((row, h), vl, vr) =
      All-append Plain (compile l) _ (compile-Plain l vl) (
        All-append Plain (short_circuit op _) _ (short_circuit-Plain op _) (
          All-append Plain (compile r) _ (compile-Plain r vr)
            (special-binop op row (operator-binop op row h), tt)))
  compile-Plain (read op e) ((name, h), v) =
      All-append Plain (compile e) _ (compile-Plain e v)
        (special-read op name (reader-read_int_name op name h), tt)
  compile-Plain (all_of is) h = (refl, (refl, set-Plain is))
  compile-Plain (some_of q is) (plain, v, h) =
      All-append Plain (compile q) _ (compile-Plain q v) (refl, set-Plain is)

  -- The outcome of a recovery that went without a note.
  abbrev pub recovered : Text → Outcome
  recovered text = record { result = some text; notes = []; final = some (text ∷ []) }

  -- The instructions of a condition are recovered as exactly its source text, with nothing noted,
  -- wherever they stand. The condition is made of numbers below 2 ^ 32, the file size, the entry
  -- point, the presence of strings, anywhere or at an offset, their counts, other rules, reads of
  -- integers, the unary operators, the binary operators on integers, texts and conditions, and "all
  -- of" and "n of" a set of strings; its strings and rules are among those of the file, the strings
  -- numbered below 2 ^ 20; a set has fewer than 65536 strings, and is either all strings of the rule
  -- or without anonymous ones; and the quantifier of a set is not written `undefined`.
  pub run-compile :
      (e : Cond) (off : ℕ) → Valid c e → run c (instrs off (compile e)) ≡ ok (recovered (show c e))
  unfolding steps finish exprs
  run-compile e off v =
      run-NoLoop c (instrs off (compile e)) (instrs-NoLoop (compile e) off (compile-Plain e v))
      ∙ ap (λ is. conclude false (steps c [] is fresh)) (sym (append-nil (instrs off (compile e))))
      ∙ ap (conclude false) (compile-Pushes c e v off [] fresh)

  -- The bytes of such a condition, followed by HALT and anything, are disassembled and recovered as
  -- exactly its source text, with nothing noted, where every argument of its bytecode fits its field.
  pub run-disassemble-write :
      (e : Cond) (rest : Bytes)
      → Valid c e
      → All Fits (compile e)
      → (disassemble (write_all (compile e) ++ (write halt ++ rest)) >>= λ is. run c is)
        ≡ ok (recovered (show c e))
  unfolding steps finish exprs step
  run-disassemble-write e rest v fits =
      let closing : List Instr = instr (length (write_all (compile e))) halt ∷ [] in
      let calm : NoLoop (instrs 0 (compile e) ++ closing) =
        All-append (λ ins. is_iter_start ins.op ≡ false) (instrs 0 (compile e)) closing
          (instrs-NoLoop (compile e) 0 (compile-Plain e v)) (refl, tt) in
      ap (λ r. r >>= λ is. run c is)
        (disassemble-write (compile e) rest (Fits-Plain (compile e) fits (compile-Plain e v)))
      ∙ run-NoLoop c (instrs 0 (compile e) ++ closing) calm
      ∙ ap (conclude false) (compile-Pushes c e v 0 closing fresh)
