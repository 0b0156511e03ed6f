-- ===== src/Decompile/Recovery.antt =====
-- From the bytes of the code section to the rules with their conditions.
use yaradec.Bytes.{Bytes}
use yaradec.Prelude.Int.{ℤ}
use yaradec.Prelude.{
  length-append, length, ◌∙◌, ap, ◌<◌, All-append, All, map, ◌++◌, ◌∷◌, [], List, some, none,
  Option, false, true, Bool, refl, ◌≡◌, ℕ, arith,
}
use mathlib.Core.List.{append_assoc}
use mathlib.Core.Path.{subst}
use yaradec.Emit.Rules.{Listings}
use yaradec.Emit.Warnings.{Warning}
use yaradec.Prelude.Text.{Text}
use yaradec.Result.{Result, ok, map_ok, ◌>>=◌}
use yaradec.Arena.{Arena}
use yaradec.Constants.Op.{Op}
use yaradec.Code.Decode.{Instr, disassemble}
use yaradec.Code.Writer.{Code, write, write_all, instrs, halt, Fits, op-instr}
use yaradec.Code.Bodies.{dict_get, split_rule_bodies}
use yaradec.Code.Blocks.{New, stream, entry}
use yaradec.Code.Condition.Operands.{Context}
use yaradec.Code.Condition.Run.{run}
use yaradec.Code.Compiled.{Cond, compile, show, Valid}
use yaradec.Code.Compiled.Steps.{is_special}
use yaradec.Code.Compiled.Correct.{Plain, compile-Plain, run-compile}
use yaradec.Code.Compiled.Program.{
  RuleCode, program, blocks, ArePlain, ending, disassemble-program, split_rule_bodies-program,
}
use yaradec.Parser.Structs.{Rule, CompiledRules}
use yaradec.Decompile.Patterns.{Runtime}
use yaradec.Decompile.Pipeline.{
  import_ref, imports_loop, recover_imports, string_names_of, rule_names_of, Conditions,
  conditions_loop, rule_context, recover_conditions,
}

-- A rule of the tables, its condition, and how far its INIT_RULE jumps.
pub record Source : Type 0 where
  pub rule : Rule
  pub condition : Cond
  pub skip : ℤ

abbrev pub rule_code : Source → RuleCode
rule_code s = record { index = s.rule.index; skip = s.skip; condition = s.condition }

abbrev pub codes_of : List Source → List RuleCode
codes_of ss = map rule_code ss

-- An IMPORT is the only instruction that asks for a module.
abbrev is_import : Op → Bool
is_import Op.import = true
is_import _ = false

import_ref_other : (op : Op) (v : Option ℕ) → is_import op ≡ false → import_ref op v ≡ none
import_ref_other Op.import v h = cc
import_ref_other _ v h = refl

imports_loop_none :
    (a : Arena) (out : List Text) (is : List Instr)
    → All (λ ins. is_import ins.op ≡ false) is
    → imports_loop a out is ≡ ok out
unfolding imports_loop
imports_loop_none a out [] h = refl
imports_loop_none a out (ins ∷ is) (h, hs) =
    rw (import_ref_other ins.op ins.operand h) (imports_loop_none a out is hs)

special-import : (op : Op) → is_special op ≡ false → is_import op ≡ false
special-import Op.import h = cc
special-import _ h = refl

abbrev NoImport : List Instr → Type 0
NoImport is = All (λ ins. is_import ins.op ≡ false) is

instrs-NoImport : (cs : List Code) (off : ℕ) → All Plain cs → NoImport (instrs off cs)
instrs-NoImport [] off h = tt
instrs-NoImport (x ∷ cs) off (h, hs) =
    (rw (op-instr off x) (special-import x.op h), instrs-NoImport cs _ hs)

stream-NoImport :
    (rs : List RuleCode) (off : ℕ) (after : List Instr)
    → ArePlain rs
    → NoImport after
    → NoImport (stream (blocks off rs) after)
stream-NoImport [] off after plain h = h
stream-NoImport (r ∷ rs) off after (plain, more) h = (
  refl,
  All-append (λ ins. is_import ins.op ≡ false) (instrs _ (compile r.condition)) _
      (instrs-NoImport (compile r.condition) _ plain) (refl, stream-NoImport rs _ after more h),
)

-- The bodies hold the instructions of a rule's condition, wherever these begin.
abbrev Listed : List (ℕ × List Instr) → Source → Type 0
Listed bodies s =
    (start : ℕ) × (dict_get bodies s.rule.index ≡ some (instrs start (compile s.condition)))

dict_get-append :
    (found rest : List (ℕ × List Instr)) (k : ℕ) (body : List Instr)
    → dict_get found k ≡ none
    → dict_get (found ++ ((k, body) ∷ rest)) k ≡ some body
unfolding dict_get
dict_get-append [] rest k body h = ground arith
dict_get-append ((j, other) ∷ found) rest k body h =
    ground (arith, dict_get-append found rest k body)

blocks-Listed :
    (ss : List Source) (off : ℕ) (found : List (ℕ × List Instr))
    → New found (blocks off (codes_of ss))
    → All (Listed (found ++ map entry (blocks off (codes_of ss)))) ss
blocks-Listed [] off found new = tt
blocks-Listed (s ∷ ss) off found (new, news) = (
  (_, dict_get-append found _ s.rule.index _ new),
  subst (λ bodies. All (Listed bodies) ss) (append_assoc found _ _) (blocks-Listed ss _ _ news),
)

-- A rule with the text of its condition.
abbrev pub with_condition : (Rule → Context) → Source → Rule
with_condition context s = record s.rule { condition = some (show (context s.rule) s.condition) }

abbrev pub AreValid : (Rule → Context) → List Source → Type 0
AreValid context ss = All (λ s. Valid (context s.rule) s.condition) ss

Valid-ArePlain :
    (context : Rule → Context) (ss : List Source) → AreValid context ss → ArePlain (codes_of ss)
Valid-ArePlain context [] v = tt
Valid-ArePlain context (s ∷ ss) (v, vs) =
    (compile-Plain (context s.rule) s.condition v, Valid-ArePlain context ss vs)

conditions_loop-Listed :
    (context : Rule → Context) (bodies : List (ℕ × List Instr)) (ss : List Source)
    → AreValid context ss
    → All (Listed bodies) ss
    → conditions_loop (λ r body. run (context r) body) bodies (map (λ (s : Source). s.rule) ss)
      ≡ ok (record { rules = map (with_condition context) ss; listings = []; warnings = [] })
unfolding conditions_loop
conditions_loop-Listed context bodies [] v h = refl
conditions_loop-Listed context bodies (s ∷ ss) (v, vs) ((start, found), h) = rw found (
    rw (run-compile (context s.rule) s.condition start v)
      (rw (conditions_loop-Listed context bodies ss vs h) refl))

-- What the names and the strings of the tables give the recovery of a rule.
abbrev pub context_of : Runtime → CompiledRules → Rule → Context
context_of rt compiled r =
    rule_context rt compiled.arena (string_names_of [] compiled.strings)
      (rule_names_of [] compiled.rules) r

module _ (rt : Runtime) (compiled : CompiledRules) where
  abbrev with_rules : List Text → Conditions → CompiledRules × Listings × List Warning
  with_rules imports c =
      (record compiled { imports = imports; rules = c.rules }, c.listings, c.warnings)

  abbrev recover_rules : List (ℕ × List Instr) → List Rule → Result Conditions
  recover_rules bodies rules =
      conditions_loop (λ r body. run (context_of rt compiled r) body) bodies rules

  abbrev recover_instrs : List Instr → Result (CompiledRules × Listings × List Warning)
  recover_instrs is = recover_imports is compiled.arena >>= λ imports.
      map_ok (with_rules imports) (recover_rules (split_rule_bodies is) compiled.rules)

  recover_conditions_nonempty :
      (code : Bytes)
      → 0 < length code
      → recover_conditions rt compiled code ≡ (disassemble code >>= recover_instrs)
  recover_conditions_nonempty [] h = absurd (omega arith)
  recover_conditions_nonempty (b ∷ bs) h = refl

  -- The code section of the tables' rules, which have distinct indices, each with a condition as for
  -- `run-compile` in the names of the tables, then HALT and anything, gives every rule the source text
  -- of its condition; nothing is imported, listed or warned of. The arguments of all instructions fit
  -- their fields.
  pub recover_conditions-write :
      (ss : List Source) (rest : Bytes)
      → compiled.rules ≡ map (λ (s : Source). s.rule) ss
      → AreValid (context_of rt compiled) ss
      → New [] (blocks 0 (codes_of ss))
      → All Fits (program (codes_of ss))
      → recover_conditions rt compiled (write_all (program (codes_of ss)) ++ (write halt ++ rest))
        ≡ ok (
          record compiled {
            imports = [];
            rules = map (with_condition (context_of rt compiled)) ss;
          },
          [],
          [],
        )
  unfolding recover_imports
  recover_conditions-write ss rest tables v new fits =
      let rs : List RuleCode = codes_of ss in
      let code : Bytes = write_all (program rs) ++ (write halt ++ rest) in
      let is : List Instr = stream (blocks 0 rs) (ending rs ∷ []) in
      let plain : ArePlain rs = Valid-ArePlain (context_of rt compiled) ss v in
      let bodies : List (ℕ × List Instr) = map entry (blocks 0 rs) in
      recover_conditions_nonempty code
        (omega (arith, length-append (write_all (program rs)) (write halt ++ rest)))
      ∙ ap (λ r. r >>= recover_instrs) (disassemble-program rs rest plain fits)
      ∙ ap
          (λ r. r >>= λ imports.
            map_ok (with_rules imports) (recover_rules (split_rule_bodies is) compiled.rules))
          (imports_loop_none compiled.arena [] is
            (stream-NoImport rs 0 (ending rs ∷ []) plain (refl, tt)))
      ∙ ap (λ b. map_ok (with_rules []) (recover_rules b compiled.rules))
          (split_rule_bodies-program rs plain new)
      ∙ ap (λ rules. map_ok (with_rules []) (recover_rules bodies rules)) tables
      ∙ ap (map_ok (with_rules []))
          (conditions_loop-Listed (context_of rt compiled) bodies ss v (blocks-Listed ss 0 [] new))
