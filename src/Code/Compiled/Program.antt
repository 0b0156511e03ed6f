-- ===== src/Code/Compiled/Program.antt =====
-- A whole code section: the rules' conditions from the bytes that YARA's compiler makes of them.
use mathlib.Core.List.{append_assoc}
use yaradec.Prelude.{
  All, All-append, length, map, ◌++◌, ◌∷◌, [], List, false, ◌≡◌, refl, ◌∙◌, ap, ◌+◌, ℕ,
}
use yaradec.Prelude.Int.{ℤ}
use yaradec.Result.{Result, ok, map_ok}
use yaradec.Bytes.{Bytes}
use yaradec.Constants.Op.{Op}
use yaradec.Code.Decode.{Instr, disassemble, is_halt}
use yaradec.Code.Writer.{
  Code, immediate, init_rule, write, write_all, instr, instrs, halt, Fits, op-instr,
  disassemble-write,
}
use yaradec.Code.Bodies.{split_rule_bodies}
use yaradec.Code.Blocks.{is_boundary, Block, IsBlock, New, stream, entry, split_rule_bodies-stream}
use yaradec.Code.Condition.Operands.{Context}
use yaradec.Code.Condition.Run.{Outcome, run}
use yaradec.Code.Compiled.{Cond, compile, code, show, Valid}
use yaradec.Code.Compiled.Steps.{special-boundary, special-halt}
use yaradec.Code.Compiled.Recovery.{instrs-append}
use yaradec.Code.Compiled.Correct.{Plain, compile-Plain, recovered, run-compile}

-- A rule's index, its condition, and how far INIT_RULE jumps when the rule is disabled.
pub record RuleCode : Type 0 where
  pub index : ℕ
  pub skip : ℤ
  pub condition : Cond

abbrev opening : RuleCode → Code
opening r = code Op.init_rule (init_rule r.skip r.index)

abbrev closing : RuleCode → Code
closing r = code Op.match_rule (immediate r.index)

abbrev pub program : List RuleCode → List Code
program [] = []
program (r ∷ rs) = opening r ∷ (compile r.condition ++ (closing r ∷ program rs))

-- The blocks of the section when the first rule stands at `off`.
abbrev pub blocks : ℕ → List RuleCode → List Block
blocks off [] = []
blocks off (r ∷ rs) =
    let start = off + length (write (opening r)) in
    let last = start + length (write_all (compile r.condition)) in
    record {
      index = r.index;
      opening = instr off (opening r);
      body = instrs start (compile r.condition);
      closing = instr last (closing r);
    }
    ∷ blocks (last + length (write (closing r))) rs

instrs-program :
    (rs : List RuleCode) (off : ℕ) (after : List Instr)
    → instrs off (program rs) ++ after ≡ stream (blocks off rs) after
instrs-program [] off after = refl
instrs-program (r ∷ rs) off after =
    let start : ℕ = off + length (write (opening r)) in
    let last : ℕ = start + length (write_all (compile r.condition)) in
    let next : ℕ = last + length (write (closing r)) in
    let body : List Instr = instrs start (compile r.condition) in
    ap (λ t. instr off (opening r) ∷ t)
      (ap (λ t. t ++ after) (instrs-append (compile r.condition) (closing r ∷ program rs) start)
        ∙ append_assoc body (instr last (closing r) ∷ instrs next (program rs)) after
        ∙ ap (λ t. body ++ (instr last (closing r) ∷ t)) (instrs-program rs next after))

boundary-instrs :
    (cs : List Code) (off : ℕ)
    → All Plain cs
    → All (λ ins. is_boundary ins.op ≡ false) (instrs off cs)
boundary-instrs [] off h = tt
boundary-instrs (x ∷ cs) off (h, hs) =
    (rw (op-instr off x) (special-boundary x.op h), boundary-instrs cs _ hs)

abbrev NotHalt : Code → Type 0
NotHalt x = is_halt x.op ≡ false

Plain-NotHalt : (cs : List Code) → All Plain cs → All NotHalt cs
Plain-NotHalt [] h = tt
Plain-NotHalt (x ∷ cs) (h, hs) = (special-halt x.op h, Plain-NotHalt cs hs)

both : (cs : List Code) → All Fits cs → All NotHalt cs → All (λ x. Fits x × NotHalt x) cs
both [] h k = tt
both (x ∷ cs) (h, hs) (k, ks) = ((h, k), both cs hs ks)

abbrev pub ArePlain : List RuleCode → Type 0
ArePlain rs = All (λ r. All Plain (compile r.condition)) rs

blocks-AreBlocks : (rs : List RuleCode) (off : ℕ) → ArePlain rs → All IsBlock (blocks off rs)
blocks-AreBlocks [] off h = tt
blocks-AreBlocks (r ∷ rs) off (h, hs) =
    ((refl, refl, boundary-instrs (compile r.condition) _ h, refl), blocks-AreBlocks rs _ hs)

not_halting : (rs : List RuleCode) → ArePlain rs → All NotHalt (program rs)
not_halting [] h = tt
not_halting (r ∷ rs) (h, hs) = (
  refl,
  All-append NotHalt (compile r.condition) (closing r ∷ program rs)
      (Plain-NotHalt (compile r.condition) h) (refl, not_halting rs hs),
)

-- The instruction behind the rules.
abbrev pub ending : List RuleCode → Instr
ending rs = instr (length (write_all (program rs))) halt

pub disassemble-program :
    (rs : List RuleCode) (rest : Bytes)
    → ArePlain rs
    → All Fits (program rs)
    → disassemble (write_all (program rs) ++ (write halt ++ rest))
      ≡ ok (stream (blocks 0 rs) (ending rs ∷ []))
disassemble-program rs rest plain fits =
    disassemble-write (program rs) rest (both (program rs) fits (not_halting rs plain))
    ∙ ap ok (instrs-program rs 0 (ending rs ∷ []))

pub split_rule_bodies-program :
    (rs : List RuleCode)
    → ArePlain rs
    → New [] (blocks 0 rs)
    → split_rule_bodies (stream (blocks 0 rs) (ending rs ∷ [])) ≡ map entry (blocks 0 rs)
split_rule_bodies-program rs plain new =
    split_rule_bodies-stream (blocks 0 rs) (ending rs) [] (blocks-AreBlocks rs 0 plain) new refl

module _ (c : Context) where
  abbrev AllValid : List RuleCode → Type 0
  AllValid rs = All (λ r. Valid c r.condition) rs

  Valid-Plain : (rs : List RuleCode) → AllValid rs → ArePlain rs
  Valid-Plain [] v = tt
  Valid-Plain (r ∷ rs) (v, vs) = (compile-Plain c r.condition v, Valid-Plain rs vs)

  -- What becomes of a code section: every rule's index with the outcome of its recovery.
  abbrev pub recover_all : List (ℕ × List Instr) → List (ℕ × Result Outcome)
  recover_all bodies = map (λ (b : ℕ × List Instr). (b.0, run c b.1)) bodies

  recover_all-blocks :
      (rs : List RuleCode) (off : ℕ)
      → AllValid rs
      → recover_all (map entry (blocks off rs))
        ≡ map (λ (r : RuleCode). (r.index, ok (recovered c (show c r.condition)))) rs
  recover_all-blocks [] off v = refl
  recover_all-blocks (r ∷ rs) off (v, vs) =
      rw (run-compile c r.condition _ v, recover_all-blocks rs _ vs) refl

  -- A code section of rules with distinct indices, each a condition as for `run-compile`, then HALT
  -- and anything, is disassembled, cut into bodies and recovered as every rule's source text, in the
  -- rules' order and with nothing noted, where the arguments of all instructions fit their fields.
  pub recover_section-write :
      (rs : List RuleCode) (rest : Bytes)
      → AllValid rs
      → New [] (blocks 0 rs)
      → All Fits (program rs)
      → map_ok
          (λ is. recover_all (split_rule_bodies is))
          (disassemble (write_all (program rs) ++ (write halt ++ rest)))
        ≡ ok (map (λ (r : RuleCode). (r.index, ok (recovered c (show c r.condition)))) rs)
  recover_section-write rs rest v new fits =
      ap (map_ok (λ is. recover_all (split_rule_bodies is)))
        (disassemble-program rs rest (Valid-Plain rs v) fits)
      ∙ ap (λ bodies. ok (recover_all bodies)) (split_rule_bodies-program rs (Valid-Plain rs v) new)
      ∙ ap ok (recover_all-blocks rs 0 v)
