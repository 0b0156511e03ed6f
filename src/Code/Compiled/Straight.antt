-- ===== src/Code/Compiled/Straight.antt =====
-- `run` on instructions among which no loop begins: it is the steps one after the other.
use yaradec.Prelude.{
  length, ap, All, ltb, ◌∷◌, [], List, some, none, Option, false, ◌≡◌, refl, arith, suc, zero, ℕ,
}
use yaradec.Result.{Result, ok, err}
use yaradec.Code.Decode.{Instr}
use yaradec.Code.Bodies.{dict_get}
use yaradec.Code.Loops.{is_iter_start, op_at, loop_at, find_loops_from, find_loops}
use yaradec.Code.Condition.Monad.{Machine, Exec, pure, continue, ◌>>◌}
use yaradec.Code.Condition.Operands.{Context}
use yaradec.Code.Condition.Step.{Bindings, step}
use yaradec.Code.Condition.Run.{Nested, walk, fresh, conclude, run_with, run_level, run}

abbrev pub NoLoop : List Instr → Type 0
NoLoop instrs = All (λ ins. is_iter_start ins.op ≡ false) instrs

op_at-NoLoop :
    (instrs : List Instr) (i : ℕ) → NoLoop instrs → is_iter_start (op_at instrs i) ≡ false
op_at-NoLoop [] i h = refl
op_at-NoLoop (ins ∷ rest) zero (h, hs) = h
op_at-NoLoop (ins ∷ rest) (suc i) (h, hs) = op_at-NoLoop rest i hs

find_loops_from-NoLoop :
    (instrs : List Instr) (i remaining : ℕ)
    → NoLoop instrs
    → find_loops_from instrs i remaining [] ≡ ok []
unfolding find_loops_from loop_at
find_loops_from-NoLoop instrs i zero h = refl
find_loops_from-NoLoop instrs i (suc remaining) h =
    rw (op_at-NoLoop instrs i h) (find_loops_from-NoLoop instrs (suc i) remaining h)

module _ (c : Context) (b : Bindings) where
  unfoldable pub steps : List Instr → Exec Unit
  steps [] = pure tt
  steps (ins ∷ rest) = do step c b ins.op ins; steps rest

  continue_cong :
      (r : Result (Option (Unit {0}) × Machine)) (f g : Unit {0} → Exec Unit)
      → ((m : Machine) → f tt m ≡ g tt m)
      → continue r f ≡ continue r g
  continue_cong (err e) f g h = refl
  continue_cong (ok (none, m)) f g h = refl
  continue_cong (ok (some tt, m)) f g h = h m

  walk_lem :
      (go : Nested) (instrs rest : List Instr) (p : ℕ) (m : Machine)
      → walk c go b instrs [] rest p 0 m ≡ steps rest m
  unfolding walk dict_get steps
  walk_lem go instrs [] p m = refl
  walk_lem go instrs (ins ∷ rest) p m =
      let here : ltb p 0 ≡ false = ground arith in
      rw here (
        continue_cong (step c b ins.op ins m) (λ _. walk c go b instrs [] rest (suc p) 0)
          (λ _. steps rest) (λ n. walk_lem go instrs rest (suc p) n))

pub run-NoLoop :
    (c : Context) (instrs : List Instr)
    → NoLoop instrs
    → run c instrs ≡ conclude false (steps c [] instrs fresh)
unfolding run run_level run_with find_loops
run-NoLoop c instrs h =
    rw (find_loops_from-NoLoop instrs 0 (length instrs) h)
      (ap (conclude false) (walk_lem c [] (some _) instrs instrs 0 fresh))
