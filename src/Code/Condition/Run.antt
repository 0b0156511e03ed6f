-- ===== src/Code/Condition/Run.antt =====
-- `run`, `run_multi`, `_sub_run` and `_recover_loop`. A nested run is one level further down;
-- `level` is what is left of the depth that `_sub_run` allows.
use yaradec.Prelude.{
  zero, all, any, drop, take, length, if◌then◌else◌, ◌==◌, leb, ltb, map, ◌++◌, ◌∷◌, [], List, some,
  none, Option, ◌&&◌, false, true, Bool, ◌*◌, ◌-◌, ◌+◌, suc, ℕ,
}
use mathlib.Core.List.{reverse}
use yaradec.Prelude.Text.{Text, codes, text_eq, join, show_dec}
use yaradec.Result.{Result, ok, err}
use yaradec.Constants.Op.{Op}
use yaradec.Code.Decode.{Instr}
use yaradec.Code.Bodies.{dict_get, dict_set}
use yaradec.Code.Expr.{Expr, expr, prec_cmp}
use yaradec.Code.Loops.{LoopShape, Loops, find_loops}
use yaradec.Code.Condition.Monad.{
  Note, bad_string_set, bad_loop_body, bad_iterable, partial_loop_set, cardinality_mismatch,
  too_deep, value_count, Item, value, undefined, Machine, Exec, pure, give_up, note, push, pop,
  ◌>>=◌, ◌>>◌,
}
use yaradec.Code.Condition.Operands.{Context}
use yaradec.Code.Condition.Sets.{covers_rule, has_anonymous, all_or, comma}
use yaradec.Code.Condition.Step.{Bindings, step}

-- What a run leaves: its result, its notes, and `_final_stack`.
pub record Outcome : Type 0 where
  pub result : Option Text
  pub notes : List Note
  pub final : Option (List Text)

-- A nested `run` (or, with `true`, `run_multi`); `none` where the nesting is too deep.
abbrev pub Nested : Type 0
Nested = Option (Bindings → Bool → List Instr → Result Outcome)

abbrev is_string_set : Op → Bool
is_string_set Op.iter_start_string_set = true
is_string_set Op.iter_start_text_string_set = true
is_string_set _ = false

abbrev is_int_range : Op → Bool
is_int_range Op.iter_start_int_range = true
is_int_range _ = false

-- `instrs[lo:hi]`
abbrev span : List Instr → ℕ → ℕ → List Instr
span instrs lo hi = take (hi - lo) (drop lo instrs)

abbrev keep_notes : {A : Type 0} → (Outcome → Option A) → Result Outcome → Exec (Option A)
keep_notes f (err e) m = err e
keep_notes f (ok o) m = ok (some (f o), record m { notes = m.notes ++ o.notes })

abbrev nested :
    {A : Type 0} → Nested → Bindings → Bool → List Instr → (Outcome → Option A) → Exec (Option A)
nested none b multi sub f = do note too_deep; pure none
nested (some go) b multi sub f = keep_notes f (go b multi sub)

-- The two bounds of an integer range.
abbrev pair_text : Option (List Text) → Option Text
pair_text (some (lo ∷ hi ∷ [])) = some (b'(' ∷ (lo ++ (codes ".." ++ (hi ++ codes ")"))))
pair_text _ = none

-- `_sub_run`
unfoldable pub sub_run : Nested → Bindings → List Instr → Bool → Exec (Option Text)
sub_run go b sub join_pairs =
    if join_pairs
    then nested go b true sub (λ o. pair_text o.final)
    else nested go b false sub (λ o. o.result)

-- `str.isdigit` and `int` of the texts that the recovery makes, which are ASCII where they begin
-- with a digit.
abbrev is_digit_text : Text → Bool
is_digit_text [] = false
is_digit_text (ch ∷ t) = all (λ d. leb b'0' d && leb d b'9') (ch ∷ t)

parse_dec : ℕ → Text → ℕ
parse_dec acc [] = acc
parse_dec acc (d ∷ t) = parse_dec (acc * 10 + (d - b'0')) t

abbrev last_of : Text → List Text → Text
last_of t [] = t
last_of t (u ∷ us) = last_of u us

abbrev all_but_last : List Text → List Text
all_but_last [] = []
all_but_last (t ∷ []) = []
all_but_last (t ∷ u ∷ us) = t ∷ all_but_last (u ∷ us)

-- The members less the cardinality behind them, where it is theirs.
unfoldable pub strip_count : List Text → Exec (List Text)
unfolding parse_dec
strip_count (t ∷ u ∷ us) =
    let members = t ∷ u ∷ us in
    let final = last_of u us in
    if is_digit_text final
    then (if parse_dec 0 final == length members - 1
        then pure (all_but_last members)
        else (do note (cardinality_mismatch final (length members - 1)); pure members))
    else pure members
strip_count members = pure members

abbrev set_iterable : Context → Option (List Text) → Exec Text
set_iterable c none = do note bad_string_set; give_up
set_iterable c (some found) = do
  members ← strip_count found
  if covers_rule c members
      then pure (codes "them")
      else if has_anonymous members
      then (do note partial_loop_set; give_up)
      else pure (b'(' ∷ (join comma members ++ codes ")"))

abbrev or_bad_iterable : Option Text → Exec Text
or_bad_iterable none = do note bad_iterable; give_up
or_bad_iterable (some t) = pure t

unfoldable pub iterable : Context → Nested → Bindings → List Instr → LoopShape → Exec Text
iterable c go b instrs loop =
    if is_string_set loop.kind
    then (do
      members ← nested go b true (span instrs loop.iter_lo loop.iter_start) (λ o. o.final)
      set_iterable c members)
    else (do
      text ← sub_run go b (span instrs loop.iter_lo loop.iter_start) (is_int_range loop.kind)
      or_bad_iterable text)

abbrev var_names : List Text
var_names = codes "i" ∷ codes "j" ∷ codes "k" ∷ codes "n" ∷ codes "m" ∷ []

abbrev obj_var_names : List Text
obj_var_names = codes "item" ∷ codes "elem" ∷ codes "entry" ∷ codes "value" ∷ []

abbrev uses_int : Op → Bool
uses_int Op.iter_start_int_range = true
uses_int Op.iter_start_int_enum = true
uses_int _ = false

-- `next((v for v in pool if v not in used), default)`
unfoldable pub first_unused : List Text → List Text → Text → Text
first_unused [] used default = default
first_unused (v ∷ pool) used default =
    if any (λ u. text_eq u v) used then first_unused pool used default else v

abbrev slot_of : LoopShape → ℕ
slot_of loop = elim loop.var_slot [ some v ↦ v | none ↦ 0 ]

unfoldable pub loop_variable : Bindings → LoopShape → Text
loop_variable b loop =
    if is_string_set loop.kind
    then codes "$"
    else first_unused (if uses_int loop.kind then var_names else obj_var_names)
        (map (λ (p : ℕ × Text). p.1) b) (b'v' ∷ show_dec (slot_of loop))

abbrev loop_head : Op → Text → Text → Text → Text
loop_head kind quantifier var iter =
    if is_string_set kind
    then codes "for " ++ (quantifier ++ (codes " of " ++ iter))
    else codes "for " ++ (quantifier ++ (b' ' ∷ (var ++ (codes " in " ++ iter))))

abbrev loop_expr : Text → Option Text → Exec Expr
loop_expr head none = do note bad_loop_body; give_up
loop_expr head (some body) = pure (expr (head ++ (codes " : ( " ++ (body ++ codes " )"))) prec_cmp)

unfoldable pub recover_loop : Context → Nested → Bindings → List Instr → LoopShape → Exec Expr
recover_loop c go b instrs loop = do
  q ← pop
  iter ← iterable c go b instrs loop
  let var = loop_variable b loop
  body ← sub_run go (dict_set b (slot_of loop) var) (span instrs loop.body_lo loop.body_hi) false
  loop_expr (loop_head loop.kind (all_or q.text) var iter) body

abbrev shape_at : Loops → ℕ → Option LoopShape
shape_at loops p = dict_get loops p

-- One position of `run`: its instruction, or the loop that begins there.
abbrev pub walk_one :
    Context
    → Nested
    → Bindings
    → List Instr
    → Instr
    → ℕ
    → Option LoopShape
    → (ℕ → Exec Unit)
    → Exec Unit
walk_one c go b instrs ins skip none after = do step c b ins.op ins; after skip
walk_one c go b instrs ins skip (some loop) after = do
  e ← recover_loop c go b instrs loop
  push (value e)
  after (loop.stop + 1)

-- The loop over `enumerate(instrs)`, from position `p` on; a recovered loop is skipped whole.
unfoldable pub walk :
    Context → Nested → Bindings → List Instr → Loops → List Instr → ℕ → ℕ → Exec Unit
walk c go b instrs loops [] p skip = pure tt
walk c go b instrs loops (ins ∷ rest) p skip =
    let after = λ (next : ℕ). walk c go b instrs loops rest (suc p) next in
    if ltb p skip then after skip else walk_one c go b instrs ins skip (dict_get loops p) after

-- `[v for v in stack if isinstance(v, Expr)]`, the top first.
unfoldable pub exprs : List Item → List Expr
exprs [] = []
exprs (value e ∷ rest) = e ∷ exprs rest
exprs (undefined ∷ rest) = exprs rest

abbrev pub outcome : Option Text → List Note → List Expr → Outcome
outcome result notes results = record {
  result = result;
  notes = notes;
  final = some (reverse (map (λ (e : Expr). e.text) results));
}

-- The end of `run`, with the results' last one first.
unfoldable pub finish : Bool → Bool → List Note → List Expr → Outcome
finish multi false notes results = outcome none notes results
finish true true notes [] = outcome none notes []
finish true true notes (e ∷ rest) = outcome (some e.text) notes (e ∷ rest)
finish false true notes (e ∷ []) = outcome (some e.text) notes (e ∷ [])
finish false true notes results =
    outcome none (notes ++ (value_count (length results) ∷ [])) results

abbrev pub conclude : Bool → Result (Option (Unit {0}) × Machine) → Result Outcome
conclude multi (err e) = err e
conclude multi (ok (none, m)) = ok (record { result = none; notes = m.notes; final = none })
conclude multi (ok (some u, m)) = ok (finish multi m.complete m.notes (exprs m.stack))

abbrev pub fresh : Machine
fresh = record { stack = []; complete = true; notes = [] }

abbrev pub run_loops :
    Context → Nested → Bindings → Bool → List Instr → Result Loops → Result Outcome
run_loops c go b multi instrs (err e) = err e
run_loops c go b multi instrs (ok loops) =
    conclude multi (walk c go b instrs loops instrs 0 0 fresh)

-- `run`, or `run_multi` with `multi`.
unfoldable pub run_with : Context → Nested → Bindings → Bool → List Instr → Result Outcome
run_with c go b multi instrs = run_loops c go b multi instrs (find_loops instrs)

unfoldable pub run_level : Context → ℕ → Bindings → Bool → List Instr → Result Outcome
run_level c zero b multi instrs = run_with c none b multi instrs
run_level c (suc level) b multi instrs =
    run_with c (some (λ b' multi' sub. run_level c level b' multi' sub)) b multi instrs

-- `_sub_run` refuses at a depth above 8, and the outermost run is at depth 0.
abbrev pub max_level : ℕ
max_level = 9

-- `ConditionRecovery(…).run(instrs)`
unfoldable pub run : Context → List Instr → Result Outcome
run c instrs = run_level c max_level [] false instrs
