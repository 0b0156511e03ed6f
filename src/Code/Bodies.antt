-- ===== src/Code/Bodies.antt =====
-- `split_rule_bodies` of code.py: the instruction stream cut into the rules' bodies.
use yaradec.Prelude.{if◌then◌else◌, ◌==◌, ◌++◌, ◌∷◌, [], List, some, none, Option, ℕ}
use yaradec.Constants.Op.{Op}
use yaradec.Code.Decode.{Instr}

-- `bodies[k] = v`: a key keeps its place and gets the new value.
unfoldable pub dict_set {ℓ} : {V : Type ℓ} → List (ℕ × V) → ℕ → V → List (ℕ × V)
dict_set [] k v = (k, v) ∷ []
dict_set ((j, w) ∷ d) k v =
    let rest = dict_set d k v in if j == k then (j, v) ∷ d else (j, w) ∷ rest

-- `bodies.get(k)`
unfoldable pub dict_get {ℓ} : {V : Type ℓ} → List (ℕ × V) → ℕ → Option V
dict_get [] k = none
dict_get ((j, w) ∷ d) k = if j == k then some w else dict_get d k

pub record Splitting : Type 0 where
  pub bodies : List (ℕ × List Instr)
  pub current : Option ℕ
  pub buf : List Instr

-- `if current is not None: bodies[current] = buf`
abbrev pub store : Option ℕ → List Instr → List (ℕ × List Instr) → List (ℕ × List Instr)
store none buf bodies = bodies
store (some k) buf bodies = dict_set bodies k buf

abbrev pub collect : Option ℕ → Instr → List Instr → List Instr
collect none ins buf = buf
collect (some k) ins buf = buf ++ (ins ∷ [])

-- One round of the loop; `none` is the `break` at HALT.
unfoldable pub split_step : Op → Instr → Splitting → Option Splitting
split_step Op.init_rule ins s =
    some (record { bodies = store s.current s.buf s.bodies; current = ins.rule_index; buf = [] })
split_step Op.match_rule ins s =
    some (record { bodies = store s.current s.buf s.bodies; current = none; buf = [] })
split_step Op.halt ins s = none
split_step op ins s = some (record s { buf = collect s.current ins s.buf })

abbrev pub go_on :
    Option Splitting → Splitting → (Splitting → List (ℕ × List Instr)) → List (ℕ × List Instr)
go_on none s rest = store s.current s.buf s.bodies
go_on (some t) s rest = rest t

unfoldable pub split_loop : Splitting → List Instr → List (ℕ × List Instr)
split_loop s [] = store s.current s.buf s.bodies
split_loop s (ins ∷ rest) = go_on (split_step ins.op ins s) s (λ t. split_loop t rest)

unfoldable pub split_rule_bodies : List Instr → List (ℕ × List Instr)
split_rule_bodies instrs = split_loop (record { bodies = []; current = none; buf = [] }) instrs
