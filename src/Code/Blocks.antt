-- ===== src/Code/Blocks.antt =====
-- `split_rule_bodies` on the stream that holds one block per rule.
use mathlib.Core.List.{append_assoc, append-nil}
use yaradec.Prelude.{
  arith, All, map, ◌++◌, ◌∷◌, [], List, some, none, false, true, Bool, ◌≡◌, refl, sym, ◌∙◌, ap, ℕ,
}
use yaradec.Constants.Op.{Op}
use yaradec.Code.Decode.{Instr}
use yaradec.Code.Bodies.{
  dict_set, dict_get, Splitting, collect, split_step, split_loop, split_rule_bodies,
}

-- INIT_RULE, the condition, and MATCH_RULE.
pub record Block : Type 0 where
  pub index : ℕ
  pub opening : Instr
  pub body : List Instr
  pub closing : Instr

abbrev pub is_boundary : Op → Bool
is_boundary Op.init_rule = true
is_boundary Op.match_rule = true
is_boundary Op.halt = true
is_boundary _ = false

abbrev pub IsBlock : Block → Type 0
IsBlock b =
    (b.opening.op ≡ Op.init_rule)
    × (b.opening.rule_index ≡ some b.index)
    × All (λ ins. is_boundary ins.op ≡ false) b.body
    × (b.closing.op ≡ Op.match_rule)

abbrev pub stream : List Block → List Instr → List Instr
stream [] after = after
stream (b ∷ bs) after = b.opening ∷ (b.body ++ (b.closing ∷ stream bs after))

abbrev pub entry : Block → ℕ × List Instr
entry b = (b.index, b.body)

-- No block has the index of an entry before it.
abbrev pub New : List (ℕ × List Instr) → List Block → Type 0
New found [] = Unit
New found (b ∷ bs) = (dict_get found b.index ≡ none) × New (found ++ (entry b ∷ [])) bs

dict_set_new :
    (d : List (ℕ × List Instr)) (k : ℕ) (v : List Instr)
    → dict_get d k ≡ none
    → dict_set d k v ≡ d ++ ((k, v) ∷ [])
unfolding dict_set dict_get
dict_set_new [] k v h = refl
dict_set_new ((j, w) ∷ d) k v h = ground (arith, dict_set_new d k v)

split_step_inner :
    (op : Op) (ins : Instr) (s : Splitting)
    → is_boundary op ≡ false
    → split_step op ins s ≡ some (record s { buf = collect s.current ins s.buf })
unfolding split_step
split_step_inner Op.init_rule ins s h = cc
split_step_inner Op.match_rule ins s h = cc
split_step_inner Op.halt ins s h = cc
split_step_inner _ ins s h = refl

abbrev inside : List (ℕ × List Instr) → ℕ → List Instr → Splitting
inside found k buf = record { bodies = found; current = some k; buf = buf }

split_loop_body :
    (body : List Instr) (found : List (ℕ × List Instr)) (k : ℕ) (buf rest : List Instr)
    → All (λ ins. is_boundary ins.op ≡ false) body
    → split_loop (inside found k buf) (body ++ rest)
      ≡ split_loop (inside found k (buf ++ body)) rest
unfolding split_loop
split_loop_body [] found k buf rest h = rw (append-nil buf) refl
split_loop_body (ins ∷ body) found k buf rest (here, h) =
    rw (split_step_inner ins.op ins (inside found k buf) here) (
      split_loop_body body found k (buf ++ (ins ∷ [])) rest h
      ∙ ap (λ t. split_loop (inside found k t) rest) (append_assoc buf (ins ∷ []) body))

abbrev between : List (ℕ × List Instr) → Splitting
between found = record { bodies = found; current = none; buf = [] }

split_loop-stream :
    (bs : List Block) (found : List (ℕ × List Instr)) (ending : Instr) (after : List Instr)
    → All IsBlock bs
    → New found bs
    → ending.op ≡ Op.halt
    → split_loop (between found) (stream bs (ending ∷ after)) ≡ found ++ map entry bs
unfolding split_loop split_step
split_loop-stream [] found ending after h new e = rw e (sym (append-nil found))
split_loop-stream (b ∷ bs) found ending after ((opens, index, body, closes), h) (new, news) e =
    let rest : List Instr = stream bs (ending ∷ after) in
    rw opens (
      rw index (
        split_loop_body b.body found b.index [] (b.closing ∷ rest) body
        ∙ rw closes (
            rw (dict_set_new found b.index b.body new) (
              split_loop-stream bs (found ++ (entry b ∷ [])) ending after h news e
              ∙ append_assoc found (entry b ∷ []) (map entry bs)))))

-- A stream of blocks with distinct indices, up to a HALT, is cut into exactly the blocks' bodies, in
-- their order, each under its rule's index, whatever follows the HALT.
pub split_rule_bodies-stream :
    (bs : List Block) (ending : Instr) (after : List Instr)
    → All IsBlock bs
    → New [] bs
    → ending.op ≡ Op.halt
    → split_rule_bodies (stream bs (ending ∷ after)) ≡ map entry bs
unfolding split_rule_bodies
split_rule_bodies-stream bs ending after h new e = split_loop-stream bs [] ending after h new e
