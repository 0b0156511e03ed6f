-- ===== src/RePattern/Regex.antt =====
-- `_RegexRenderer` and `render_regex` of repattern.py. A render returns its text and whether it set
-- `unrecovered`. `limit` bounds the nesting of `_seq`, as Python's recursion limit does.
use yaradec.Prelude.{
  drop, take, ◌&&◌, not, all, if◌then◌else◌, ◌==◌, leb, ltb, ◌++◌, ◌∷◌, [], List, some, none,
  Option, ◌||◌, false, true, Bool, ◌^◌, ◌%◌, ◌-◌, ◌+◌, suc, zero, ℕ,
}
use Prim.Native.Nat.{bit_and}
use yaradec.Prelude.Int.{pos}
use yaradec.Prelude.Text.{Text, codes}
use yaradec.Result.{Result, ok, err, ◌>>=◌, index_error, key_error, recursion_error}
use yaradec.Bytes.{Bytes}
use yaradec.Constants.ReOp
use yaradec.Constants.ReOp.{ReOp}
use yaradec.RePattern.Decode.{ReInstr, stop}
use yaradec.RePattern.CharClass.{lit_regex, class_to_str}
use yaradec.RePattern.Hex.{inf, operand}
use yaradec.RePattern.Pieces.{Piece, piece, merge_pieces, format_pieces}

-- `self.by_offset.get(off)`: of two instructions at one offset the dictionary keeps the later.
unfoldable pub by_offset : List ReInstr → ℕ → Option ReInstr
by_offset [] off = none
by_offset (ins ∷ rest) off = elim (by_offset rest off) [
  | some found ↦ some found
  | none ↦ if ins.offset == off then some ins else none
]

abbrev pub is_split : ReOp → Bool
is_split ReOp.split_a = true
is_split ReOp.split_b = true
is_split _ = false

abbrev pub is_split_a : ReOp → Bool
is_split_a ReOp.split_a = true
is_split_a _ = false

abbrev pub is_split_b : ReOp → Bool
is_split_b ReOp.split_b = true
is_split_b _ = false

abbrev pub is_jump : ReOp → Bool
is_jump ReOp.jump = true
is_jump _ = false

abbrev pub is_repeat_start : ReOp → Bool
is_repeat_start ReOp.repeat_start_greedy = true
is_repeat_start ReOp.repeat_start_ungreedy = true
is_repeat_start _ = false

abbrev pub is_greedy_start : ReOp → Bool
is_greedy_start ReOp.repeat_start_greedy = true
is_greedy_start _ = false

abbrev pub is_repeat_end : ReOp → Bool
is_repeat_end ReOp.repeat_end_greedy = true
is_repeat_end ReOp.repeat_end_ungreedy = true
is_repeat_end _ = false

-- A target that can be an offset: targets are compared with offsets only, and none is negative.
abbrev pub target_of : ReInstr → Option ℕ
target_of ins = elim ins.target [ some (pos t) ↦ some t | _ ↦ none ]

-- The byte `members[c // 8]` of the class that stands for a masked literal.
unfoldable pub mask_byte : ℕ → ℕ → ℕ → ℕ → ℕ
mask_byte value mask zero c = 0
mask_byte value mask (suc n) c =
    (if bit_and c mask == bit_and value mask then 2 ^ (c % 8) else 0)
    + mask_byte value mask n (suc c)

unfoldable pub mask_bitmap : ℕ → ℕ → ℕ → ℕ → Bytes
mask_bitmap value mask zero c = []
mask_bitmap value mask (suc n) c = mask_byte value mask 8 c ∷ mask_bitmap value mask n (c + 8)

-- `_atom`: the text, and whether the instruction could not be rendered.
unfoldable pub atom : ReOp → ReInstr → Text × Bool
atom ReOp.literal ins = (lit_regex (operand ins.value), false)
atom ReOp.not_literal ins = (codes "[^" ++ (lit_regex (operand ins.value) ++ codes "]"), false)
atom ReOp.any ins = (codes ".", false)
atom ReOp.class ins = (class_to_str (elim ins.bitmap [ some b ↦ b | none ↦ [] ]) ins.negated, false)
atom ReOp.word_char ins = (codes "\\w", false)
atom ReOp.non_word_char ins = (codes "\\W", false)
atom ReOp.space ins = (codes "\\s", false)
atom ReOp.non_space ins = (codes "\\S", false)
atom ReOp.digit ins = (codes "\\d", false)
atom ReOp.non_digit ins = (codes "\\D", false)
atom ReOp.word_boundary ins = (codes "\\b", false)
atom ReOp.non_word_boundary ins = (codes "\\B", false)
atom ReOp.match_at_start ins = (codes "^", false)
atom ReOp.match_at_end ins = (codes "$", false)
atom ReOp.masked_literal ins =
    (class_to_str (mask_bitmap (operand ins.value) (operand ins.mask) 32 0) false, false)
atom op ins = (codes "(?#" ++ (ReOp.name op ++ codes ")"), true)

-- `_prev_offset`; `none` is its -1.
unfoldable pub prev_from : Option ℕ → List ReInstr → ℕ → Option ℕ
prev_from prev [] off = prev
prev_from prev (ins ∷ rest) off =
    let more = prev_from (some ins.offset) rest off in if leb off ins.offset then prev else more

unfoldable pub prev_instr : List ReInstr → ℕ → Option ReInstr
prev_instr instrs off = elim (prev_from none instrs off) [
  | some p ↦ by_offset instrs p
  | none ↦ none
]

-- `_find_repeat_end`, with the loop's `depth`.
unfoldable pub find_repeat_end : List ReInstr → List ReInstr → ℕ → ℕ → ℕ → Option ReInstr
find_repeat_end all [] depth start end = none
find_repeat_end all (i ∷ rest) depth start end =
    let skip = find_repeat_end all rest depth start end in
    let deeper = find_repeat_end all rest (suc depth) start end in
    let shallower = find_repeat_end all rest (depth - 1) start end in
    elim (by_offset all i.offset) [
      | none ↦ none
      | some ins ↦
          if ltb i.offset start || leb end i.offset
          then skip
          else if is_repeat_start ins.op
          then deeper
          else if is_repeat_end ins.op
          then (if depth == 0 then some ins else shallower)
          else skip
    ]

-- `list.index`
unfoldable pub index_of : List ℕ → ℕ → Option ℕ
index_of [] x = none
index_of (y ∷ ys) x =
    let rest = index_of ys x in
    if y == x then some 0 else elim rest [ some i ↦ some (suc i) | none ↦ none ]

abbrev pub Rendered : Type 0
Rendered = Result (Text × Bool)

-- What `_unit` returns: a piece or none, where to go on, and `unrecovered`.
abbrev pub Step : Type 0
Step = Result (Option Piece × ℕ × Bool)

abbrev with_body : Rendered → (Text → Piece) → ℕ → Step
with_body (err e) f next = err e
with_body (ok (body, u)) f next = ok (some (f body), next, u)

abbrev with_bodies : Rendered → Rendered → ℕ → Step
with_bodies (err e) right next = err e
with_bodies (ok left) (err e) next = err e
with_bodies (ok (left, u)) (ok (right, v)) next = ok (
  some (record (piece (b'(' ∷ (left ++ (b'|' ∷ (right ++ codes ")")))) 1 1 true) { atomic = true }),
  next,
  u || v,
)

unfoldable pub one_atom : ReInstr → Step
one_atom ins = ok (some (piece (atom ins.op ins).0 1 1 true), stop ins, (atom ins.op ins).1)

abbrev jump_or_atom : ReInstr → ℕ → Option ℕ → Step
jump_or_atom ins off none = one_atom ins
jump_or_atom ins off (some t) =
    if is_jump ins.op && ltb off t then ok (none, t, false) else one_atom ins

-- The last branches of `_unit_inner`.
unfoldable pub leaf : ReOp → ReInstr → ℕ → Step
leaf ReOp.repeat_any_greedy ins off =
    ok (some (piece (codes ".") (operand ins.min) (operand ins.max) true), stop ins, false)
leaf ReOp.repeat_any_ungreedy ins off =
    ok (some (piece (codes ".") (operand ins.min) (operand ins.max) false), stop ins, false)
leaf op ins off = jump_or_atom ins off (target_of ins)

-- `last.op is JUMP and last.target == off`, for the `last` of a star.
unfoldable pub jumps_to : Option ReInstr → ℕ → Bool
jumps_to none off = false
jumps_to (some last) off =
    is_jump last.op && elim (target_of last) [ some t ↦ t == off | none ↦ false ]

-- The target of a JUMP beyond `tgt`, for the `last` of an alternation's left side.
unfoldable pub jumps_beyond : Option ReInstr → ℕ → Option (ReInstr × ℕ)
jumps_beyond none tgt = none
jumps_beyond (some last) tgt = elim (target_of last) [
  | some t ↦ if is_jump last.op && ltb tgt t then some (last, t) else none
  | none ↦ none
]

abbrev offset_or_zero : Option ReInstr → ℕ
offset_or_zero (some last) = last.offset
offset_or_zero none = 0

-- Everything below is over the renderer's `_seq` one level further down.
module _ (seq : ℕ → ℕ → Rendered) (instrs : List ReInstr) where
  -- Alternation, or else an optional part.
  abbrev split_beyond : ReInstr → ℕ → Option (ReInstr × ℕ) → Step
  split_beyond ins tgt (some (last, after)) =
      with_bodies (seq (stop ins) last.offset) (seq tgt after) after
  split_beyond ins tgt none =
      with_body (seq (stop ins) tgt) (λ body. piece body 0 1 (is_split_a ins.op)) tgt

  -- A split with its target ahead: a star, an alternation, an optional part.
  unfoldable pub split_unit : ReInstr → ℕ → ℕ → Step
  split_unit ins off tgt =
      let last = prev_instr instrs tgt in
      let star =
        with_body (seq (stop ins) (offset_or_zero last))
          (λ body. piece body 0 inf (is_split_a ins.op)) tgt in
      let other = split_beyond ins tgt (jumps_beyond last tgt) in
      if jumps_to last off then star else other

  abbrev split_or_leaf : ReInstr → ℕ → Option ℕ → Step
  split_or_leaf ins off none = leaf ins.op ins off
  split_or_leaf ins off (some tgt) =
      if is_split ins.op && ltb off tgt then split_unit ins off tgt else leaf ins.op ins off

  abbrev repeat_or_other : ReInstr → ℕ → Option ReInstr → Step
  repeat_or_other ins off (some close) =
      with_body (seq (stop ins) close.offset)
        (λ body. piece body (operand ins.min) (operand ins.max) (is_greedy_start ins.op))
        (stop close)
  repeat_or_other ins off none = split_or_leaf ins off (target_of ins)

  abbrev unit_of : Option ReInstr → ℕ → ℕ → Step
  unit_of none off end = ok (none, end, true)
  unit_of (some ins) off end =
      if is_repeat_start ins.op
      then repeat_or_other ins off (find_repeat_end instrs instrs 0 (stop ins) end)
      else split_or_leaf ins off (target_of ins)

  -- `_unit`
  unfoldable pub unit : ℕ → ℕ → Step
  unit off end = unit_of (by_offset instrs off) off end

-- The variables of `_seq`.
pub record SeqState : Type 0 where
  pub pieces : List Piece
  pub starts : List ℕ
  pub off : ℕ
  pub unrecovered : Bool

-- The index in `starts` to which a split at `off` jumps back, where it closes a `+`.
unfoldable pub back_edge : Option ReInstr → List ℕ → ℕ → Option (ReInstr × ℕ × ℕ)
back_edge none starts end = none
back_edge (some ins) starts end = elim (target_of ins) [
  | none ↦ none
  | some t ↦ elim (index_of starts t) [
    | none ↦ none
    | some idx ↦ if is_split ins.op && leb (stop ins) end then some (ins, t, idx) else none
  ]
]

abbrev push_unit : SeqState → Step → Result SeqState
push_unit s (err e) = err e
push_unit s (ok (none, next, u)) = ok (record s { off = next; unrecovered = s.unrecovered || u })
push_unit s (ok (some p, next, u)) = ok (record {
  pieces = s.pieces ++ (p ∷ []);
  starts = s.starts ++ (s.off ∷ []);
  off = next;
  unrecovered = s.unrecovered || u;
})

-- One round of the loop of `_seq`.
abbrev round : Option (ReInstr × ℕ × ℕ) → SeqState → Step → Result SeqState
round (some (ins, t, idx)) s next = ok (record {
  pieces =
      take idx s.pieces
      ++ (piece (format_pieces (merge_pieces (drop idx s.pieces))) 1 inf (is_split_b ins.op) ∷ []);
  starts = take idx s.starts ++ (t ∷ []);
  off = stop ins;
  unrecovered = s.unrecovered;
})
round none s next = push_unit s next

unfoldable pub seq_step : (ℕ → ℕ → Rendered) → List ReInstr → ℕ → SeqState → Result SeqState
seq_step seq instrs end s =
    round (back_edge (by_offset instrs s.off) s.starts end) s (unit seq instrs s.off end)

-- The loop, with the rounds that `guard` leaves as fuel.
unfoldable pub seq_loop : (ℕ → ℕ → Rendered) → List ReInstr → ℕ → ℕ → SeqState → Rendered
seq_loop seq instrs end zero s =
    ok (format_pieces (merge_pieces s.pieces), s.unrecovered || ltb s.off end)
seq_loop seq instrs end (suc guard) s =
    let rest = (do next ← seq_step seq instrs end s; seq_loop seq instrs end guard next) in
    if ltb s.off end then rest else ok (format_pieces (merge_pieces s.pieces), s.unrecovered)

abbrev pub max_rounds : ℕ
max_rounds = 100000

-- `_seq`; past `limit` Python raises `RecursionError`.
unfoldable pub seq : List ReInstr → ℕ → ℕ → ℕ → Rendered
seq instrs zero start end = err recursion_error
seq instrs (suc limit) start end =
    seq_loop (λ a b. seq instrs limit a b) instrs end max_rounds
      (record { pieces = []; starts = []; off = start; unrecovered = false })

abbrev last_offset : ReInstr → List ReInstr → ℕ
last_offset ins [] = ins.offset
last_offset ins (next ∷ rest) = last_offset next rest

-- `render`
unfoldable pub render : ℕ → List ReInstr → Rendered
render limit [] = err index_error
render limit (ins ∷ rest) = seq (ins ∷ rest) limit ins.offset (last_offset ins rest)

-- `except (KeyError, RecursionError): return "", False`
abbrev pub fully : Rendered → Result (Text × Bool)
fully (ok (text, unrecovered)) = ok (text, not unrecovered)
fully (err key_error) = ok ([], false)
fully (err recursion_error) = ok ([], false)
fully (err e) = err e

unfoldable pub render_regex : ℕ → List ReInstr → Result (Text × Bool)
render_regex limit instrs = fully (render limit instrs)
