-- ===== src/RePattern/Segments.antt =====
-- `segment_programs` and `program_containing` of repattern.py on any bytes.
use mathlib.Core.List.{append_assoc}
use yaradec.Prelude.{
  Bool-cases, ltb, some, inr, inl, All-append, length-append, All, length, arith, ◌++◌, ◌∷◌, [],
  List, false, true, ◌∙◌, ap, sym, refl, ◌≡◌, ◌<◌, ◌≤◌, ◌-◌, ◌+◌, suc, zero, ℕ,
}
use yaradec.Result.{Result-cases, Result, ok, err, map_ok}
use native.Mathlib.Nat.{le_refl}
use yaradec.Bytes.{Bytes}
use yaradec.RePattern.Decode.{ReInstr, stop, decode_instr}
use yaradec.RePattern.Boundaries.{decode_instr-inv}
use yaradec.RePattern.Programs.{
  is_match, disassemble_loop, disassemble_program, segment_loop, segment_programs,
  program_containing,
}

-- The segments follow one another from `start`, none is empty, and all end by `limit`.
abbrev pub Chain : ℕ → ℕ → List (ℕ × ℕ) → Type 0
Chain limit start [] = start ≤ limit
Chain limit start (seg ∷ segs) = (seg.0 ≡ start) × (start < seg.1) × Chain limit seg.1 segs

-- Reading from `seg.0` gives instructions up to the first MATCH, which ends at `seg.1`.
pub record IsProgram (code : Bytes) (seg : ℕ × ℕ) : Type 0 where
  pub body : List ReInstr
  pub last : ReInstr
  pub read : disassemble_program code seg.0 ≡ ok (body ++ (last ∷ []))
  pub no_match : All (λ ins. is_match ins ≡ false) body
  pub ends : is_match last ≡ true
  pub at : stop last ≡ seg.1

-- From `start` the walk has read `body` and stands at `off`.
record Reaches (code : Bytes) (start off : ℕ) : Type 0 where
  body : List ReInstr
  walk :
      (fuel : ℕ)
      → disassemble_loop (length body + fuel) code start
        ≡ map_ok (λ t. body ++ t) (disassemble_loop fuel code off)
  short : length body + start ≤ off
  no_match : All (λ ins. is_match ins ≡ false) body

map_ok-map_ok :
    (xs ys : List ReInstr) (r : Result (List ReInstr))
    → map_ok (λ t. xs ++ t) (map_ok (λ t. ys ++ t) r) ≡ map_ok (λ t. (xs ++ ys) ++ t) r
map_ok-map_ok xs ys (ok t) = ap ok (sym (append_assoc xs ys t))
map_ok-map_ok xs ys (err e) = refl

map_ok-nil : (r : Result (List ReInstr)) → r ≡ map_ok (λ t. [] ++ t) r
map_ok-nil (ok t) = refl
map_ok-nil (err e) = refl

module _ (code : Bytes) where
  Reaches-here : (start : ℕ) → Reaches code start start
  Reaches-here start = record {
    body = [];
    walk = λ fuel. ap (λ n. disassemble_loop n code start) (add_zero fuel) ∙ map_ok-nil _;
    short = omega arith;
    no_match = tt;
  }
    where
      add_zero : (n : ℕ) → 0 + n ≡ n
      add_zero n = omega arith

  disassemble_step :
      (fuel off : ℕ) (ins : ReInstr)
      → decode_instr code off ≡ ok ins
      → is_match ins ≡ false
      → disassemble_loop (suc fuel) code off
        ≡ map_ok (λ t. (ins ∷ []) ++ t) (disassemble_loop fuel code (stop ins))
  unfolding disassemble_loop
  disassemble_step fuel off ins read other = rw (read, other)

  disassemble_last :
      (fuel off : ℕ) (ins : ReInstr)
      → decode_instr code off ≡ ok ins
      → is_match ins ≡ true
      → disassemble_loop (suc fuel) code off ≡ ok (ins ∷ [])
  unfolding disassemble_loop
  disassemble_last fuel off ins read done = rw (read, done)

  Reaches-step :
      (start off : ℕ) (ins : ReInstr)
      → decode_instr code off ≡ ok ins
      → is_match ins ≡ false
      → Reaches code start off
      → Reaches code start (stop ins)
  Reaches-step start off ins read other r = record {
    body = r.body ++ (ins ∷ []);
    walk = λ fuel.
        ap (λ n. disassemble_loop n code start) (one_more fuel)
        ∙ r.walk (suc fuel)
        ∙ ap (map_ok (λ t. r.body ++ t)) (disassemble_step fuel off ins read other)
        ∙ map_ok-map_ok r.body (ins ∷ []) _;
    short =
        omega (arith, length-append r.body (ins ∷ []), decode_instr-inv code off ins read, r.short);
    no_match = All-append _ r.body (ins ∷ []) r.no_match (other, tt);
  }
    where
      one_more : (fuel : ℕ) → length (r.body ++ (ins ∷ [])) + fuel ≡ length r.body + suc fuel
      one_more fuel = omega (arith, length-append r.body (ins ∷ []))

  Reaches-IsProgram :
      (start off : ℕ) (ins : ReInstr)
      → decode_instr code off ≡ ok ins
      → is_match ins ≡ true
      → Reaches code start off
      → IsProgram code (start, stop ins)
  unfolding disassemble_program
  Reaches-IsProgram start off ins read done r = record {
    body = r.body;
    last = ins;
    read =
        ap (λ n. disassemble_loop n code start) enough
        ∙ r.walk (suc (length code - length r.body))
        ∙ ap (map_ok (λ t. r.body ++ t)) (disassemble_last _ off ins read done);
    no_match = r.no_match;
    ends = done;
    at = refl;
  }
    where
      enough : suc (length code) ≡ length r.body + suc (length code - length r.body)
      enough = omega (arith, decode_instr-inv code off ins read, r.short)

  segment_loop-IsProgram :
      (fuel off start : ℕ)
      → Reaches code start off
      → All (IsProgram code) (segment_loop fuel code off start)
  unfolding segment_loop
  segment_loop-IsProgram zero off start r = tt
  segment_loop-IsProgram (suc fuel) off start r = elim (Bool-cases (ltb off (length code))) [
    | inr over ↦ rw over tt
    | inl more ↦ rw more (elim (Result-cases (decode_instr code off)) [
      | inr (e, bad) ↦ rw bad tt
      | inl (ins, read) ↦ elim (Bool-cases (is_match ins)) [
        | inl done ↦
            rw (read, done)
              (
                Reaches-IsProgram start off ins read done r,
                segment_loop-IsProgram fuel (stop ins) (stop ins) (Reaches-here (stop ins)),
              )
        | inr other ↦
            rw (read, other)
              (segment_loop-IsProgram fuel (stop ins) start
                (Reaches-step start off ins read other r))
      ]
    ])
  ]

  segment_loop-Chain :
      (fuel off start : ℕ)
      → start ≤ off
      → off ≤ length code
      → Chain (length code) start (segment_loop fuel code off start)
  unfolding segment_loop
  segment_loop-Chain zero off start h k = omega arith
  segment_loop-Chain (suc fuel) off start h k = elim (Bool-cases (ltb off (length code))) [
    | inr over ↦ rw over (omega arith)
    | inl more ↦ rw more (elim (Result-cases (decode_instr code off)) [
      | inr (e, bad) ↦ rw bad (omega arith)
      | inl (ins, read) ↦
          let (_, grows, inside) = decode_instr-inv code off ins read in
          elim (Bool-cases (is_match ins)) [
            | inl done ↦
                rw (read, done)
                  (
                    refl,
                    omega arith,
                    segment_loop-Chain fuel (stop ins) (stop ins) (le_refl _) inside,
                  )
            | inr other ↦
                rw (read, other) (segment_loop-Chain fuel (stop ins) start (omega arith) inside)
          ]
    ])
  ]

  -- The segments follow one another without gaps from offset 0, and stay inside the section.
  pub segment_programs-Chain : Chain (length code) 0 (segment_programs code)
  unfolding segment_programs
  segment_programs-Chain = segment_loop-Chain (length code) 0 0 (omega arith) (omega arith)

  -- Disassembling from a segment's start never fails, and reads one program that ends, at its first
  -- MATCH, where the segment does.
  pub segment_programs-IsProgram : All (IsProgram code) (segment_programs code)
  unfolding segment_programs
  segment_programs-IsProgram = segment_loop-IsProgram (length code) 0 0 (Reaches-here 0)

Chain-le :
    (before : List (ℕ × ℕ)) (limit start : ℕ) (seg : ℕ × ℕ) (after : List (ℕ × ℕ))
    → Chain limit start (before ++ (seg ∷ after))
    → start ≤ seg.0
Chain-le [] limit start seg after (e, lt, c) = omega arith
Chain-le ((a, b) ∷ before) limit start seg after (e, lt, c) =
    omega (arith, Chain-le before limit b seg after c)

-- In a chain the segment that holds an offset is the one that is found.
pub program_containing-Chain :
    (before : List (ℕ × ℕ)) (limit start offset : ℕ) (seg : ℕ × ℕ) (after : List (ℕ × ℕ))
    → Chain limit start (before ++ (seg ∷ after))
    → seg.0 ≤ offset
    → offset < seg.1
    → program_containing (before ++ (seg ∷ after)) offset ≡ some seg
unfolding program_containing
program_containing-Chain [] limit start offset (a, b) after c h k = ground arith
program_containing-Chain ((a, b) ∷ before) limit start offset seg after (e, lt, c) h k = ground (
  arith,
  Chain-le before limit b seg after c,
  program_containing-Chain before limit b offset seg after c h k,
)
