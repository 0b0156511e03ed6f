-- ===== src/Code/Listing.antt =====
-- `format_listing` of code.py.
use yaradec.Prelude.{map, ◌++◌, ◌∷◌, [], List, some, none, Option, ℕ}
use yaradec.Prelude.Int.{ℤ}
use yaradec.Prelude.Strip.{rstrip, pad_left, pad_right, show_hex, show_ℤ}
use yaradec.Prelude.Text.{Text, codes, join, show_dec}
use yaradec.Constants.Op
use yaradec.Code.Decode.{Instr}

-- A part of a line, where the instruction has it.
abbrev pub part {ℓ} : {A : Type ℓ} → (A → Text) → Option A → List Text
part f none = []
part f (some a) = f a ∷ []

-- The operand, in words where `resolve` has some.
abbrev pub operand_text : Option Text → ℕ → Text
operand_text none v = codes "0x" ++ show_hex v
operand_text (some []) v = codes "0x" ++ show_hex v
operand_text (some (c ∷ t)) v = c ∷ t

unfoldable pub listing_line : (Instr → Option Text) → Instr → Text
listing_line resolve ins = rstrip (
    join (codes " ") (
      (codes "    "
        ++ (pad_left b' ' 6 (show_dec ins.offset) ++ (codes "  " ++ pad_right 22 (Op.name ins.op))))
      ∷ (part (operand_text (resolve ins)) ins.operand
          ++ (part (λ (t : ℤ). codes "-> " ++ show_ℤ t) ins.target
              ++ part (λ (i : ℕ). codes "rule=" ++ show_dec i) ins.rule_index))))

-- Without `resolve` it is `λ _. none`.
unfoldable pub format_listing : (Instr → Option Text) → List Instr → List Text
format_listing resolve instrs = map (listing_line resolve) instrs
