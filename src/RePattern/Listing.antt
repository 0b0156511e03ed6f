-- ===== src/RePattern/Listing.antt =====
-- `format_disassembly` of repattern.py.
use yaradec.Prelude.{map, ◌++◌, ◌∷◌, [], List, some, none, Option, ℕ}
use yaradec.Prelude.Int.{ℤ}
use yaradec.Prelude.Strip.{pad_left, show_ℤ}
use yaradec.Prelude.Text.{Text, codes, join, show_dec, hex2}
use yaradec.Bytes.{Bytes}
use yaradec.Constants.ReOp
use yaradec.RePattern.Decode.{ReInstr}
use yaradec.RePattern.CharClass.{class_to_str}
use yaradec.RePattern.Hex.{operand}

abbrev pub bit {ℓ} : {A : Type ℓ} → (A → Text) → Option A → List Text
bit f none = []
bit f (some a) = f a ∷ []

unfoldable pub disassembly_line : ReInstr → Text
disassembly_line i = join (codes " ") (
    (codes "  " ++ (pad_left b'0' 5 (show_dec i.offset) ++ (codes "  " ++ ReOp.name i.op)))
    ∷ (bit (λ (v : ℕ). codes "0x" ++ hex2 v) i.value
        ++ (bit (λ (m : ℕ). codes "mask=0x" ++ hex2 m) i.mask
            ++ (bit
                  (λ (n : ℕ).
                    codes "min=" ++ (show_dec n ++ (codes " max=" ++ show_dec (operand i.max))))
                  i.min
                ++ (bit (λ (t : ℤ). codes "-> " ++ show_ℤ t) i.target
                    ++ bit (λ (b : Bytes). class_to_str b i.negated) i.bitmap)))))

unfoldable pub format_disassembly : List ReInstr → List Text
format_disassembly instrs = map disassembly_line instrs
