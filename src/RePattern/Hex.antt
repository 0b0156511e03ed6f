-- ===== src/RePattern/Hex.antt =====
-- `render_hex` of repattern.py.
use yaradec.Prelude.{if◌then◌else◌, ◌==◌, leb, ◌++◌, ◌∷◌, [], List, some, none, Option, ◌/◌, ℕ}
use Prim.Native.Nat.{bit_and}
use yaradec.Prelude.Text.{Text, codes, join, show_dec, upper_hex2, upper_digit_char}
use yaradec.Constants.ReOp.{ReOp}
use yaradec.RePattern.Decode.{ReInstr}

abbrev pub inf : ℕ
inf = 0xFFFF

-- An operand that every instruction of its kind has.
abbrev pub operand : Option ℕ → ℕ
operand (some v) = v
operand none = 0

unfoldable pub masked_text : ℕ → ℕ → Text
masked_text value mask =
    if mask == 0xF0
    then upper_digit_char (value / 16) ∷ codes "?"
    else if mask == 0x0F
    then b'?' ∷ upper_digit_char (bit_and value 0x0F) ∷ []
    else b'(' ∷ (upper_hex2 value ++ (b'&' ∷ (upper_hex2 mask ++ codes ")")))

unfoldable pub jump_text : ℕ → ℕ → Text
jump_text lo hi =
    if leb 0xFFFF hi
    then b'[' ∷ (show_dec lo ++ codes "-]")
    else if lo == hi
    then b'[' ∷ (show_dec lo ++ codes "]")
    else b'[' ∷ (show_dec lo ++ (b'-' ∷ (show_dec hi ++ codes "]")))

-- One token of the string, or nothing where a hex string has no notation.
unfoldable pub hex_token : ReOp → ReInstr → Option Text
hex_token ReOp.literal ins = some (upper_hex2 (operand ins.value))
hex_token ReOp.any ins = some (codes "??")
hex_token ReOp.masked_literal ins = some (masked_text (operand ins.value) (operand ins.mask))
hex_token ReOp.repeat_any_greedy ins = some (jump_text (operand ins.min) (operand ins.max))
hex_token ReOp.repeat_any_ungreedy ins = some (jump_text (operand ins.min) (operand ins.max))
hex_token op ins = none

abbrev with_token : Option Text → Option (List Text) → Option (List Text)
with_token none rest = none
with_token (some t) none = none
with_token (some t) (some ts) = some (t ∷ ts)

abbrev hex_step : ReOp → Option Text → Option (List Text) → Option (List Text)
hex_step ReOp.match token rest = some []
hex_step op token rest = with_token token rest

unfoldable pub hex_parts : List ReInstr → Option (List Text)
hex_parts [] = some []
hex_parts (ins ∷ rest) = hex_step ins.op (hex_token ins.op ins) (hex_parts rest)

abbrev braced : Option (List Text) → Option Text
braced none = none
braced (some parts) = some (codes "{ " ++ (join (codes " ") parts ++ codes " }"))

unfoldable pub render_hex : List ReInstr → Option Text
render_hex instrs = braced (hex_parts instrs)
