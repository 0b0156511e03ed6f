-- ===== src/Code/Literals.antt =====
-- `_int_literal` and `_escape_bytes` of code.py.
use yaradec.Prelude.{if◌then◌else◌, ◌==◌, leb, ltb, ◌++◌, ◌∷◌, [], ◌&&◌, not, ◌^◌, ◌%◌, ◌/◌, ℕ}
use yaradec.Prelude.Text.{Text, codes, show_dec, show_upper_hex, hex2, backslash}
use yaradec.Bytes.{Bytes}

-- `1 << 20`
abbrev pub megabyte : ℕ
megabyte = 2 ^ 20

abbrev pub undefined_value : ℕ
undefined_value = 0xFFFFFFFFFFFFFFFF

unfoldable pub int_literal : ℕ → Text
int_literal value =
    if value == undefined_value
    then codes "undefined"
    else if not (value == 0) && value % megabyte == 0 && ltb (value / megabyte) 1024
    then show_dec (value / megabyte) ++ codes "MB"
    else if ltb 0xFFF value && not (value % 1000 == 0) && not (value % 1024 == 0)
    then codes "0x" ++ show_upper_hex value
    else show_dec value

unfoldable pub escape_byte : ℕ → Text
escape_byte b =
    if b == b'"'
    then backslash ∷ b'"' ∷ []
    else if b == backslash
    then backslash ∷ backslash ∷ []
    else if leb 0x20 b && ltb b 0x7F
    then b ∷ []
    else backslash ∷ b'x' ∷ hex2 b

unfoldable pub escape_bytes : Bytes → Text
escape_bytes [] = []
escape_bytes (b ∷ bs) = escape_byte b ++ escape_bytes bs
