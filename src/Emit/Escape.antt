-- ===== src/Emit/Escape.antt =====
-- `escape_text` and `as_hex_bytes` of emit.py, and `str.encode`.
use yaradec.Prelude.{if◌then◌else◌, ◌==◌, leb, ltb, map, ◌++◌, ◌∷◌, [], ◌&&◌, ◌%◌, ◌/◌, ◌+◌, ℕ}
use yaradec.Prelude.Text.{Text, codes, join, backslash, hex2, upper_hex2}
use yaradec.Bytes.{Bytes}

unfoldable pub escape_char : ℕ → Text
escape_char b =
    if b == b'"'
    then backslash ∷ b'"' ∷ []
    else if b == backslash
    then backslash ∷ backslash ∷ []
    else if b == 9
    then backslash ∷ b't' ∷ []
    else if b == 10
    then backslash ∷ b'n' ∷ []
    else if b == 13
    then backslash ∷ b'r' ∷ []
    else if leb 0x20 b && ltb b 0x7F
    then b ∷ []
    else backslash ∷ b'x' ∷ hex2 b

unfoldable pub escape_text : Bytes → Text
escape_text [] = []
escape_text (b ∷ bs) = escape_char b ++ escape_text bs

unfoldable pub as_hex_bytes : Bytes → Text
as_hex_bytes bs = codes "{ " ++ (join (codes " ") (map upper_hex2 bs) ++ codes " }")

-- `ch.encode()`
abbrev pub encode_char : ℕ → Bytes
encode_char c =
    if ltb c 0x80
    then c ∷ []
    else if ltb c 0x800
    then (0xC0 + c / 64) ∷ (0x80 + c % 64) ∷ []
    else if ltb c 0x10000
    then (0xE0 + c / 4096) ∷ (0x80 + c / 64 % 64) ∷ (0x80 + c % 64) ∷ []
    else (0xF0 + c / 262144) ∷ (0x80 + c / 4096 % 64) ∷ (0x80 + c / 64 % 64) ∷ (0x80 + c % 64) ∷ []

-- `str.encode()`, of a text without surrogates.
unfoldable pub encode_utf8 : Text → Bytes
encode_utf8 [] = []
encode_utf8 (c ∷ t) = encode_char c ++ encode_utf8 t
