-- ===== src/QuotedText.antt =====
-- Quoted text as YARA's lexer reads it.
use yaradec.Bytes.{Bytes}
use yaradec.Prelude.{
  ==_iff, if◌then◌else◌, ◌==◌, leb, ltb, ◌∷◌, [], some, none, Option, ◌&&◌, true, ap, sym, ◌≡◌, ◌<◌,
  ◌*◌, ◌-◌, ◌+◌, ℕ, arith,
}
use yaradec.Prelude.Text.{digit_char, digit_char, Text, backslash}

pub data Inside : Type 0 where
  plain escaped first_digit : Inside
  second_digit : ℕ → Inside

abbrev pub digit_value : ℕ → ℕ
digit_value c = if leb c b'9' then c - b'0' else c - 87

-- The byte of an escape of one letter; other escapes are refused.
abbrev escape_value : ℕ → Option ℕ
escape_value c =
    if c == b't'
    then some 9
    else if c == b'n'
    then some 10
    else if c == b'r'
    then some 13
    else if c == b'"'
    then some c
    else if c == backslash
    then some c
    else none

abbrev pub add_byte : Option ℕ → Option (Bytes × Text) → Option (Bytes × Text)
add_byte (some b) (some (bs, rest)) = some (b ∷ bs, rest)
add_byte _ _ = none

-- The bytes of a quoted text from behind its opening quote, and what follows the closing one. What
-- is not printable is refused.
unfoldable pub read_quoted : Inside → Text → Option (Bytes × Text)
read_quoted place [] = none
read_quoted plain (c ∷ t) =
    let after = read_quoted escaped t in
    let more = read_quoted plain t in
    if c == b'"'
    then some ([], t)
    else if c == backslash
    then after
    else add_byte (if leb 0x20 c && ltb c 0x7F then some c else none) more
read_quoted escaped (c ∷ t) =
    let digits = read_quoted first_digit t in
    let more = read_quoted plain t in if c == b'x' then digits else add_byte (escape_value c) more
read_quoted first_digit (c ∷ t) = read_quoted (second_digit (digit_value c)) t
read_quoted (second_digit high) (c ∷ t) =
    add_byte (some (16 * high + digit_value c)) (read_quoted plain t)

pub digit_value-digit_char : (d : ℕ) → d < 16 → digit_value (digit_char d) ≡ d
digit_value-digit_char d h = ground arith

pub as_number :
    (b n : ℕ) (r : Option (Bytes × Text))
    → (b == n) ≡ true
    → add_byte (some n) r ≡ add_byte (some b) r
as_number b n r h = ap (λ c. add_byte (some c) r) (sym ((==_iff b n).0 h))
