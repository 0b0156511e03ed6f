-- ===== src/B64/Codec.antt =====
-- `base64.b64encode` and `base64.b64decode` of the standard library, the latter as it treats text
-- without `validate`: characters outside the alphabet are skipped.
use yaradec.Prelude.{
  all, if◌then◌else◌, ◌==◌, leb, ltb, ◌∷◌, [], some, none, Option, ◌&&◌, ◌%◌, ◌/◌, ◌*◌, ◌-◌, ◌+◌, ℕ,
}
use yaradec.Prelude.Text.{Text}
use yaradec.Bytes.{Bytes}

-- The alphabet `A-Za-z0-9+/`.
abbrev pub alphabet_char : ℕ → ℕ
alphabet_char v =
    if ltb v 26
    then v + 65
    else if ltb v 52
    then v + 71
    else if ltb v 62
    then v - 4
    else if v == 62
    then 43
    else 47

-- A character's place in the alphabet; 64 for the others.
abbrev pub alphabet_value : ℕ → ℕ
alphabet_value c =
    if leb 65 c && leb c 90
    then c - 65
    else if leb 97 c && leb c 122
    then c - 71
    else if leb 48 c && leb c 57
    then c + 4
    else if c == 43
    then 62
    else if c == 47
    then 63
    else 64

abbrev pub pad : ℕ
pad = b'='

-- Three bytes make four characters; one or two at the end are filled up with `=`.
unfoldable pub b64encode : Bytes → Text
b64encode [] = []
b64encode (a ∷ []) = alphabet_char (a / 4) ∷ alphabet_char (a % 4 * 16) ∷ pad ∷ pad ∷ []
b64encode (a ∷ b ∷ []) =
    alphabet_char (a / 4)
    ∷ alphabet_char (a % 4 * 16 + b / 16)
    ∷ alphabet_char (b % 16 * 4)
    ∷ pad
    ∷ []
b64encode (a ∷ b ∷ c ∷ rest) =
    alphabet_char (a / 4)
    ∷ alphabet_char (a % 4 * 16 + b / 16)
    ∷ alphabet_char (b % 16 * 4 + c / 64)
    ∷ alphabet_char (c % 64)
    ∷ b64encode rest

abbrev pub strip_one : ℕ → Text → Text
strip_one c [] = if c == pad then [] else c ∷ []
strip_one c (d ∷ s) = c ∷ d ∷ s

-- `s.rstrip("=")`
unfoldable pub rstrip_pad : Text → Text
rstrip_pad [] = []
rstrip_pad (c ∷ s) = strip_one c (rstrip_pad s)

-- The decoder's place in a group of four, the bits left over, and the `=` seen since.
pub record Decoder : Type 0 where
  pub quad_pos : ℕ
  pub left : ℕ
  pub pads : ℕ

abbrev pub finished : Decoder → Option Bytes
finished d = if d.quad_pos == 0 then some [] else none

abbrev pub emitted : ℕ → Option Bytes → Option Bytes
emitted b none = none
emitted b (some bs) = some (b ∷ bs)

-- One character of the alphabet: the byte it completes, and the next place.
abbrev pub decode_digit : Decoder → ℕ → Option ℕ × Decoder
decode_digit d v =
    if d.quad_pos == 0
    then (none, record { quad_pos = 1; left = v; pads = 0 })
    else if d.quad_pos == 1
    then (some ((d.left * 4 + v / 16) % 256), record { quad_pos = 2; left = v % 16; pads = 0 })
    else if d.quad_pos == 2
    then (some ((d.left * 16 + v / 4) % 256), record { quad_pos = 3; left = v % 4; pads = 0 })
    else (some ((d.left * 64 + v) % 256), record { quad_pos = 0; left = 0; pads = 0 })

abbrev pub emit : Option ℕ → Option Bytes → Option Bytes
emit none rest = rest
emit (some b) rest = emitted b rest

unfoldable pub decode_from : Decoder → Text → Option Bytes
decode_from d [] = finished d
decode_from d (c ∷ s) =
    let padded = decode_from (record d { pads = d.pads + 1 }) s in
    let skipped = decode_from d s in
    let (out, d') = decode_digit d (alphabet_value c) in
    let next = emit out (decode_from d' s) in
    if c == pad
    then (if leb 2 d.quad_pos && leb 4 (d.quad_pos + (d.pads + 1))
        then some []
        else if leb 2 d.quad_pos
        then padded
        else skipped)
    else if alphabet_value c == 64
    then skipped
    else next

-- `none` is the exception for text that is not ASCII or of a wrong length.
unfoldable pub b64decode : Text → Option Bytes
b64decode s =
    if all (λ c. ltb c 128) s
    then decode_from (record { quad_pos = 0; left = 0; pads = 0 }) s
    else none
