-- ===== src/Code/Unescape.antt =====
-- The texts that `_escape_bytes` puts between quotes.
use mathlib.Core.List.{append_assoc}
use yaradec.QuotedText.{
  plain, read_quoted, digit_value, digit_value-digit_char, add_byte, as_number,
}
use yaradec.Prelude.{
  some, ◌&&◌, All, ◌==◌, leb, ltb, ◌++◌, ◌∷◌, [], Bool-cases, inl, inr, ◌≡◌, refl, ◌∙◌, ap, arith,
  ◌*◌, ◌+◌, ◌/◌, ◌%◌, ℕ,
}
use yaradec.Prelude.Text.{digit_char, Text, backslash}
use yaradec.Bytes.{Bytes, IsByte}
use yaradec.Code.Literals.{escape_byte, escape_bytes}

read_quoted-escape_byte :
    (b : ℕ) (t : Text)
    → IsByte b
    → read_quoted plain (escape_byte b ++ t) ≡ add_byte (some b) (read_quoted plain t)
unfolding read_quoted escape_byte
read_quoted-escape_byte b t h = elim (Bool-cases (b == b'"')) [
  | inl e ↦ rw e (as_number b b'"' (read_quoted plain t) e)
  | inr e1 ↦ rw e1 (elim (Bool-cases (b == backslash)) [
    | inl e ↦ rw e (as_number b backslash (read_quoted plain t) e)
    | inr e2 ↦ rw e2 (elim (Bool-cases (leb 0x20 b && ltb b 0x7F)) [
      | inl printable ↦ rw printable (rw (e1, e2, printable) refl)
      | inr other ↦
          let high : digit_value (digit_char (b / 16)) ≡ b / 16 =
            digit_value-digit_char (b / 16) (omega arith) in
          let low : digit_value (digit_char (b % 16)) ≡ b % 16 =
            digit_value-digit_char (b % 16) (omega arith) in
          let whole : 16 * (b / 16) + b % 16 ≡ b = omega arith in
          rw other (rw (high, low) (rw whole refl))
    ])
  ])
]

-- What `_escape_bytes` writes of bytes, with a quote behind it, is read as a quoted text that stands
-- for exactly these bytes and ends at that quote, whatever follows.
pub read_quoted-escape_bytes :
    (bs : Bytes) (rest : Text)
    → All IsByte bs
    → read_quoted plain (escape_bytes bs ++ (b'"' ∷ rest)) ≡ some (bs, rest)
unfolding escape_bytes read_quoted
read_quoted-escape_bytes [] rest h = refl
read_quoted-escape_bytes (b ∷ bs) rest (h, hs) =
    ap (read_quoted plain) (append_assoc (escape_byte b) (escape_bytes bs) (b'"' ∷ rest))
    ∙ read_quoted-escape_byte b (escape_bytes bs ++ (b'"' ∷ rest)) h
    ∙ ap (add_byte (some b)) (read_quoted-escape_bytes bs rest hs)
