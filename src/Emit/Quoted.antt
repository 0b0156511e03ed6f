-- ===== src/Emit/Quoted.antt =====
-- Quoted text as YARA's lexer reads it, against the texts that the emitter puts between quotes.
use yaradec.Bytes.{IsByte, IsByte, Bytes}
use yaradec.Prelude.Text.{digit_char, digit_char, backslash, Text}
use mathlib.Core.List.{append_assoc}
use yaradec.QuotedText.{
  plain, read_quoted, digit_value, digit_value-digit_char, add_byte, as_number,
}
use yaradec.Emit.Escape.{escape_char, escape_text}
use yaradec.Prelude.{
  All, ◌==◌, leb, ltb, ◌++◌, ◌∷◌, [], some, ◌&&◌, inr, inl, ◌∙◌, ap, refl, ◌≡◌, ◌%◌, ◌/◌, ◌*◌, ◌+◌,
  ℕ, Bool-cases, arith,
}

read_quoted-escape_char :
    (b : ℕ) (t : Text)
    → IsByte b
    → read_quoted plain (escape_char b ++ t) ≡ add_byte (some b) (read_quoted plain t)
unfolding read_quoted escape_char
read_quoted-escape_char b t h = elim (Bool-cases (b == b'"')) [
  | inl e ↦ rw e (as_number b b'"' (read_quoted plain t) e)
  | inr e1 ↦ rw e1 (elim (Bool-cases (b == backslash)) [
    | inl e ↦ rw e (as_number b backslash (read_quoted plain t) e)
    | inr e2 ↦ rw e2 (elim (Bool-cases (b == 9)) [
      | inl e ↦ rw e (as_number b 9 (read_quoted plain t) e)
      | inr e3 ↦ rw e3 (elim (Bool-cases (b == 10)) [
        | inl e ↦ rw e (as_number b 10 (read_quoted plain t) e)
        | inr e4 ↦ rw e4 (elim (Bool-cases (b == 13)) [
          | inl e ↦ rw e (as_number b 13 (read_quoted plain t) e)
          | inr e5 ↦ rw e5 (elim (Bool-cases (leb 0x20 b && ltb b 0x7F)) [
            | inl printable ↦ rw printable (rw (e1, e2, printable) refl)
            | inr other ↦
                let high : digit_value (digit_char (b / 16)) ≡ b / 16 =
                  digit_value-digit_char (b / 16) (omega arith) in
                let low : digit_value (digit_char (b % 16)) ≡ b % 16 =
                  digit_value-digit_char (b % 16) (omega arith) in
                let whole : 16 * (b / 16) + b % 16 ≡ b = omega arith in
                rw other (rw (high, low) (rw whole refl))
          ])
        ])
      ])
    ])
  ])
]

-- Escaped bytes and a closing quote are read back as the bytes, and the rest is left.
pub read_quoted-escape_text :
    (bs : Bytes) (rest : Text)
    → All IsByte bs
    → read_quoted plain (escape_text bs ++ (b'"' ∷ rest)) ≡ some (bs, rest)
unfolding escape_text read_quoted
read_quoted-escape_text [] rest h = refl
read_quoted-escape_text (b ∷ bs) rest (h, hs) =
    ap (read_quoted plain) (append_assoc (escape_char b) (escape_text bs) (b'"' ∷ rest))
    ∙ read_quoted-escape_char b (escape_text bs ++ (b'"' ∷ rest)) h
    ∙ ap (add_byte (some b)) (read_quoted-escape_text bs rest hs)
