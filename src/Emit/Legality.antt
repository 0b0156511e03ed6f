-- ===== src/Emit/Legality.antt =====
-- The string definitions that `render_string_body` and `render_modifiers` write, held against what
-- YARA's parser takes.
use yaradec.Bytes.{IsByte}
use yaradec.Prelude.Text.{text_eq, codes, text_eq, codes, Text}
use yaradec.Constants.{has}
use yaradec.Constants.StringFlags
use yaradec.Parser.Structs.{YrString}
use yaradec.Emit.Escape.{escape_text}
use yaradec.Emit.Quoted.{read_quoted-escape_text}
use yaradec.QuotedText.{plain, read_quoted}
use yaradec.Emit.Strings.{
  render_string_body, render_modifiers, text_modifiers, named, modifier_rows, is_base64,
}
use yaradec.Prelude.{
  ◌⊎◌, ℕ, some, All, all, any, ◌++◌, ◌∷◌, [], List, none, ◌||◌, ◌&&◌, not, false, true, Bool, inr,
  inl, refl, ◌≡◌, Bool-cases, arith,
}

-- The body of a literal that is no hex string and was not rendered otherwise is a quoted text, which
-- YARA reads as exactly the string's bytes, and there is no warning.
pub read_quoted-render_string_body :
    (s : YrString)
    → s.rendered ≡ none
    → has s.flags StringFlags.literal ≡ true
    → has s.flags StringFlags.hexadecimal ≡ false
    → All IsByte s.content
    → (text : Text) × (render_string_body s ≡ (b'"' ∷ text, []))
      × (read_quoted plain text ≡ some (s.content, []))
unfolding render_string_body
read_quoted-render_string_body s fresh literal textual bytes = (
  escape_text s.content ++ codes "\"",
  rw (fresh, literal, textual) refl,
  read_quoted-escape_text s.content [] bytes,
)

abbrev is_one_of : List Text → Text → Bool
is_one_of ms m = any (text_eq m) ms

abbrev is_base64_word : Text → Bool
is_base64_word m = is_one_of (codes "base64" ∷ codes "base64wide" ∷ []) m

abbrev is_restricted : Text → Bool
is_restricted m =
    is_one_of (codes "nocase" ∷ codes "wide" ∷ codes "ascii" ∷ codes "fullword" ∷ codes "xor" ∷ [])
      m

-- A hex string takes `private` alone; `base64` and `base64wide` go with none of the restricted ones,
-- and `xor` does not go with `nocase`.
abbrev pub is_legal : Bool → List Text → Bool
is_legal hex mods =
    (not hex || all (is_one_of (codes "private" ∷ [])) mods)
    && (not (any is_base64_word mods && any is_restricted mods)
        && not (any (text_eq (codes "nocase")) mods && any (text_eq (codes "xor")) mods))

-- The flags that stand for a modifier which no hex string can have had in its source.
abbrev pub other_modifiers : ℕ → Bool
other_modifiers flags =
    has flags StringFlags.wide
    || (has flags StringFlags.full_word
        || (has flags StringFlags.xor
            || (has flags StringFlags.base64 || has flags StringFlags.base64_wide)))

-- A name is missing where its test fails or where it is not looked for.
any-named :
    (p : Text → Bool) (rows : List (Bool × Text))
    → All (λ (r : Bool × Text). (r.0 ≡ false) ⊎ (p r.1 ≡ false)) rows
    → any p (named rows) ≡ false
any-named p [] h = refl
any-named p ((false, name) ∷ rows) (why, h) = any-named p rows h
any-named p ((true, name) ∷ rows) (inl off, h) = cc
any-named p ((true, name) ∷ rows) (inr other, h) = rw other (any-named p rows h)

and_right : (a b : Bool) → b ≡ false → (a && b) ≡ false
and_right true b h = h
and_right false b h = refl

and_left : (a b : Bool) → a ≡ false → (a && b) ≡ false
and_left true b h = cc
and_left false b h = refl

middle : (a b : Bool) → (a && false && b) ≡ false
middle true b = refl
middle false b = refl

both_parts : (a b : Bool) → a ≡ true → b ≡ true → (a && b) ≡ true
both_parts true b h k = k
both_parts false b h k = cc

none_of :
    (a b c d e : Bool)
    → (a || (b || (c || (d || e)))) ≡ false
    → (a ≡ false) × (b ≡ false) × (c ≡ false) × (d ≡ false) × (e ≡ false)
none_of true b c d e h = cc
none_of false true c d e h = cc
none_of false false true d e h = cc
none_of false false false true e h = cc
none_of false false false false e h = (refl, refl, refl, refl, h)

off : (a b : Bool) → b ≡ true → (a && not b) ≡ false
off true b e = ground arith
off false b e = refl

any-text_modifiers_restricted :
    (flags : ℕ) → is_base64 flags ≡ true → any is_restricted (text_modifiers flags) ≡ false
unfolding text_modifiers
any-text_modifiers_restricted flags e = any-named is_restricted (modifier_rows flags) (
  inl (off (has flags StringFlags.no_case && has flags StringFlags.literal) (is_base64 flags) e),
  (
    inl (off (has flags StringFlags.wide) (is_base64 flags) e),
    (
      inl (off (has flags StringFlags.ascii && has flags StringFlags.wide) (is_base64 flags) e),
      (
        inl (off (has flags StringFlags.full_word) (is_base64 flags) e),
        (
          inr refl,
          (inl (off (has flags StringFlags.xor) (is_base64 flags) e), (inr refl, (inr refl, tt))),
        ),
      ),
    ),
  ),
)

any-text_modifiers_base64 :
    (flags : ℕ) → is_base64 flags ≡ false → any is_base64_word (text_modifiers flags) ≡ false
unfolding text_modifiers
any-text_modifiers_base64 flags e = any-named is_base64_word (modifier_rows flags) (
  inr refl,
  (
    inr refl,
    (inr refl, (inr refl, (inr refl, (inr refl, (inl (ground arith), (inl (ground arith), tt)))))),
  ),
)

any-text_modifiers_apart :
    (flags : ℕ)
    → (has flags StringFlags.no_case && has flags StringFlags.xor) ≡ false
    → (any (text_eq (codes "nocase")) (text_modifiers flags)
        && any (text_eq (codes "xor")) (text_modifiers flags))
      ≡ false
unfolding text_modifiers
any-text_modifiers_apart flags h = elim (Bool-cases (has flags StringFlags.no_case)) [
  | inl e ↦
      let calm : has flags StringFlags.xor ≡ false = ground arith in
      and_right _ _ (
        any-named (text_eq (codes "xor")) (modifier_rows flags) (
          inr refl,
          (
            inr refl,
            (inr refl, (inr refl, (inr refl, (inl (rw calm refl), (inr refl, (inr refl, tt)))))),
          ),
        ))
  | inr e ↦ and_left _ _ (
      any-named (text_eq (codes "nocase")) (modifier_rows flags) (
        inl (rw e refl),
        (inr refl, (inr refl, (inr refl, (inr refl, (inr refl, (inr refl, (inr refl, tt))))))),
      ))
]

all-named :
    (p : Text → Bool) (rows : List (Bool × Text))
    → All (λ (r : Bool × Text). (r.0 ≡ false) ⊎ (p r.1 ≡ true)) rows
    → all p (named rows) ≡ true
all-named p [] h = refl
all-named p ((false, name) ∷ rows) (why, h) = all-named p rows h
all-named p ((true, name) ∷ rows) (inl off, h) = cc
all-named p ((true, name) ∷ rows) (inr same, h) = rw same (all-named p rows h)

-- What is left of a hex string that is no literal, as one with wildcards.
all-text_modifiers_private :
    (flags : ℕ)
    → has flags StringFlags.literal ≡ false
    → other_modifiers flags ≡ false
    → all (is_one_of (codes "private" ∷ [])) (text_modifiers flags) ≡ true
unfolding text_modifiers
all-text_modifiers_private flags l h =
    let (w, f, x, b, bw) =
      none_of (has flags StringFlags.wide) (has flags StringFlags.full_word)
        (has flags StringFlags.xor) (has flags StringFlags.base64)
        (has flags StringFlags.base64_wide) h in
    all-named (is_one_of (codes "private" ∷ [])) (modifier_rows flags) (
      inl (rw l (middle (has flags StringFlags.no_case) _)),
      (
        inl (rw w refl),
        (
          inl (rw w (middle (has flags StringFlags.ascii) _)),
          (inl (rw f refl), (inr refl, (inl (rw x refl), (inl b, (inl bw, tt))))),
        ),
      ),
    )

legal_together :
    (flags : ℕ)
    → (has flags StringFlags.no_case && has flags StringFlags.xor) ≡ false
    → is_legal false (text_modifiers flags) ≡ true
legal_together flags h = elim (Bool-cases (is_base64 flags)) [
  | inl e ↦ ground (arith, any-text_modifiers_restricted flags e, any-text_modifiers_apart flags h)
  | inr e ↦ ground (arith, any-text_modifiers_base64 flags e, any-text_modifiers_apart flags h)
]

-- The modifiers of a string are such as YARA takes together: a string with the hex flag, a literal or
-- not, has at most `private`, `base64` and `base64wide` go with none of `nocase`, `wide`, `ascii`,
-- `fullword` and `xor`, and `nocase` does not go with `xor`. The flags are such as a source can lead
-- to: never the nocase flag with the xor flag, and on a hex string that is no literal none of the
-- flags wide, fullword, xor, base64 and base64wide.
pub render_modifiers-is_legal :
    (s : YrString)
    → (has s.flags StringFlags.no_case && has s.flags StringFlags.xor) ≡ false
    → (has s.flags StringFlags.hexadecimal
        && (not (has s.flags StringFlags.literal) && other_modifiers s.flags))
      ≡ false
    → is_legal (has s.flags StringFlags.hexadecimal) (render_modifiers s).0 ≡ true
unfolding render_modifiers
render_modifiers-is_legal s apart wild = elim (Bool-cases (has s.flags StringFlags.hexadecimal)) [
  | inr textual ↦ rw textual (legal_together s.flags apart)
  | inl hex ↦ elim (Bool-cases (has s.flags StringFlags.literal)) [
    | inl lit ↦
        rw (hex, lit)
          (elim (Bool-cases (has s.flags StringFlags.private)) [
            | inl e ↦ rw e refl
            | inr e ↦ rw e refl
          ])
    | inr lit ↦
        let few : other_modifiers s.flags ≡ false = rw (hex, lit) at wild in
        let only = all-text_modifiers_private s.flags lit few in
        let rest = legal_together s.flags apart in rw (hex, lit) (both_parts _ _ only rest)
  ]
]
