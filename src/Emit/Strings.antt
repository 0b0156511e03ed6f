-- ===== src/Emit/Strings.antt =====
-- `render_string_body`, `render_modifiers` and `render_regex_suffix` of emit.py.
use yaradec.Bytes.{Bytes}
use yaradec.Prelude.{
  length, ◌==◌, leb, ltb, ◌*◌, ◌+◌, if◌then◌else◌, ◌++◌, ◌∷◌, [], List, some, none, Option, ◌||◌,
  ◌&&◌, not, false, true, Bool, ℕ,
}
use yaradec.Prelude.Text.{Text, codes}
use yaradec.Constants.{has}
use yaradec.Constants.StringFlags
use yaradec.Parser.Structs.{YrString}
use yaradec.Emit.Escape.{escape_text, as_hex_bytes}
use yaradec.Emit.Warnings.{Warning, pattern_lost, xor_range_lost, base64_alphabet_lost}

-- The bytes that `looks_textual` takes for text.
abbrev pub is_textual : ℕ → Bool
is_textual b = leb 0x20 b && ltb b 0x7F || (b == 9 || b == 10 || b == 13)

abbrev pub count_textual : Bytes → ℕ
count_textual [] = 0
count_textual (b ∷ bs) = (if is_textual b then 1 else 0) + count_textual bs

-- `printable / len(data) >= 0.9`: for fewer than 2 ^ 49 bytes the rounding of the quotient does not
-- change the test.
unfoldable pub looks_textual : Bytes → Bool
looks_textual [] = false
looks_textual (b ∷ bs) = leb (9 * length (b ∷ bs)) (10 * count_textual (b ∷ bs))

abbrev pub body_unrendered : YrString → Text × List Warning
body_unrendered s =
    if has s.flags StringFlags.literal
    then (if has s.flags StringFlags.hexadecimal
        then (as_hex_bytes s.content, [])
        else (b'"' ∷ (escape_text s.content ++ codes "\""), []))
    else (codes "\"<unrecovered>\"", pattern_lost s.identifier ∷ [])

abbrev pub body_of : YrString → Option Text → Text × List Warning
body_of s (some text) = (text, [])
body_of s none = body_unrendered s

unfoldable pub render_string_body : YrString → Text × List Warning
render_string_body s = body_of s s.rendered

abbrev pub modifier : Bool → Text → List Text
modifier true name = name ∷ []
modifier false name = []

abbrev pub is_base64 : ℕ → Bool
is_base64 flags = has flags StringFlags.base64 || has flags StringFlags.base64_wide

abbrev pub is_hex : ℕ → Bool
is_hex flags = has flags StringFlags.hexadecimal && has flags StringFlags.literal

-- The names whose tests hold, in order.
abbrev pub named : List (Bool × Text) → List Text
named [] = []
named ((true, name) ∷ rows) = name ∷ named rows
named ((false, name) ∷ rows) = named rows

-- The modifiers of a string that is no hex string, each with its test.
abbrev pub modifier_rows : ℕ → List (Bool × Text)
modifier_rows flags =
    (
      has flags StringFlags.no_case && has flags StringFlags.literal && not (is_base64 flags),
      codes "nocase",
    )
    ∷ (has flags StringFlags.wide && not (is_base64 flags), codes "wide")
    ∷ (
      has flags StringFlags.ascii && has flags StringFlags.wide && not (is_base64 flags),
      codes "ascii",
    )
    ∷ (has flags StringFlags.full_word && not (is_base64 flags), codes "fullword")
    ∷ (has flags StringFlags.private, codes "private")
    ∷ (has flags StringFlags.xor && not (is_base64 flags), codes "xor")
    ∷ (has flags StringFlags.base64, codes "base64")
    ∷ (has flags StringFlags.base64_wide, codes "base64wide")
    ∷ []

unfoldable pub text_modifiers : ℕ → List Text
text_modifiers flags = named (modifier_rows flags)

abbrev pub noted : Bool → Warning → List Warning
noted true w = w ∷ []
noted false w = []

unfoldable pub render_modifiers : YrString → List Text × List Warning
render_modifiers s =
    if is_hex s.flags then (modifier (has s.flags StringFlags.private) (codes "private"), []) else (
      text_modifiers s.flags,
      noted (has s.flags StringFlags.xor && not (is_base64 s.flags)) (xor_range_lost s.identifier)
          ++ noted (has s.flags StringFlags.base64) (base64_alphabet_lost s.identifier),
    )

abbrev pub suffix_char : Bool → ℕ → Text
suffix_char true c = c ∷ []
suffix_char false c = []

-- Also `_regex_suffix` of decompile.py, which repeats it.
unfoldable pub render_regex_suffix : ℕ → Text
render_regex_suffix flags =
    suffix_char (has flags StringFlags.no_case) b'i'
    ++ suffix_char (has flags StringFlags.dot_all && has flags StringFlags.regexp) b's'
