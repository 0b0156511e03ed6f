-- ===== src/Decompile/Patterns.antt =====
-- `_recover_patterns` of decompile.py.
use yaradec.Prelude.{
  any, length, if◌then◌else◌, ◌==◌, leb, ◌++◌, ◌∷◌, [], List, some, none, Option, ◌&&◌, false, true,
  Bool, suc, ℕ,
}
use yaradec.Prelude.Text.{Text, codes}
use yaradec.Result.{Result, ok, err, ◌>>=◌, map_ok}
use yaradec.Bytes.{Bytes}
use yaradec.Arena.{Arena}
use yaradec.Arena.Access.{buffer}
use yaradec.Constants.{has}
use yaradec.Constants.Section
use yaradec.Constants.StringFlags
use yaradec.Code.Bodies.{dict_get}
use yaradec.RePattern.Decode.{ReInstr}
use yaradec.RePattern.Programs.{
  segment_programs, program_containing, disassemble_program, literal_runs,
}
use yaradec.RePattern.Hex.{render_hex}
use yaradec.RePattern.Regex.{render_regex}
use yaradec.B64.{recover}
use yaradec.Acmatch.{StringCode, CodeMap, collect_string_code}
use yaradec.Parser.Structs.{YrString}
use yaradec.Emit.Escape.{escape_text}
use yaradec.Emit.Strings.{render_regex_suffix, is_base64}
use yaradec.Emit.Warnings.{
  Warning, no_match_entry, outside_programs, base64_unrecovered, approximate, undecodable,
  several_programs,
}

-- What the result depends on in the interpreter: `repr` of the double with given bits, the depth at
-- which the recursion limit stops the regexp renderer, and the order in which a set of texts that is
-- made of a list is run through.
pub record Runtime : Type 0 where
  pub double_repr : ℕ → Text
  pub regex_limit : ℕ
  pub set_order : List Text → List Text

unfoldable pub insert_offset : ℕ → List ℕ → List ℕ
insert_offset x [] = x ∷ []
insert_offset x (y ∷ ys) = let rest = insert_offset x ys in if leb x y then x ∷ y ∷ ys else y ∷ rest

-- `sorted(entry.forward)`
unfoldable pub sort_offsets : List ℕ → List ℕ
sort_offsets [] = []
sort_offsets (x ∷ xs) = insert_offset x (sort_offsets xs)

abbrev pub has_segment : ℕ × ℕ → List (ℕ × ℕ) → Bool
has_segment s segs = any (λ (t : ℕ × ℕ). t.0 == s.0 && t.1 == s.1) segs

abbrev pub add_segment : Option (ℕ × ℕ) → List (ℕ × ℕ) → List (ℕ × ℕ)
add_segment none segs = segs
add_segment (some s) segs = if has_segment s segs then segs else segs ++ (s ∷ [])

-- The distinct segments that hold the offsets.
unfoldable pub segments_of : List (ℕ × ℕ) → List ℕ → List (ℕ × ℕ) → List (ℕ × ℕ)
segments_of segments [] segs = segs
segments_of segments (off ∷ offs) segs =
    segments_of segments offs (add_segment (program_containing segments off) segs)

-- The texts of a pattern's programs, whether all are exact, and what there is to warn of.
pub record Rendering : Type 0 where
  pub texts : List Text
  pub exact : Bool
  pub warnings : List Warning

abbrev pub as_regex : YrString → Text → Text
as_regex s text = b'/' ∷ (text ++ (b'/' ∷ render_regex_suffix s.flags))

abbrev pub add_text : Text → Bool → Rendering → Rendering
add_text text full r = record {
  texts = text ∷ r.texts;
  exact = full && r.exact;
  warnings = r.warnings;
}

abbrev pub add_regex : YrString → Result (Text × Bool) → Result Rendering → Result Rendering
add_regex s (err e) rest = err e
add_regex s (ok (text, full)) rest = map_ok (add_text (as_regex s text) full) rest

abbrev pub hex_or_regex :
    ℕ → YrString → List ReInstr → Option Text → Result Rendering → Result Rendering
hex_or_regex limit s instrs (some text) rest = map_ok (add_text text true) rest
hex_or_regex limit s instrs none rest = add_regex s (render_regex limit instrs) rest

abbrev pub hex_text : YrString → List ReInstr → Option Text
hex_text s instrs = if has s.flags StringFlags.hexadecimal then render_hex instrs else none

-- One program; what cannot be decoded is noted and left out.
abbrev pub add_program : ℕ → YrString → Result (List ReInstr) → Result Rendering → Result Rendering
add_program limit s (err e) rest =
    map_ok
      (λ (r : Rendering). record r {
        exact = false;
        warnings = undecodable s.identifier e ∷ r.warnings;
      })
      rest
add_program limit s (ok instrs) rest = hex_or_regex limit s instrs (hex_text s instrs) rest

unfoldable pub render_programs : ℕ → Bytes → YrString → List (ℕ × ℕ) → Result Rendering
render_programs limit re_code s [] = ok (record { texts = []; exact = true; warnings = [] })
render_programs limit re_code s (seg ∷ segs) =
    add_program limit s (disassemble_program re_code seg.0) (render_programs limit re_code s segs)

abbrev pub runs_or_none : Result (List ReInstr) → List Text
runs_or_none (err e) = []
runs_or_none (ok instrs) = literal_runs instrs

unfoldable pub permutations : Bytes → List (ℕ × ℕ) → List Text
permutations re_code [] = []
permutations re_code (seg ∷ segs) =
    runs_or_none (disassemble_program re_code seg.0) ++ permutations re_code segs

abbrev pub recover_plaintext : Runtime → List Text → Option Bytes
recover_plaintext rt [] = none
recover_plaintext rt (p ∷ ps) = recover (rt.set_order (p ∷ ps)) 2

abbrev pub several : Text → List Text → List Warning
several identifier [] = []
several identifier (t ∷ texts) = several_programs identifier (suc (length (t ∷ texts))) ∷ []

abbrev pub if_inexact : Bool → Text → List Warning
if_inexact true identifier = []
if_inexact false identifier = approximate identifier ∷ []

-- The first text stands for the pattern.
abbrev pub choose_first :
    YrString → Text → List Text → Bool → List Warning → YrString × List Warning
choose_first s text more exact warnings = (
  record s { rendered = some text },
  warnings ++ (several s.identifier more ++ if_inexact exact s.identifier),
)

abbrev pub choose_base64 :
    YrString → Text → List Text → Rendering → Option Bytes → YrString × List Warning
choose_base64 s text more r (some plaintext) =
    (record s { rendered = some (b'"' ∷ (escape_text plaintext ++ codes "\"")) }, r.warnings)
choose_base64 s text more r none =
    choose_first s text more r.exact (r.warnings ++ (base64_unrecovered s.identifier ∷ []))

abbrev pub choose :
    Runtime → Bytes → List (ℕ × ℕ) → YrString → Rendering → List Text → YrString × List Warning
choose rt re_code segs s r [] = (s, r.warnings)
choose rt re_code segs s r (text ∷ more) =
    if is_base64 s.flags
    then choose_base64 s text more r (recover_plaintext rt (permutations re_code segs))
    else choose_first s text more r.exact r.warnings

-- A pattern from the segments of its programs.
abbrev pub from_segments :
    Runtime → Bytes → YrString → List (ℕ × ℕ) → Result (YrString × List Warning)
from_segments rt re_code s [] = ok (s, outside_programs s.identifier ∷ [])
from_segments rt re_code s (seg ∷ segs) =
    map_ok (λ (r : Rendering). choose rt re_code (seg ∷ segs) s r r.texts)
      (render_programs rt.regex_limit re_code s (seg ∷ segs))

abbrev pub forward_of : Option StringCode → List ℕ
forward_of none = []
forward_of (some entry) = entry.forward

abbrev pub from_offsets :
    Runtime → Bytes → List (ℕ × ℕ) → YrString → List ℕ → Result (YrString × List Warning)
from_offsets rt re_code segments s [] = ok (s, no_match_entry s.identifier ∷ [])
from_offsets rt re_code segments s (off ∷ offs) =
    from_segments rt re_code s (segments_of segments (sort_offsets (off ∷ offs)) [])

-- One round of the loop over the strings.
unfoldable pub recover_pattern :
    Runtime → Bytes → List (ℕ × ℕ) → CodeMap → YrString → Result (YrString × List Warning)
recover_pattern rt re_code segments code_map s =
    if has s.flags StringFlags.literal
    then ok (s, [])
    else from_offsets rt re_code segments s (forward_of (dict_get code_map s.index))

unfoldable pub recover_each :
    (YrString → Result (YrString × List Warning))
    → List YrString
    → Result (List YrString × List Warning)
recover_each f [] = ok ([], [])
recover_each f (s ∷ ss) = f s >>= λ (one : YrString × List Warning).
    map_ok (λ (more : List YrString × List Warning). (one.0 ∷ more.0, one.1 ++ more.1))
      (recover_each f ss)

abbrev pub with_re_code :
    Runtime → Arena → List YrString → Bytes → Result (List YrString × List Warning)
with_re_code rt a strings [] = ok (strings, [])
with_re_code rt a strings (b ∷ bs) = collect_string_code a >>= λ code_map.
    recover_each (recover_pattern rt (b ∷ bs) (segment_programs (b ∷ bs)) code_map) strings

-- The strings with their `rendered` filled in, and the warnings.
unfoldable pub recover_patterns :
    Runtime → Arena → List YrString → Result (List YrString × List Warning)
recover_patterns rt a strings =
    buffer a Section.re_code_section >>= λ re_code. with_re_code rt a strings re_code
