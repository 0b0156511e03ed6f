-- ===== src/RePattern/CharClass.antt =====
-- `_class_to_str` and `_lit_regex` of repattern.py.
use yaradec.Prelude.{
  any, get_elem?, length, if◌then◌else◌, ◌==◌, leb, ltb, map, ◌++◌, ◌∷◌, [], List, some, none,
  Option, ◌&&◌, not, false, true, Bool, ◌^◌, ◌%◌, ◌/◌, ◌+◌, suc, ℕ, zero,
}
use mathlib.Core.List.{foldl, reverse}
use yaradec.Prelude.Text.{backslash, Text, codes, concat, hex2}
use yaradec.Bytes.{Bytes}
use yaradec.Constants.{has}

abbrev byte_or_zero : Option ℕ → ℕ
byte_or_zero (some b) = b
byte_or_zero none = 0

-- `bitmap[c // 8] & (1 << (c % 8))`; a bitmap that was decoded has 32 bytes, so every index is there.
unfoldable pub in_bitmap : Bytes → ℕ → Bool
in_bitmap bitmap c = has (byte_or_zero (get_elem? bitmap (c / 8))) (2 ^ (c % 8))

-- `[c for c in range(n) if p(c)]`, with `c` counted up to the end.
unfoldable pub select_from : (ℕ → Bool) → ℕ → ℕ → List ℕ
select_from p c zero = []
select_from p c (suc n) = let rest = select_from p (suc c) n in if p c then c ∷ rest else rest

unfoldable pub members : Bytes → List ℕ
members bitmap = select_from (in_bitmap bitmap) 0 256

unfoldable pub has_member : List ℕ → ℕ → Bool
has_member cs c = any (λ d. d == c) cs

-- One round of the loop that builds `ranges`, whose last range stands first here.
unfoldable pub extend : List (ℕ × ℕ) → ℕ → List (ℕ × ℕ)
extend [] c = (c, c) ∷ []
extend ((a, b) ∷ ranges) c = if c == b + 1 then (a, c) ∷ ranges else (c, c) ∷ (a, b) ∷ ranges

unfoldable pub ranges_of : List ℕ → List (ℕ × ℕ)
ranges_of cs = reverse (foldl extend [] cs)

-- `esc`
unfoldable pub esc : ℕ → Text
esc c =
    if any (λ d. d == c) (codes "\\]^-/[")
    then backslash ∷ c ∷ []
    else if leb 0x20 c && ltb c 0x7F
    then c ∷ []
    else codes "\\x" ++ hex2 c

unfoldable pub range_text : ℕ × ℕ → Text
range_text (a, b) =
    if a == b then esc a else if b == a + 1 then esc a ++ esc b else esc a ++ (b'-' ∷ esc b)

-- The set that is listed, and whether it is the complement.
unfoldable pub listed : Bytes → Bool × List ℕ
listed bitmap =
    let set = members bitmap in
    if ltb 128 (length set)
    then (true, select_from (λ c. not (has_member set c)) 0 256)
    else (false, set)

unfoldable pub class_body : Bool × List ℕ → Text
class_body (invert, cs) =
    b'['
    ∷ ((if invert then b'^' ∷ [] else [])
        ++ (concat (map range_text (ranges_of cs)) ++ (b']' ∷ [])))

unfoldable pub class_to_str : Bytes → Bool → Text
class_to_str bitmap negated =
    if length (members bitmap) == 0
    then codes "[^\\x00-\\xff]"
    else if length (members bitmap) == 256
    then codes "."
    else class_body (listed bitmap)

-- `_REGEX_META`
abbrev pub regex_meta : Text
regex_meta = codes ".^$*+?()[]{}|\\/"

unfoldable pub lit_regex : ℕ → Text
lit_regex c =
    if any (λ d. d == c) regex_meta
    then backslash ∷ c ∷ []
    else if leb 0x20 c && ltb c 0x7F
    then c ∷ []
    else if c == 9
    then codes "\\t"
    else if c == 10
    then codes "\\n"
    else if c == 13
    then codes "\\r"
    else codes "\\x" ++ hex2 c
