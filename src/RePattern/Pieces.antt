-- ===== src/RePattern/Pieces.antt =====
-- `_Piece`, `_needs_group`, `_merge_pieces` and `_format_pieces` of repattern.py.
use yaradec.Prelude.{
  any, take, length, if◌then◌else◌, ◌==◌, leb, map, ◌++◌, ◌∷◌, [], List, ◌||◌, ◌&&◌, not, false,
  true, Bool, ◌-◌, ◌+◌, ℕ,
}
use mathlib.Core.List.{foldl, reverse}
use yaradec.Prelude.Text.{Text, codes, text_eq, concat, show_dec, backslash}
use yaradec.RePattern.Hex.{inf}

pub record Piece : Type 0 where
  pub base : Text
  pub lo : ℕ
  pub hi : ℕ
  pub greedy : Bool
  pub atomic : Bool

-- `_Piece(base, lo, hi, greedy)`
abbrev pub piece : Text → ℕ → ℕ → Bool → Piece
piece base lo hi greedy = record { base = base; lo = lo; hi = hi; greedy = greedy; atomic = false }

abbrev same_bool : Bool → Bool → Bool
same_bool true b = b
same_bool false b = not b

abbrev first_is : ℕ → Text → Bool
first_is c [] = false
first_is c (d ∷ s) = d == c

abbrev last_is : ℕ → Text → Bool
last_is c [] = false
last_is c (d ∷ []) = d == c
last_is c (d ∷ e ∷ s) = last_is c (e ∷ s)

-- `c in base[1:-1]`
abbrev inside_has : ℕ → Text → Bool
inside_has c [] = false
inside_has c (d ∷ s) = any (λ e. e == c) (take (length s - 1) s)

abbrev second_is : ℕ → Text → Bool
second_is c [] = false
second_is c (d ∷ s) = first_is c s

unfoldable pub needs_group : Text → Bool
needs_group base =
    if length base == 1
    then false
    else if length base == 2 && first_is backslash base
    then false
    else if first_is b'[' base && last_is b']' base && not (inside_has b']' base)
    then false
    else if first_is b'(' base && last_is b')' base
    then false
    else if first_is backslash base && second_is b'x' base && length base == 4
    then false
    else true

-- The test that two neighbours fold.
unfoldable pub folds : Piece → Piece → Bool
folds prev p =
    text_eq prev.base p.base
    && same_bool prev.greedy p.greedy
    && not (text_eq p.base [])
    && not (prev.lo == 1 && prev.hi == 1 && (p.lo == 1 && p.hi == 1))

unfoldable pub fold_two : Piece → Piece → Piece
fold_two prev p = record {
  base = prev.base;
  lo = prev.lo + p.lo;
  hi = if prev.hi == inf || p.hi == inf then inf else prev.hi + p.hi;
  greedy = prev.greedy;
  atomic = prev.atomic;
}

-- One round of the loop; `out` stands in reverse.
unfoldable pub merge_step : List Piece → Piece → List Piece
merge_step [] p = p ∷ []
merge_step (prev ∷ out) p = if folds prev p then fold_two prev p ∷ out else p ∷ prev ∷ out

unfoldable pub merge_pieces : List Piece → List Piece
merge_pieces pieces = reverse (foldl merge_step [] pieces)

unfoldable pub quantifier : ℕ → ℕ → Text
quantifier lo hi =
    if lo == 0 && hi == 1
    then codes "?"
    else if lo == 0 && leb inf hi
    then codes "*"
    else if lo == 1 && leb inf hi
    then codes "+"
    else if leb inf hi
    then b'{' ∷ (show_dec lo ++ codes ",}")
    else if lo == hi
    then b'{' ∷ (show_dec lo ++ codes "}")
    else b'{' ∷ (show_dec lo ++ (b',' ∷ (show_dec hi ++ codes "}")))

unfoldable pub format_piece : Piece → Text
format_piece p =
    if text_eq p.base []
    then []
    else if p.lo == 1 && p.hi == 1
    then p.base
    else (if needs_group p.base && not p.atomic then b'(' ∷ (p.base ++ codes ")") else p.base)
      ++ (quantifier p.lo p.hi ++ (if p.greedy then [] else codes "?"))

unfoldable pub format_pieces : List Piece → Text
format_pieces pieces = concat (map format_piece pieces)
