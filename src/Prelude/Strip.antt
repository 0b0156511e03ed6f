-- ===== src/Prelude/Strip.antt =====
-- `str.strip`, `rstrip` and the padding of Python's formats.
use yaradec.Prelude.{◌==◌, ◌||◌, ◌&&◌, length, ◌-◌, leb, ◌++◌, Bool, suc, replicate, ◌∷◌, ℕ}
use yaradec.Prelude.{
  ℕ, suc, ◌-◌, [], ◌∷◌, ◌++◌, Bool, ◌&&◌, ◌||◌, leb, ◌==◌, if◌then◌else◌, replicate, length,
}
use yaradec.Prelude.Int.{ℤ, pos, negsuc}
use yaradec.Prelude.Text.{Text, show_dec, digits_of, digit_char}

-- `ch.isspace()`, as the argument-free `strip` reads it.
abbrev pub is_space : ℕ → Bool
is_space c =
    (leb 9 c && leb c 13)
    || (leb 28 c && leb c 32)
    || c == 0x85
    || c == 0xA0
    || c == 0x1680
    || (leb 0x2000 c && leb c 0x200A)
    || c == 0x2028
    || c == 0x2029
    || c == 0x202F
    || c == 0x205F
    || c == 0x3000

abbrev pub strip_end : ℕ → Text → Text
strip_end c [] = if is_space c then [] else c ∷ []
strip_end c (d ∷ s) = c ∷ d ∷ s

-- `s.rstrip()`
unfoldable pub rstrip : Text → Text
rstrip [] = []
rstrip (c ∷ s) = strip_end c (rstrip s)

-- `s.lstrip()`
unfoldable pub lstrip : Text → Text
lstrip [] = []
lstrip (c ∷ s) = let rest = lstrip s in if is_space c then rest else c ∷ s

-- `s.strip()`
unfoldable pub strip : Text → Text
strip s = lstrip (rstrip s)

-- `f"{s:>w}"` with a filling, and `f"{s:<w}"`.
abbrev pub pad_left : ℕ → ℕ → Text → Text
pad_left fill w s = replicate (w - length s) fill ++ s

abbrev pub pad_right : ℕ → Text → Text
pad_right w s = s ++ replicate (w - length s) b' '

-- `f"{n:x}"`
unfoldable pub show_hex : ℕ → Text
show_hex n = digits_of digit_char 16 (suc n) n

-- `str(i)`
abbrev pub show_ℤ : ℤ → Text
show_ℤ (pos n) = show_dec n
show_ℤ (negsuc n) = b'-' ∷ show_dec (suc n)
