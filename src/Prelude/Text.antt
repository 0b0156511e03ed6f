-- ===== src/Prelude/Text.antt =====
-- Python texts as lists of code points, with the parts of `str` and of the format language that
-- the program uses.
use Prim.Native.Nat.{ℕ, zero, suc, ◌+◌, ◌-◌, ◌/◌, ◌%◌}
use Prim.Native.Char.{code}
use Prim.Native.String.{String}
use mathlib.Core.Path.{◌≡◌, refl}
use mathlib.Core.Logic.{◌↔◌}
use mathlib.Core.Bool.{Bool, true, false, ◌&&◌}
use mathlib.Core.List.{List, [], ◌∷◌, ◌++◌}
use native.Mathlib.Omega.{arith}
use yaradec.Prelude.Tests.{ltb, ◌==◌, if◌then◌else◌}

abbrev pub Text : Type 0
Text = List ℕ

-- The code points of a literal.
abbrev pub codes : String → Text
codes String.[] = []
codes (String.◌∷◌ c s) = code c ∷ codes s

abbrev pub text_eq : Text → Text → Bool
text_eq [] [] = true
text_eq [] (d ∷ t) = false
text_eq (c ∷ s) [] = false
text_eq (c ∷ s) (d ∷ t) = c == d && text_eq s t

pub text_eq_iff : (s t : Text) → (text_eq s t ≡ true) ↔ (s ≡ t)
text_eq_iff [] [] = (λ _. refl, λ _. refl)
text_eq_iff [] (d ∷ t) = (λ e. cc, λ e. cc)
text_eq_iff (c ∷ s) [] = (λ e. cc, λ e. cc)
text_eq_iff (c ∷ s) (d ∷ t) =
    let (to, from) = text_eq_iff s t in (λ e. ground (arith, to), λ e. ground (arith, from))

-- `sep.join(parts)`
abbrev pub join : Text → List Text → Text
join sep [] = []
join sep (p ∷ []) = p
join sep (p ∷ q ∷ ps) = p ++ (sep ++ join sep (q ∷ ps))

abbrev pub concat : List Text → Text
concat [] = []
concat (p ∷ ps) = p ++ concat ps

-- `s.lstrip("$")`
unfoldable pub lstrip_dollar : Text → Text
lstrip_dollar [] = []
lstrip_dollar (c ∷ s) = if c == b'$' then lstrip_dollar s else c ∷ s

-- One digit in a base up to 16, in lower and in upper case.
abbrev pub digit_char : ℕ → ℕ
digit_char d = if ltb d 10 then b'0' + d else b'a' + (d - 10)

abbrev pub upper_digit_char : ℕ → ℕ
upper_digit_char d = if ltb d 10 then b'0' + d else b'A' + (d - 10)

-- The digits of `n` in `base`, most significant first. The fuel is the number of divisions left.
unfoldable pub digits_of : (ℕ → ℕ) → ℕ → ℕ → ℕ → Text
digits_of char base zero n = []
digits_of char base (suc f) n =
    let more = digits_of char base f (n / base) ++ (char (n % base) ∷ []) in
    if ltb n base then char n ∷ [] else more

-- `str(n)`, `f"{n:X}"`; `n` divisions are more than enough.
unfoldable pub show_dec : ℕ → Text
show_dec n = digits_of digit_char 10 (suc n) n

unfoldable pub show_upper_hex : ℕ → Text
show_upper_hex n = digits_of upper_digit_char 16 (suc n) n

-- `f"{b:02x}"` and `f"{b:02X}"` of a byte.
abbrev pub hex2 : ℕ → Text
hex2 b = digit_char (b / 16) ∷ digit_char (b % 16) ∷ []

abbrev pub upper_hex2 : ℕ → Text
upper_hex2 b = upper_digit_char (b / 16) ∷ upper_digit_char (b % 16) ∷ []

abbrev pub backslash : ℕ
backslash = 0x5C
