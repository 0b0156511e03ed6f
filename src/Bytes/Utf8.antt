-- ===== src/Bytes/Utf8.antt =====
-- `bytes.decode("utf-8", errors="replace")`: one U+FFFD for each maximal part of a sequence that is
-- not well formed.
use yaradec.Prelude.{
  ℕ, ◌+◌, ◌-◌, ◌*◌, ◌<◌, ◌≡◌, refl, ◌&&◌, [], ◌∷◌, ◌++◌, ltb, leb, ◌==◌, if◌then◌else◌, All, arith,
}
use yaradec.Bytes.{Bytes}
use yaradec.Prelude.Text.{Text}

-- Inside a sequence: continuation bytes still wanted, the bits so far, and the range of the next.
pub data Mode : Type 0 where
  idle : Mode
  wanted : ℕ → ℕ → ℕ → ℕ → Mode

abbrev replacement : ℕ
replacement = 0xFFFD

-- A first byte: what it writes, and the mode after it.
first_byte : ℕ → Text × Mode
first_byte b =
    if ltb b 0x80
    then (b ∷ [], idle)
    else if leb 0xC2 b && leb b 0xDF
    then ([], wanted 1 (b - 0xC0) 0x80 0xBF)
    else if b == 0xE0
    then ([], wanted 2 0 0xA0 0xBF)
    else if b == 0xED
    then ([], wanted 2 0xD 0x80 0x9F)
    else if leb 0xE1 b && leb b 0xEF
    then ([], wanted 2 (b - 0xE0) 0x80 0xBF)
    else if b == 0xF0
    then ([], wanted 3 0 0x90 0xBF)
    else if leb 0xF1 b && leb b 0xF3
    then ([], wanted 3 (b - 0xF0) 0x80 0xBF)
    else if b == 0xF4
    then ([], wanted 3 4 0x80 0x8F)
    else (replacement ∷ [], idle)

next_byte : Mode → ℕ → Text × Mode
next_byte idle b = first_byte b
next_byte (wanted n acc lo hi) b =
    if leb lo b && leb b hi
    then if n == 1
      then ((acc * 64 + (b - 0x80)) ∷ [], idle)
      else ([], wanted (n - 1) (acc * 64 + (b - 0x80)) 0x80 0xBF)
    else (replacement ∷ (first_byte b).0, (first_byte b).1)

decode_from : Mode → Bytes → Text
decode_from idle [] = []
decode_from (wanted n acc lo hi) [] = replacement ∷ []
decode_from mode (b ∷ bs) = let (out, mode') = next_byte mode b in out ++ decode_from mode' bs

unfoldable pub decode_utf8 : Bytes → Text
unfolding decode_from next_byte first_byte
decode_utf8 bs = decode_from idle bs

-- ASCII bytes decode to themselves.
pub decode_utf8_ascii : (bs : Bytes) → All (λ b. b < 0x80) bs → decode_utf8 bs ≡ bs
unfolding decode_utf8
decode_utf8_ascii [] h = refl
decode_utf8_ascii (b ∷ bs) (hb, h) = ground (arith, decode_utf8_ascii bs h)

decode_utf8_two : decode_utf8 (0xC3 ∷ 0xA9 ∷ 0xE2 ∷ 0x82 ∷ 0x41 ∷ []) ≡ 0xE9 ∷ 0xFFFD ∷ 0x41 ∷ []
unfolding decode_utf8
decode_utf8_two = refl
