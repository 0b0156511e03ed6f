-- ===== src/B64/Quads.antt =====
-- The codec on groups of three bytes and of four characters.
use yaradec.Prelude.{
  all, some, suc, All, take, length, ◌==◌, ltb, arith, ◌++◌, ◌∷◌, [], false, true, ap, refl, ◌≡◌,
  ◌<◌, ◌%◌, ◌/◌, ◌*◌, ◌+◌, ℕ,
}
use yaradec.Prelude.Text.{Text}
use yaradec.Bytes.{Bytes, IsByte}
use yaradec.B64.Codec.{
  alphabet_char, alphabet_value, pad, b64encode, rstrip_pad, strip_one, Decoder, decode_digit, emit,
  decode_from, b64decode,
}

-- The whole groups at the front of the bytes, and what is left behind them.
abbrev pub groups : Bytes → Bytes
groups (a ∷ b ∷ c ∷ rest) = a ∷ b ∷ c ∷ groups rest
groups _ = []

abbrev pub left_over : Bytes → Bytes
left_over (a ∷ b ∷ c ∷ rest) = left_over rest
left_over bs = bs

-- The characters of the groups.
abbrev pub quads : Bytes → Text
quads (a ∷ b ∷ c ∷ rest) =
    alphabet_char (a / 4)
    ∷ alphabet_char (a % 4 * 16 + b / 16)
    ∷ alphabet_char (b % 16 * 4 + c / 64)
    ∷ alphabet_char (c % 64)
    ∷ quads rest
quads _ = []

-- The characters behind them that the bytes determine.
abbrev pub extra : Bytes → Text
extra (a ∷ b ∷ c ∷ rest) = extra rest
extra (a ∷ b ∷ []) = alphabet_char (a / 4) ∷ alphabet_char (a % 4 * 16 + b / 16) ∷ []
extra (a ∷ []) = alphabet_char (a / 4) ∷ []
extra [] = []

pub groups-left_over : (bs : Bytes) → groups bs ++ left_over bs ≡ bs
groups-left_over [] = refl
groups-left_over (a ∷ []) = refl
groups-left_over (a ∷ b ∷ []) = refl
groups-left_over (a ∷ b ∷ c ∷ rest) = ap (λ t. a ∷ b ∷ c ∷ t) (groups-left_over rest)

pub length-extra : (bs : Bytes) → length (extra bs) < 4
length-extra [] = omega arith
length-extra (a ∷ []) = omega arith
length-extra (a ∷ b ∷ []) = omega arith
length-extra (a ∷ b ∷ c ∷ rest) = length-extra rest

pub length-quads : (bs : Bytes) → length (quads bs) % 4 ≡ 0
length-quads [] = refl
length-quads (a ∷ []) = refl
length-quads (a ∷ b ∷ []) = refl
length-quads (a ∷ b ∷ c ∷ rest) = omega (arith, length-quads rest)

alphabet_value-alphabet_char : (v : ℕ) → v < 64 → alphabet_value (alphabet_char v) ≡ v
alphabet_value-alphabet_char v h = ground arith

alphabet_char-plain :
    (v : ℕ) → v < 64 → ((alphabet_char v == pad) ≡ false) × (ltb (alphabet_char v) 128 ≡ true)
alphabet_char-plain v h = (ground arith, ground arith)

-- A character of the alphabet is kept by `rstrip`.
rstrip_pad-char :
    (v : ℕ) (s : Text) → v < 64 → rstrip_pad (alphabet_char v ∷ s) ≡ alphabet_char v ∷ rstrip_pad s
unfolding rstrip_pad
rstrip_pad-char v s h = keep (alphabet_char v) (rstrip_pad s) (alphabet_char-plain v h).0
  where
    keep : (c : ℕ) (t : Text) → (c == pad) ≡ false → strip_one c t ≡ c ∷ t
    keep c [] e = rw e refl
    keep c (d ∷ t) e = refl

-- The encoding as far as the bytes determine it.
pub determined-quads :
    (bs : Bytes)
    → All IsByte bs
    → take (length bs * 8 / 6) (rstrip_pad (b64encode bs)) ≡ quads bs ++ extra bs
unfolding b64encode
determined-quads [] h = refl
determined-quads (a ∷ []) (ha, h) =
    rw (rstrip_pad-char (a / 4) (alphabet_char (a % 4 * 16) ∷ pad ∷ pad ∷ []) (omega arith)) refl
determined-quads (a ∷ b ∷ []) (ha, (hb, h)) =
    rw
      (rstrip_pad-char (a / 4)
        (alphabet_char (a % 4 * 16 + b / 16) ∷ alphabet_char (b % 16 * 4) ∷ pad ∷ []) (omega arith))
      (rw
        (rstrip_pad-char (a % 4 * 16 + b / 16) (alphabet_char (b % 16 * 4) ∷ pad ∷ [])
          (omega arith))
        refl)
determined-quads (a ∷ b ∷ c ∷ rest) (ha, (hb, (hc, h))) =
    let more : length (a ∷ b ∷ c ∷ rest) * 8 / 6 ≡ suc (suc (suc (suc (length rest * 8 / 6)))) =
      omega arith in
    rw more (
      rw (rstrip_pad-char (a / 4) _ (omega arith)) (
        rw (rstrip_pad-char (a % 4 * 16 + b / 16) _ (omega arith)) (
          rw (rstrip_pad-char (b % 16 * 4 + c / 64) _ (omega arith)) (
            rw (rstrip_pad-char (c % 64) _ (omega arith)) (
              ap
                (λ t.
                  alphabet_char (a / 4)
                  ∷ alphabet_char (a % 4 * 16 + b / 16)
                  ∷ alphabet_char (b % 16 * 4 + c / 64)
                  ∷ alphabet_char (c % 64)
                  ∷ t)
                (determined-quads rest h))))))

decode_from-char :
    (d : Decoder) (v : ℕ) (s : Text)
    → v < 64
    → decode_from d (alphabet_char v ∷ s)
      ≡ emit (decode_digit d v).0 (decode_from (decode_digit d v).1 s)
unfolding decode_from
decode_from-char d v s h =
    let known : alphabet_value (alphabet_char v) ≡ v = alphabet_value-alphabet_char v h in
    let inside : (v == 64) ≡ false = ground arith in
    rw (alphabet_char-plain v h).0 (rw known (rw inside refl))

abbrev pub ready : Decoder
ready = record { quad_pos = 0; left = 0; pads = 0 }

-- The whole groups come back.
pub decode_from-quads :
    (bs : Bytes) → All IsByte bs → decode_from ready (quads bs) ≡ some (groups bs)
decode_from-quads [] h = unfold decode_from in refl
decode_from-quads (a ∷ []) h = unfold decode_from in refl
decode_from-quads (a ∷ b ∷ []) h = unfold decode_from in refl
decode_from-quads (a ∷ b ∷ c ∷ rest) (ha, (hb, (hc, h))) =
    let first : (a / 4 * 4 + (a % 4 * 16 + b / 16) / 16) % 256 ≡ a = omega arith in
    let second : ((a % 4 * 16 + b / 16) % 16 * 16 + (b % 16 * 4 + c / 64) / 4) % 256 ≡ b =
      omega arith in
    let third : ((b % 16 * 4 + c / 64) % 4 * 64 + c % 64) % 256 ≡ c = omega arith in
    rw (decode_from-char ready (a / 4) _ (omega arith)) (
      rw (decode_from-char _ (a % 4 * 16 + b / 16) _ (omega arith)) (
        rw (decode_from-char _ (b % 16 * 4 + c / 64) _ (omega arith)) (
          rw (decode_from-char _ (c % 64) _ (omega arith))
            (rw (decode_from-quads rest h) (rw (first, second, third) refl)))))

pub quads-ascii : (bs : Bytes) → All IsByte bs → all (λ c. ltb c 128) (quads bs) ≡ true
quads-ascii [] h = refl
quads-ascii (a ∷ []) h = refl
quads-ascii (a ∷ b ∷ []) h = refl
quads-ascii (a ∷ b ∷ c ∷ rest) (ha, (hb, (hc, h))) =
    rw
      (
        (alphabet_char-plain (a / 4) (omega arith)).1,
        (alphabet_char-plain (a % 4 * 16 + b / 16) (omega arith)).1,
        (alphabet_char-plain (b % 16 * 4 + c / 64) (omega arith)).1,
        (alphabet_char-plain (c % 64) (omega arith)).1,
      )
      (quads-ascii rest h)

pub b64decode-quads : (bs : Bytes) → All IsByte bs → b64decode (quads bs) ≡ some (groups bs)
unfolding b64decode
b64decode-quads bs h = rw (quads-ascii bs h) (decode_from-quads bs h)
