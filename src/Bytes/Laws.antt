-- ===== src/Bytes/Laws.antt =====
-- Packing and unpacking are inverse, and a read depends on its own bytes alone.
use native.Mathlib.Nat.{pow-suc}
use yaradec.Prelude.{
  ◌≤◌, get_elem?, ◌-◌, ℕ, zero, suc, ◌+◌, ◌/◌, ◌^◌, ◌<◌, ◌≡◌, refl, sym, ap, ◌∙◌, List, [], ◌∷◌,
  ◌++◌, some, length, take, drop, All, take-append, length-drop, drop-drop, drop-append,
  length-append, arith,
}
use yaradec.Result.{ok}
use yaradec.Bytes.{
  slice, Bytes, IsByte, le_value, le_bytes, calcsize, fields, unpack_from, pack, find_nul,
  find_nul_from,
}
use mathlib.Core.List.{append_assoc}

pub length-le_bytes : (w v : ℕ) → length (le_bytes w v) ≡ w
length-le_bytes zero v = refl
length-le_bytes (suc w) v = ap suc (length-le_bytes w (v / 256))

pub le_value-le_bytes : (w v : ℕ) → v < 256 ^ w → le_value (le_bytes w v) ≡ v
le_value-le_bytes zero v h = omega arith
le_value-le_bytes (suc w) v h = omega (arith, le_value-le_bytes w (v / 256) (below w h))
  where
    below : (w : ℕ) → v < 256 ^ suc w → v / 256 < 256 ^ w
    below w h = omega (arith, pow-suc 256 w)

le_bytes-IsByte : (w v : ℕ) → All IsByte (le_bytes w v)
le_bytes-IsByte zero v = tt
le_bytes-IsByte (suc w) v = (omega arith, le_bytes-IsByte w (v / 256))

-- Each value fits its field, and there is one value for each field.
abbrev pub Fit : List ℕ → List ℕ → Type 0
Fit [] [] = Unit
Fit [] (v ∷ vs) = ⊥
Fit (w ∷ ws) [] = ⊥
Fit (w ∷ ws) (v ∷ vs) = (v < 256 ^ w) × Fit ws vs

pub length-pack : (ws vs : List ℕ) → Fit ws vs → length (pack ws vs) ≡ calcsize ws
length-pack [] [] h = refl
length-pack [] (v ∷ vs) h = elim h [ ]
length-pack (w ∷ ws) [] h = elim h [ ]
length-pack (w ∷ ws) (v ∷ vs) (hv, h) =
    omega
      (arith, length-append (le_bytes w v) (pack ws vs), length-le_bytes w v, length-pack ws vs h)

take-le_bytes : (w v : ℕ) (rest : Bytes) → take w (le_bytes w v ++ rest) ≡ le_bytes w v
take-le_bytes w v rest =
    ap (λ n. take n (le_bytes w v ++ rest)) (sym (length-le_bytes w v))
    ∙ take-append (le_bytes w v) rest

drop-le_bytes : (w v : ℕ) (rest : Bytes) → drop w (le_bytes w v ++ rest) ≡ rest
drop-le_bytes w v rest =
    ap (λ n. drop n (le_bytes w v ++ rest)) (sym (length-le_bytes w v))
    ∙ drop-append (le_bytes w v) rest

pub fields-pack : (ws vs : List ℕ) (rest : Bytes) → Fit ws vs → fields ws (pack ws vs ++ rest) ≡ vs
fields-pack [] [] rest h = refl
fields-pack [] (v ∷ vs) rest h = elim h [ ]
fields-pack (w ∷ ws) [] rest h = elim h [ ]
fields-pack (w ∷ ws) (v ∷ vs) rest (hv, h) =
    rw (append_assoc, take-le_bytes, drop-le_bytes, le_value-le_bytes w v hv)
      (ap (λ t. v ∷ t) (fields-pack ws vs rest h))

-- What was packed behind `before` is read back at its offset, whatever follows it.
pub unpack_from-pack :
    (ws vs : List ℕ) (before rest : Bytes)
    → Fit ws vs
    → unpack_from ws (before ++ (pack ws vs ++ rest)) (length before) ≡ ok vs
unpack_from-pack ws vs before rest h =
    rw (drop-append, fields-pack ws vs rest h)
      (ground (
        arith,
        length-append before (pack ws vs ++ rest),
        length-append (pack ws vs) rest,
        length-pack ws vs h,
      ))

pub length-fields : (ws : List ℕ) (bs : Bytes) → length (fields ws bs) ≡ length ws
length-fields [] bs = refl
length-fields (w ∷ ws) bs = ap suc (length-fields ws (drop w bs))

-- A text with no NUL in it.
abbrev pub NoNul : Bytes → Type 0
NoNul bs = All (λ b. 0 < b) bs

find_nul_from-append :
    (s rest : Bytes) (i : ℕ) → NoNul s → find_nul_from (s ++ (0 ∷ rest)) i ≡ some (i + length s)
unfolding find_nul_from
find_nul_from-append [] rest i h = ap some (omega arith)
find_nul_from-append (b ∷ s) rest i (hb, h) = ground (arith, find_nul_from-append s rest (suc i) h)

-- `find` stops at the first NUL.
pub find_nul-append :
    (before s rest : Bytes)
    → NoNul s
    → find_nul (before ++ (s ++ (0 ∷ rest))) (length before) ≡ some (length before + length s)
unfolding find_nul
find_nul-append before s rest h = rw drop-append (find_nul_from-append s rest (length before) h)

-- Reading at an offset whose suffix is known. `drop off input ≡ xs ++ rest` says that `xs` stands
-- at `off`.
module _ (input : Bytes) (off : ℕ) (xs rest : Bytes) (h : drop off input ≡ xs ++ rest) where
  pub length_at : length input - off ≡ length xs + length rest
  length_at = sym (length-drop off input) ∙ ap length h ∙ length-append xs rest

  pub drop_past : drop (off + length xs) input ≡ rest
  drop_past = sym (drop-drop off (length xs) input) ∙ rw h (drop-append xs rest)

  pub slice_at : slice input off (off + length xs) ≡ xs
  slice_at =
      let e : off + length xs - off ≡ length xs = omega arith in rw (e, h) (take-append xs rest)

pub unpack_from_at :
    (ws vs : List ℕ) (input : Bytes) (off : ℕ) (rest : Bytes)
    → Fit ws vs
    → 0 < calcsize ws
    → drop off input ≡ pack ws vs ++ rest
    → unpack_from ws input off ≡ ok vs
unpack_from_at ws vs input off rest fit some_bytes h =
    rw (h, fields-pack ws vs rest fit)
      (ground (arith, length_at input off (pack ws vs) rest h, length-pack ws vs fit))

pub find_nul_at :
    (input : Bytes) (off : ℕ) (s rest : Bytes)
    → NoNul s
    → drop off input ≡ s ++ (0 ∷ rest)
    → find_nul input off ≡ some (off + length s)
unfolding find_nul
find_nul_at input off s rest none_in h = rw h (find_nul_from-append s rest off none_in)

-- Where `find` stops there is a NUL, and none before it.
find_nul_from-inv :
    (bs : Bytes) (i j : ℕ)
    → find_nul_from bs i ≡ some j
    → (k : ℕ) × (rest : Bytes) × (j ≡ i + k) × NoNul (take k bs) × (bs ≡ take k bs ++ (0 ∷ rest))
unfolding find_nul_from
find_nul_from-inv [] i j h = cc
find_nul_from-inv (zero ∷ bs) i j h = (0, bs, ground arith, tt, refl)
find_nul_from-inv (suc b ∷ bs) i j h =
    let (k, rest, e, none_in, split) = find_nul_from-inv bs (suc i) j (ground arith) in
    (suc k, rest, omega arith, (omega arith, none_in), ap (λ t. suc b ∷ t) split)

pub find_nul-inv :
    (buf : Bytes) (off stop : ℕ)
    → find_nul buf off ≡ some stop
    → (rest : Bytes) × NoNul (slice buf off stop)
      × (drop off buf ≡ slice buf off stop ++ (0 ∷ rest))
unfolding find_nul
find_nul-inv buf off stop h =
    let (k, rest, e, none_in, split) = find_nul_from-inv (drop off buf) off stop h in
    let width : stop - off ≡ k = omega arith in (rest, rw width none_in, rw width split)

-- A NUL that is found does not stand before the start.
pub find_nul_le : (buf : Bytes) (off stop : ℕ) → find_nul buf off ≡ some stop → off ≤ stop
unfolding find_nul
find_nul_le buf off stop h =
    let (k, rest, e, none_in, split) = find_nul_from-inv (drop off buf) off stop h in omega arith

pub get_elem?_inside : (buf : Bytes) (i b : ℕ) → get_elem? buf i ≡ some b → i < length buf
get_elem?_inside [] i b h = cc
get_elem?_inside (c ∷ buf) zero b h = omega arith
get_elem?_inside (c ∷ buf) (suc i) b h = omega (arith, get_elem?_inside buf i b h)

pub get_elem?_at :
    (buf : Bytes) (p b : ℕ) (rest : Bytes) → drop p buf ≡ b ∷ rest → get_elem? buf p ≡ some b
get_elem?_at [] zero b rest h = cc
get_elem?_at [] (suc p) b rest h = cc
get_elem?_at (c ∷ buf) zero b rest h = cc
get_elem?_at (c ∷ buf) (suc p) b rest h = get_elem?_at buf p b rest h

pub get_elem?_lt : (buf : Bytes) (i : ℕ) → i < length buf → (b : ℕ) × (get_elem? buf i ≡ some b)
get_elem?_lt [] i h = absurd (omega arith)
get_elem?_lt (b ∷ buf) zero h = (b, refl)
get_elem?_lt (b ∷ buf) (suc i) h = get_elem?_lt buf i (omega arith)
