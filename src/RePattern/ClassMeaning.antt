-- ===== src/RePattern/ClassMeaning.antt =====
-- What a printed class lists, against the bitmap that it is made of.
use mathlib.Core.List.{foldl, reverse, reverse-cons, append_assoc, append-nil}
use yaradec.Prelude.{
  ◌^◌, ◌%◌, ◌/◌, ==_iff, All, ◌==◌, not, ◌&&◌, ◌++◌, ◌∷◌, [], List, false, true, Bool, Bool-cases,
  inl, inr, ◌≡◌, refl, sym, ◌∙◌, ap, arith, ◌≤◌, ◌+◌, ◌-◌, ◌/◌, ◌%◌, ◌^◌, suc, zero, ℕ,
}
use yaradec.Bytes.{Bytes}
use yaradec.Constants.{has}
use yaradec.RePattern.CharClass.{has_member, extend, ranges_of}

-- `n` numbers from `a` on.
abbrev pub count_up : ℕ → ℕ → List ℕ
count_up a zero = []
count_up a (suc n) = a ∷ count_up (suc a) n

-- The members that a range stands for.
abbrev pub spread : ℕ × ℕ → List ℕ
spread (a, b) = count_up a (suc b - a)

abbrev pub expand : List (ℕ × ℕ) → List ℕ
expand [] = []
expand (r ∷ rs) = spread r ++ expand rs

expand-append : (rs ss : List (ℕ × ℕ)) → expand (rs ++ ss) ≡ expand rs ++ expand ss
expand-append [] ss = refl
expand-append (r ∷ rs) ss =
    ap (λ t. spread r ++ t) (expand-append rs ss)
    ∙ sym (append_assoc (spread r) (expand rs) (expand ss))

count_up-suc : (a n : ℕ) → count_up a (suc n) ≡ count_up a n ++ ((a + n) ∷ [])
count_up-suc a zero = let e : a + 0 ≡ a = omega arith in rw e refl
count_up-suc a (suc n) =
    let e : suc a + n ≡ a + suc n = omega arith in rw (count_up-suc (suc a) n, e) refl

-- The ranges so far, the last one first.
abbrev so_far : List (ℕ × ℕ) → List ℕ
so_far rs = expand (reverse rs)

so_far-cons : (r : ℕ × ℕ) (rs : List (ℕ × ℕ)) → so_far (r ∷ rs) ≡ so_far rs ++ spread r
so_far-cons r rs =
    rw (reverse-cons r rs)
      (expand-append (reverse rs) (r ∷ []) ∙ ap (λ t. so_far rs ++ t) (append-nil (spread r)))

abbrev Ascending : List (ℕ × ℕ) → Type 0
Ascending rs = All (λ r. r.0 ≤ r.1) rs

spread_one : (x : ℕ) → spread (x, x) ≡ x ∷ []
spread_one x = let e : suc x - x ≡ 1 = omega arith in rw e refl

spread-next : (a b : ℕ) → a ≤ b → spread (a, b + 1) ≡ spread (a, b) ++ ((b + 1) ∷ [])
spread-next a b h =
    let longer : suc (b + 1) - a ≡ suc (suc b - a) = omega arith in
    let last : a + (suc b - a) ≡ b + 1 = omega arith in
    rw longer (count_up-suc a (suc b - a) ∙ rw last refl)

-- One round puts one more number at the end.
extend_lem :
    (rs : List (ℕ × ℕ)) (x : ℕ)
    → Ascending rs
    → Ascending (extend rs x) × (so_far (extend rs x) ≡ so_far rs ++ (x ∷ []))
unfolding extend
extend_lem [] x h = ((omega arith, tt), append-nil (spread (x, x)) ∙ spread_one x)
extend_lem ((a, b) ∷ rs) x (le, h) = elim (Bool-cases (x == b + 1)) [
  | inl next ↦
      let e : x ≡ b + 1 = (==_iff x (b + 1)).0 next in
      rw next (
        (omega arith, h),
        so_far-cons (a, x) rs
            ∙ ap (λ t. so_far rs ++ t)
                (ap (λ y. spread (a, y)) e
                  ∙ spread-next a b le
                  ∙ ap (λ y. spread (a, b) ++ (y ∷ [])) (sym e))
            ∙ sym (append_assoc (so_far rs) (spread (a, b)) (x ∷ []))
            ∙ ap (λ t. t ++ (x ∷ [])) (sym (so_far-cons (a, b) rs)),
      )
  | inr apart ↦ rw apart (
    (omega arith, (le, h)),
    so_far-cons (x, x) ((a, b) ∷ rs) ∙ ap (λ t. so_far ((a, b) ∷ rs) ++ t) (spread_one x),
  )
]

foldl_lem :
    (cs : List ℕ) (rs : List (ℕ × ℕ)) → Ascending rs → so_far (foldl extend rs cs) ≡ so_far rs ++ cs
foldl_lem [] rs h = sym (append-nil (so_far rs))
foldl_lem (x ∷ cs) rs h =
    let (up, step) = extend_lem rs x h in
    foldl_lem cs (extend rs x) up ∙ rw step (append_assoc (so_far rs) (x ∷ []) cs)

-- The ranges that are made of any list, spread out again, are the list, in its order.
pub expand-ranges_of : (cs : List ℕ) → expand (ranges_of cs) ≡ cs
unfolding ranges_of
expand-ranges_of cs = foldl_lem cs [] tt

-- A byte is in the list, or in its complement where `^` is printed, exactly if the bitmap has it.
abbrev pub denotes : Bool × List ℕ → ℕ → Bool
denotes (true, cs) x = not (has_member cs x)
denotes (false, cs) x = has_member cs x

-- The bits of a byte, the lowest first, by halving; and those of a bitmap, byte by byte.
abbrev pub byte_bits : ℕ → ℕ → List Bool
byte_bits zero b = []
byte_bits (suc n) b = (b % 2 == 1) ∷ byte_bits n (b / 2)

abbrev pub bits : Bytes → List Bool
bits [] = []
bits (b ∷ bs) = byte_bits 8 b ++ bits bs

abbrev same : Bool → Bool → Bool
same true b = b
same false b = not b

-- The test of one bit by a mask, and its place among the bits: the bits of `b` from `k` on are those
-- of `v`.
abbrev masked : ℕ → ℕ → Bool
masked b k = has b (2 ^ k)

abbrev agree_from : ℕ → ℕ → ℕ → ℕ → Bool
agree_from zero k b v = true
agree_from (suc n) k b v = same (masked b k) (v % 2 == 1) && agree_from n (suc k) b (v / 2)

abbrev agree : ℕ → Bool
agree b = agree_from 8 0 b b

abbrev all_agree : ℕ → Bool
all_agree zero = true
all_agree (suc n) = agree n && all_agree n
