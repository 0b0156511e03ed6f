-- ===== src/RePattern/PieceSplit.antt =====
-- `_merge_pieces` matches nothing new: what the folded pieces match, the pieces match.
use mathlib.Core.List.{foldl, reverse_aux, append_assoc, append-nil}
use yaradec.Prelude.{
  All, all, leb, ◌↔◌, ◌-◌, if◌then◌else◌, ◌==◌, ◌<◌, Bool-cases, inl, inr, ◌++◌, ◌∷◌, [], List,
  true, ◌⊎◌, ◌≡◌, refl, sym, ◌∙◌, ap, arith, ◌≤◌, ◌+◌, ℕ,
}
use yaradec.Prelude.Text.{Text}
use yaradec.RePattern.Hex.{inf}
use yaradec.RePattern.Pieces.{Piece, folds, fold_two, merge_step, merge_pieces}
use yaradec.RePattern.PieceMeaning.{
  Allowed, copies, Spells, SpellsBack, copies_add, folds-base, merge_pieces-Spells,
}

-- A piece has no upper bound, which is written 65535, or one below it that the lower
-- bound does not exceed.
abbrev pub IsPiece : Piece → Type 0
IsPiece p = (p.hi ≡ inf) ⊎ ((p.lo ≤ p.hi) × (p.hi < inf))

-- The sum of the upper bounds there are.
abbrev pub finite : Piece → ℕ
finite p = if p.hi == inf then 0 else p.hi

abbrev pub total : List Piece → ℕ
total [] = 0
total (p ∷ ps) = finite p + total ps

fold_two-finite :
    (prev p : Piece) → prev.hi < inf → p.hi < inf → (fold_two prev p).hi ≡ prev.hi + p.hi
unfolding fold_two
fold_two-finite prev p h k = ground arith

fold_two-unbounded : (prev p : Piece) → (prev.hi ≡ inf) ⊎ (p.hi ≡ inf) → (fold_two prev p).hi ≡ inf
unfolding fold_two
fold_two-unbounded prev p h = ground arith

finite-inf : (p : Piece) → p.hi ≡ inf → finite p ≡ 0
finite-inf p h = ground arith

finite-hi : (p : Piece) → p.hi < inf → finite p ≡ p.hi
finite-hi p h = ground arith

fold_two-lo : (prev p : Piece) → (fold_two prev p).lo ≡ prev.lo + p.lo
unfolding fold_two
fold_two-lo prev p = refl

fold_two-IsPiece :
    (prev p : Piece)
    → IsPiece prev
    → IsPiece p
    → finite prev + finite p < inf
    → IsPiece (fold_two prev p) × (finite (fold_two prev p) ≤ finite prev + finite p)
fold_two-IsPiece prev p (inl h) k few =
    let q = fold_two-unbounded prev p (inl h) in
    let z = finite-inf (fold_two prev p) q in (inl q, omega arith)
fold_two-IsPiece prev p (inr h) (inl k) few =
    let q = fold_two-unbounded prev p (inr k) in
    let z = finite-inf (fold_two prev p) q in (inl q, omega arith)
fold_two-IsPiece prev p (inr (l, h)) (inr (m, k)) few =
    let q : (fold_two prev p).hi ≡ prev.hi + p.hi = fold_two-finite prev p h k in
    let low : (fold_two prev p).lo ≡ prev.lo + p.lo = fold_two-lo prev p in
    let a : finite prev ≡ prev.hi = finite-hi prev h in
    let b : finite p ≡ p.hi = finite-hi p k in
    let under : (fold_two prev p).hi < inf = omega arith in
    let z : finite (fold_two prev p) ≡ (fold_two prev p).hi = finite-hi (fold_two prev p) under in
    (inr (omega arith, under), omega arith)

-- As few of the second piece as it takes, the others of the first.
lean_split :
    (prev p : Piece) (n : ℕ)
    → IsPiece p
    → prev.lo + p.lo ≤ n
    → (inf ≤ prev.hi) ⊎ (n - p.lo ≤ prev.hi)
    → (a : ℕ) × (b : ℕ) × (n ≡ a + b) × Allowed prev a × Allowed p b
lean_split prev p n k low fit =
    (n - p.lo, p.lo, omega arith, (omega arith, fit), (omega arith, ground arith))

-- As many copies as the sum allows are some that the first allows and some that the second does.
fold_two-split :
    (prev p : Piece) (n : ℕ)
    → IsPiece prev
    → IsPiece p
    → finite prev + finite p < inf
    → Allowed (fold_two prev p) n
    → (a : ℕ) × (b : ℕ) × (n ≡ a + b) × Allowed prev a × Allowed p b
fold_two-split prev p n (inl h) k few (low, high) =
    let sum : (fold_two prev p).lo ≡ prev.lo + p.lo = fold_two-lo prev p in
    lean_split prev p n k (omega arith) (inl (omega arith))
fold_two-split prev p n (inr (l, h)) k few (low, high) =
    let sum : (fold_two prev p).lo ≡ prev.lo + p.lo = fold_two-lo prev p in
    elim (Bool-cases (leb (n - p.lo) prev.hi)) [
      | inl fit ↦ lean_split prev p n k (omega arith) (inr (ground arith))
      | inr over ↦
          let more : prev.hi < n - p.lo = ground arith in
          (
            prev.hi,
            n - prev.hi,
            omega arith,
            (l, inr (omega arith)),
            (omega arith, rest_fits k high),
          )
    ]
  where
    rest_fits :
        IsPiece p
        → (inf ≤ (fold_two prev p).hi) ⊎ (n ≤ (fold_two prev p).hi)
        → (inf ≤ p.hi) ⊎ (n - prev.hi ≤ p.hi)
    rest_fits (inl k) high = inl (omega arith)
    rest_fits (inr (m, k)) high =
        let q : (fold_two prev p).hi ≡ prev.hi + p.hi = fold_two-finite prev p h k in
        let a : finite prev ≡ prev.hi = finite-hi prev h in
        let b : finite p ≡ p.hi = finite-hi p k in
        elim high [ inl far ↦ inr (omega arith) | inr near ↦ inr (omega arith) ]

-- The pieces that are folded so far, with a bound on their sum.
abbrev Folding : List Piece → ℕ → Type 0
Folding out k = All IsPiece out × (total out ≤ k)

merge_step-Folding :
    (out : List Piece) (p : Piece) (k : ℕ)
    → Folding out k
    → IsPiece p
    → k + finite p < inf
    → Folding (merge_step out p) (k + finite p)
unfolding merge_step
merge_step-Folding [] p k (all, few) h under = ((h, tt), omega arith)
merge_step-Folding (prev ∷ out) p k ((hp, all), few) h under = elim (Bool-cases (folds prev p)) [
  | inl same ↦
      let (good, small) = fold_two-IsPiece prev p hp h (omega arith) in
      rw same ((good, all), omega arith)
  | inr apart ↦ rw apart ((h, (hp, all)), omega arith)
]

-- What is matched behind a round is what was matched before it and copies of the new piece.
abbrev Behind : List Piece → Piece → List Text → Type 0
Behind out p w =
    (front : List Text) × (n : ℕ) × SpellsBack out front
    × Allowed p n
    × (w ≡ front ++ copies n p.base)

apart_Behind :
    (out : List Piece) (p : Piece) (w : List Text) → SpellsBack (p ∷ out) w → Behind out p w
apart_Behind out p w (n, front, a, s, e) = (front, n, s, a, e)

fold_two-Behind :
    (prev p : Piece) (out : List Piece) (w : List Text)
    → IsPiece prev
    → IsPiece p
    → finite prev + finite p < inf
    → folds prev p ≡ true
    → SpellsBack (fold_two prev p ∷ out) w
    → Behind (prev ∷ out) p w
unfolding fold_two
fold_two-Behind prev p out w h k few same (n, before, allowed, s, e) =
    let (a, b, sum, first, second) = fold_two-split prev p n h k few allowed in
    let together : copies n prev.base ≡ copies a prev.base ++ copies b p.base =
      ap (λ m. copies m prev.base) sum
      ∙ copies_add a b prev.base
      ∙ ap (λ t. copies a prev.base ++ copies b t) (folds-base prev p same) in
    (
      before ++ copies a prev.base,
      b,
      (a, before, first, s, refl),
      second,
      e
          ∙ ap (λ t. before ++ t) together
          ∙ sym (append_assoc before (copies a prev.base) (copies b p.base)),
    )

merge_step-Behind :
    (out : List Piece) (p : Piece) (k : ℕ) (w : List Text)
    → Folding out k
    → IsPiece p
    → k + finite p < inf
    → SpellsBack (merge_step out p) w
    → Behind out p w
unfolding merge_step
merge_step-Behind [] p k w good h under s = apart_Behind [] p w s
merge_step-Behind (prev ∷ out) p k w ((hp, all), few) h under s = elim (Bool-cases (folds prev p)) [
  | inl same ↦ fold_two-Behind prev p out w hp h (omega arith) same (rw same at s)
  | inr apart ↦ apart_Behind (prev ∷ out) p w (rw apart at s)
]

-- A sequence in two parts.
abbrev Parts : List Piece → List Piece → List Text → Type 0
Parts out ps w =
    (front : List Text) × (ws : List Text) × SpellsBack out front × Spells ps ws × (w ≡ front ++ ws)

foldl-Parts :
    (ps out : List Piece) (k : ℕ) (w : List Text)
    → Folding out k
    → All IsPiece ps
    → k + total ps < inf
    → SpellsBack (foldl merge_step out ps) w
    → Parts out ps w
foldl-Parts [] out k w good h under s = (w, [], s, refl, sym (append-nil w))
foldl-Parts (p ∷ ps) out k w good (h, hs) under s =
    let (before, ws, sb, more, e) =
      foldl-Parts ps (merge_step out p) (k + finite p) w
        (merge_step-Folding out p k good h (omega arith)) hs (omega arith) s in
    let (front, n, sf, a, q) = merge_step-Behind out p k before good h (omega arith) sb in
    (
      front,
      copies n p.base ++ ws,
      sf,
      (n, ws, a, more, refl),
      e ∙ ap (λ t. t ++ ws) q ∙ append_assoc front (copies n p.base) ws,
    )

reverse-Parts :
    (out rest : List Piece) (w : List Text) → Spells (reverse_aux out rest) w → Parts out rest w
reverse-Parts [] rest w s = ([], w, refl, s, refl)
reverse-Parts (p ∷ out) rest w s =
    let (before, ws, sb, (n, more, a, sr, e), q) = reverse-Parts out (p ∷ rest) w s in
    (
      before ++ copies n p.base,
      more,
      (n, before, a, sb, refl),
      sr,
      q ∙ ap (λ t. before ++ t) e ∙ sym (append_assoc before (copies n p.base) more),
    )

Spells-merge_pieces :
    (ps : List Piece) (w : List Text)
    → All IsPiece ps
    → total ps < inf
    → Spells (merge_pieces ps) w
    → Spells ps w
unfolding merge_pieces
Spells-merge_pieces ps w h under s =
    let (front, none_left, sb, nothing, e) = reverse-Parts (foldl merge_step [] ps) [] w s in
    let (start, ws, empty, sp, q) =
      foldl-Parts ps [] 0 front (tt, omega arith) h (omega arith) sb in
    let same : w ≡ ws =
      e ∙ ap (λ t. front ++ t) nothing ∙ append-nil front ∙ q ∙ ap (λ t. t ++ ws) empty in
    rw same sp

-- The folded pieces match exactly the sequences of bases that the pieces match: no sequence is lost
-- and none is new. The bounds are 65535 for none or smaller, a lower one not above the upper one, and
-- the upper bounds that there are sum to less than 65535.
pub merge_pieces-Spells_iff :
    (ps : List Piece) (ws : List Text)
    → All IsPiece ps
    → total ps < inf
    → Spells ps ws ↔ Spells (merge_pieces ps) ws
merge_pieces-Spells_iff ps ws h under =
    (merge_pieces-Spells ps ws, Spells-merge_pieces ps ws h under)
