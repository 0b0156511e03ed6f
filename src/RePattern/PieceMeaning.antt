-- ===== src/RePattern/PieceMeaning.antt =====
-- What a list of quantified pieces matches, and the folding of neighbours.
use mathlib.Core.List.{foldl, reverse_aux, append_assoc, append-nil}
use yaradec.Prelude.{
  Bool-cases, inl, inr, ◌++◌, ◌∷◌, [], List, true, ◌⊎◌, ◌≡◌, refl, sym, ◌∙◌, ap, arith, ◌≤◌, ◌+◌,
  suc, zero, ℕ,
}
use yaradec.Prelude.Text.{Text, text_eq_iff}
use yaradec.RePattern.Hex.{inf}
use yaradec.RePattern.Pieces.{Piece, folds, fold_two, merge_step, merge_pieces}

-- A piece may repeat its base `n` times; a bound from 65535 on is none.
abbrev pub Allowed : Piece → ℕ → Type 0
Allowed p n = (p.lo ≤ n) × ((inf ≤ p.hi) ⊎ (n ≤ p.hi))

abbrev pub copies : ℕ → Text → List Text
copies zero base = []
copies (suc n) base = base ∷ copies n base

-- The bases that are matched, one after the other.
abbrev pub Spells : List Piece → List Text → Type 0
Spells [] ws = ws ≡ []
Spells (p ∷ ps) ws =
    (n : ℕ) × (rest : List Text) × Allowed p n × Spells ps rest × (ws ≡ copies n p.base ++ rest)

-- The same with the last piece first.
abbrev pub SpellsBack : List Piece → List Text → Type 0
SpellsBack [] ws = ws ≡ []
SpellsBack (p ∷ out) ws =
    (n : ℕ) × (front : List Text) × Allowed p n
    × SpellsBack out front
    × (ws ≡ front ++ copies n p.base)

pub copies_add : (m n : ℕ) (base : Text) → copies (m + n) base ≡ copies m base ++ copies n base
copies_add zero n base = let e : 0 + n ≡ n = omega arith in rw e refl
copies_add (suc m) n base =
    let e : suc m + n ≡ suc (m + n) = omega arith in rw e (ap (λ t. base ∷ t) (copies_add m n base))

fold_two-Allowed :
    (prev p : Piece) (m n : ℕ) → Allowed prev m → Allowed p n → Allowed (fold_two prev p) (m + n)
unfolding fold_two
fold_two-Allowed prev p m n (lm, hm) (ln, hn) = ground arith

pub folds-base : (prev p : Piece) → folds prev p ≡ true → prev.base ≡ p.base
unfolding folds
folds-base prev p h = (text_eq_iff prev.base p.base).0 (ground arith)

merge_step-SpellsBack :
    (out : List Piece) (p : Piece) (front : List Text) (n : ℕ)
    → SpellsBack out front
    → Allowed p n
    → SpellsBack (merge_step out p) (front ++ copies n p.base)
unfolding merge_step fold_two
merge_step-SpellsBack [] p front n s a = (n, front, a, s, refl)
merge_step-SpellsBack (prev ∷ out) p front n (m, before, am, s, e) a =
    elim (Bool-cases (folds prev p)) [
      | inr apart ↦ rw apart (n, front, a, (m, before, am, s, e), refl)
      | inl same ↦
          let together : copies m prev.base ++ copies n p.base ≡ copies (m + n) prev.base =
            ap (λ b. copies m prev.base ++ copies n b) (sym (folds-base prev p same))
            ∙ sym (copies_add m n prev.base) in
          rw same (
            m + n,
            before,
            fold_two-Allowed prev p m n am a,
            s,
            ap (λ t. t ++ copies n p.base) e
                ∙ append_assoc before (copies m prev.base) (copies n p.base)
                ∙ ap (λ t. before ++ t) together,
          )
    ]

foldl-SpellsBack :
    (ps out : List Piece) (front ws : List Text)
    → SpellsBack out front
    → Spells ps ws
    → SpellsBack (foldl merge_step out ps) (front ++ ws)
foldl-SpellsBack [] out front ws s e = rw e (rw (append-nil front) s)
foldl-SpellsBack (p ∷ ps) out front ws s (n, rest, a, more, e) =
    let there : SpellsBack (foldl merge_step (merge_step out p) ps)
        ((front ++ copies n p.base) ++ rest) =
      foldl-SpellsBack ps (merge_step out p) (front ++ copies n p.base) rest
        (merge_step-SpellsBack out p front n s a) more in
    let q : front ++ ws ≡ (front ++ copies n p.base) ++ rest =
      ap (λ t. front ++ t) e ∙ sym (append_assoc front (copies n p.base) rest) in
    rw q there

reverse-Spells :
    (out rest : List Piece) (front ws : List Text)
    → SpellsBack out front
    → Spells rest ws
    → Spells (reverse_aux out rest) (front ++ ws)
reverse-Spells [] rest front ws e s = rw e s
reverse-Spells (p ∷ out) rest front ws (n, before, a, s, e) more =
    let q : front ++ ws ≡ before ++ (copies n p.base ++ ws) =
      ap (λ t. t ++ ws) e ∙ append_assoc before (copies n p.base) ws in
    rw q (reverse-Spells out (p ∷ rest) before (copies n p.base ++ ws) s (n, ws, a, more, refl))

-- What the pieces match, the folded pieces match too.
pub merge_pieces-Spells :
    (ps : List Piece) (ws : List Text) → Spells ps ws → Spells (merge_pieces ps) ws
unfolding merge_pieces
merge_pieces-Spells ps ws s =
    rw (append-nil ws) at
      (reverse-Spells (foldl merge_step [] ps) [] ws [] (foldl-SpellsBack ps [] [] ws refl s) refl)
