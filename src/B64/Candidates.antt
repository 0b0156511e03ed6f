-- ===== src/B64/Candidates.antt =====
-- The candidates that `recover` tries for the seed of a plaintext's own permutation.
use yaradec.Prelude.{
  take-append, length-append, length, ==_iff, if◌then◌else◌, ◌==◌, map, ◌++◌, ap, sym, ◌<◌, ◌≤◌,
  ◌%◌, ◌/◌, ◌*◌, ◌-◌, ◌+◌, suc, zero, All, Bool-cases, arith, ◌∷◌, [], List, some, inr, inl, ◌⊎◌,
  ◌∙◌, refl, ◌≡◌, ℕ,
}
use mathlib.Core.Path.{subst}
use yaradec.Prelude.Text.{Text}
use yaradec.Bytes.{Bytes, IsByte}
use yaradec.B64.Codec.{b64decode}
use yaradec.B64.Quads.{
  groups, left_over, quads, extra, groups-left_over, length-extra, length-quads, determined-quads,
  b64decode-quads,
}
use yaradec.B64.{permutation, decode_prefix, up_from, flat_map, tails, candidates}

permutation-quads : (p : Bytes) → All IsByte p → permutation 0 p ≡ quads p ++ extra p
unfolding permutation
permutation-quads p h =
    let e : length p * 8 / 6 - 0 ≡ length p * 8 / 6 = omega arith in rw e (determined-quads p h)

-- Cutting a permutation to a multiple of four leaves the characters of whole groups.
decode_prefix-append :
    (q e : Text)
    → length q % 4 ≡ 0
    → length e < 4
    → decode_prefix (q ++ e) ≡ (if length q == 0 then some [] else b64decode q)
unfolding decode_prefix
decode_prefix-append q e hq he =
    let usable : length (q ++ e) - length (q ++ e) % 4 ≡ length q =
      omega (arith, length-append q e) in
    rw (usable, take-append q e) refl

quads_empty : (p : Bytes) → length (quads p) ≡ 0 → groups p ≡ []
quads_empty [] h = refl
quads_empty (a ∷ []) h = refl
quads_empty (a ∷ b ∷ []) h = refl
quads_empty (a ∷ b ∷ c ∷ rest) h = absurd (omega arith)

-- The permutation without padding decodes to the plaintext's whole groups.
pub decode_prefix-permutation :
    (p : Bytes) → All IsByte p → decode_prefix (permutation 0 p) ≡ some (groups p)
decode_prefix-permutation p h =
    ap decode_prefix (permutation-quads p h)
    ∙ decode_prefix-append (quads p) (extra p) (length-quads p) (length-extra p)
    ∙ elim (Bool-cases (length (quads p) == 0)) [
      | inl nothing ↦
          rw nothing (ap some (sym (quads_empty p ((==_iff (length (quads p)) 0).0 nothing))))
      | inr something ↦ rw something (b64decode-quads p h)
    ]

-- Membership of bytes in a list of candidates.
abbrev pub In : Bytes → List Bytes → Type 0
In p [] = ⊥
In p (c ∷ cs) = (p ≡ c) ⊎ In p cs

In-append_left : (p : Bytes) (xs ys : List Bytes) → In p xs → In p (xs ++ ys)
In-append_left p [] ys h = elim h [ ]
In-append_left p (x ∷ xs) ys (inl e) = inl e
In-append_left p (x ∷ xs) ys (inr h) = inr (In-append_left p xs ys h)

In-append_right : (p : Bytes) (xs ys : List Bytes) → In p ys → In p (xs ++ ys)
In-append_right p [] ys h = h
In-append_right p (x ∷ xs) ys h = inr (In-append_right p xs ys h)

In-map : (f : Bytes → Bytes) (p : Bytes) (xs : List Bytes) → In p xs → In (f p) (map f xs)
In-map f p [] h = elim h [ ]
In-map f p (x ∷ xs) (inl e) = inl (ap f e)
In-map f p (x ∷ xs) (inr h) = inr (In-map f p xs h)

-- Counting up reaches every number in its range.
In-up_from :
    (f : ℕ → List Bytes) (p : Bytes) (a n x : ℕ)
    → a ≤ x
    → x < a + n
    → In p (f x)
    → In p (flat_map f (up_from a n))
In-up_from f p a zero x low high h = absurd (omega arith)
In-up_from f p a (suc n) x low high h = elim (Bool-cases (a == x)) [
  | inl here ↦
      let e : a ≡ x = (==_iff a x).0 here in
      In-append_left p (f a) (flat_map f (up_from (suc a) n)) (rw e h)
  | inr other ↦
      In-append_right p (f a) (flat_map f (up_from (suc a) n))
        (In-up_from f p (suc a) n x (ground arith) (omega arith) h)
]

-- Every tail of at most two bytes is tried.
In-map-up_from : (f : ℕ → Bytes) (a n x : ℕ) → a ≤ x → x < a + n → In (f x) (map f (up_from a n))
In-map-up_from f a zero x low high = absurd (omega arith)
In-map-up_from f a (suc n) x low high = elim (Bool-cases (a == x)) [
  | inl here ↦ inl (ap f (sym ((==_iff a x).0 here)))
  | inr other ↦ inr (In-map-up_from f (suc a) n x (ground arith) (omega arith))
]

In-bytes : (f : ℕ → Bytes) (b : ℕ) → IsByte b → In (f b) (map f (up_from 0 256))
In-bytes f b h = In-map-up_from f 0 256 b (omega arith) h

In-tails : (p : Bytes) → All IsByte p → In (left_over p) (tails (length (left_over p)))
unfolding tails
In-tails [] h = inl refl
In-tails (a ∷ []) (ha, h) = In-bytes (λ x. x ∷ []) a ha
In-tails (a ∷ b ∷ []) (ha, (hb, h)) =
    In-up_from (λ x. map (λ y. x ∷ y ∷ []) (up_from 0 256)) (a ∷ b ∷ []) 0 256 a (omega arith) ha
      (In-bytes (λ y. a ∷ y ∷ []) b hb)
In-tails (a ∷ b ∷ c ∷ rest) (ha, (hb, (hc, h))) = In-tails rest h

length-left_over : (p : Bytes) → length (left_over p) < 3
length-left_over [] = omega arith
length-left_over (a ∷ []) = omega arith
length-left_over (a ∷ b ∷ []) = omega arith
length-left_over (a ∷ b ∷ c ∷ rest) = length-left_over rest

pub In-candidates : (p : Bytes) → All IsByte p → In p (candidates 2 (groups p))
unfolding candidates
In-candidates p h =
    let here : In (groups p ++ left_over p)
        (map (λ t. groups p ++ t) (tails (length (left_over p)))) =
      In-map (λ t. groups p ++ t) (left_over p) (tails (length (left_over p))) (In-tails p h) in
    let same : In p (map (λ t. groups p ++ t) (tails (length (left_over p)))) =
      subst (λ q. In q (map (λ t. groups p ++ t) (tails (length (left_over p)))))
        (groups-left_over p) here in
    In-up_from (λ n. map (λ t. groups p ++ t) (tails n)) p 0 3 (length (left_over p)) (omega arith)
      (length-left_over p) same
