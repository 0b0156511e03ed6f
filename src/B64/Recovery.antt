-- ===== src/B64/Recovery.antt =====
-- `recover` of b64.py: which plaintext it gives, and when it gives one.
use yaradec.Prelude.{
  ap, sym, All, Option-cases, Bool-cases, arith, ◌∷◌, [], List, some, Option, ◌&&◌, true, inr, inl,
  ◌⊎◌, ◌≢◌, ◌∙◌, refl, ◌≡◌, ℕ,
}
use mathlib.Core.Path.{subst}
use yaradec.Prelude.Text.{Text, text_eq, text_eq_iff}
use yaradec.Bytes.{Bytes, IsByte}
use yaradec.B64.Quads.{groups}
use yaradec.B64.Candidates.{In, In-candidates, decode_prefix-permutation}
use yaradec.B64.{
  permutation, expand, decode_prefix, seeds, has_text, covers, is_nonempty, first_match, candidates,
  first_seed, recover,
}

-- A text is one of a list's.
abbrev pub Among : Text → List Text → Type 0
Among t [] = ⊥
Among t (u ∷ us) = (t ≡ u) ⊎ Among t us

has_text-Among : (t : Text) (us : List Text) → has_text t us ≡ true → Among t us
has_text-Among t [] h = cc
has_text-Among t (u ∷ us) h = elim (Bool-cases (text_eq t u)) [
  | inl same ↦ inl ((text_eq_iff t u).0 same)
  | inr other ↦ inr (has_text-Among t us (rw other at h))
]

Among-has_text : (t : Text) (us : List Text) → Among t us → has_text t us ≡ true
Among-has_text t [] h = elim h [ ]
Among-has_text t (u ∷ us) (inl same) = rw ((text_eq_iff t u).1 same) refl
Among-has_text t (u ∷ us) (inr later) = ground (arith, Among-has_text t us later)

-- Everything observed is one of the three permutations of the plaintext.
abbrev pub Explains : Bytes → List Text → Type 0
Explains p observed = All (λ t. Among t (expand p)) observed

covers-Explains :
    (observed : List Text) (p : Bytes) → covers observed p ≡ true → Explains p observed
unfolding covers
covers-Explains [] p h = tt
covers-Explains (t ∷ ts) p h =
    (has_text-Among t (expand p) (ground arith), covers-Explains ts p (ground arith))

Explains-covers :
    (observed : List Text) (p : Bytes) → Explains p observed → covers observed p ≡ true
unfolding covers
Explains-covers [] p h = refl
Explains-covers (t ∷ ts) p (h, hs) = rw (Among-has_text t (expand p) h) (Explains-covers ts p hs)

is_nonempty-ne-nil : (p : Bytes) → is_nonempty p ≡ true → p ≢ []
is_nonempty-ne-nil [] h = cc
is_nonempty-ne-nil (b ∷ p) h = λ e. cc

first_match-inv :
    (observed : List Text) (cs : List Bytes) (p : Bytes)
    → first_match observed cs ≡ some p
    → (is_nonempty p ≡ true) × (covers observed p ≡ true)
unfolding first_match
first_match-inv observed [] p h = cc
first_match-inv observed (c ∷ cs) p h = elim (Bool-cases (is_nonempty c && covers observed c)) [
  | inl good ↦
      let e : ◌≡◌ {A = Option Bytes} (some c) (some p) = rw good at h in
      let same : c ≡ p = cc in rw (← same) (ground arith)
  | inr bad ↦ first_match-inv observed cs p (rw bad at h)
]

first_seed-inv :
    (max_tail : ℕ) (observed : List Text) (ss : List Bytes) (p : Bytes)
    → first_seed max_tail observed ss ≡ some p
    → (is_nonempty p ≡ true) × (covers observed p ≡ true)
unfolding first_seed
first_seed-inv max_tail observed [] p h = cc
first_seed-inv max_tail observed (s ∷ ss) p h =
    elim (Option-cases (first_match observed (candidates max_tail s))) [
      | inl missed ↦ first_seed-inv max_tail observed ss p (rw missed at h)
      | inr (q, found) ↦
          first_match-inv observed (candidates max_tail s) p (found ∙ (rw found at h))
    ]

-- A plaintext that is recovered is not empty, and everything observed is one of its permutations,
-- whatever was observed and in whatever order.
pub recover_sound :
    (observed : List Text) (max_tail : ℕ) (p : Bytes)
    → recover observed max_tail ≡ some p
    → (p ≢ []) × Explains p observed
unfolding recover
recover_sound observed max_tail p h =
    let (some_byte, good) = first_seed-inv max_tail observed (seeds observed) p h in
    (is_nonempty-ne-nil p some_byte, covers-Explains observed p good)

-- A candidate that explains what was observed is found, or one before it is.
first_match-In :
    (observed : List Text) (p : Bytes) (cs : List Bytes)
    → is_nonempty p ≡ true
    → covers observed p ≡ true
    → In p cs
    → (q : Bytes) × (first_match observed cs ≡ some q)
unfolding first_match
first_match-In observed p [] some_byte good h = elim h [ ]
first_match-In observed p (c ∷ cs) some_byte good h =
    elim (Bool-cases (is_nonempty c && covers observed c)) [
      | inl found ↦ (c, rw found refl)
      | inr missed ↦ elim h [
        | inl e ↦ absurd (ground (arith, ap (λ t. is_nonempty t && covers observed t) e))
        | inr later ↦
            let (q, found) = first_match-In observed p cs some_byte good later in
            (q, rw missed found)
      ]
    ]

first_seed-In :
    (observed : List Text) (p seed : Bytes) (ss : List Bytes)
    → is_nonempty p ≡ true
    → covers observed p ≡ true
    → In p (candidates 2 seed)
    → In seed ss
    → (q : Bytes) × (first_seed 2 observed ss ≡ some q)
unfolding first_seed
first_seed-In observed p seed [] some_byte good here h = elim h [ ]
first_seed-In observed p seed (s ∷ ss) some_byte good here (inl e) =
    let there : In p (candidates 2 s) = subst (λ t. In p (candidates 2 t)) e here in
    let (q, found) = first_match-In observed p (candidates 2 s) some_byte good there in
    (q, rw found refl)
first_seed-In observed p seed (s ∷ ss) some_byte good here (inr later) =
    let (q, found) = first_seed-In observed p seed ss some_byte good here later in
    elim (Option-cases (first_match observed (candidates 2 s))) [
      | inl missed ↦ (q, rw missed found)
      | inr (r, earlier) ↦ (r, rw earlier refl)
    ]

seeds-Among :
    (perm : Text) (seed : Bytes) (observed : List Text)
    → decode_prefix perm ≡ some seed
    → Among perm observed
    → In seed (seeds observed)
unfolding seeds
seeds-Among perm seed [] e h = elim h [ ]
seeds-Among perm seed (t ∷ ts) e (inl same) =
    let decoded : decode_prefix t ≡ some seed = ap decode_prefix (sym same) ∙ e in
    rw decoded (inl refl)
seeds-Among perm seed (t ∷ ts) e (inr later) = elim (Option-cases (decode_prefix t)) [
  | inl missed ↦ rw missed (seeds-Among perm seed ts e later)
  | inr (s, found) ↦ rw found (inr (seeds-Among perm seed ts e later))
]

ne-nil-is_nonempty : (p : Bytes) → p ≢ [] → is_nonempty p ≡ true
ne-nil-is_nonempty [] h = absurd (h refl)
ne-nil-is_nonempty (b ∷ p) h = refl

-- Where everything observed is a permutation of one plaintext, which is not empty, and the
-- permutation without padding was observed, a plaintext is recovered, of which everything observed
-- is a permutation.
pub recover-expand :
    (observed : List Text) (p : Bytes)
    → All IsByte p
    → p ≢ []
    → Explains p observed
    → Among (permutation 0 p) observed
    → (q : Bytes) × (recover observed 2 ≡ some q) × (q ≢ []) × Explains q observed
unfolding recover
recover-expand observed p bytes some_byte good seen =
    let (q, found) =
      first_seed-In observed p (groups p) (seeds observed) (ne-nil-is_nonempty p some_byte)
        (Explains-covers observed p good) (In-candidates p bytes)
        (seeds-Among (permutation 0 p) (groups p) observed (decode_prefix-permutation p bytes)
          seen) in
    let (ne, explained) = recover_sound observed 2 q (unfold recover in found) in
    (q, found, ne, explained)
