-- ===== src/B64.antt =====
-- yaradec/b64.py: the plaintext behind a base64 string. `B64.Codec` is what it uses of Python's
-- module `base64`.
use yaradec.Prelude.{
  all, any, replicate, take, length, if◌then◌else◌, ◌==◌, map, ◌++◌, ◌∷◌, [], List, some, none,
  Option, ◌&&◌, false, true, Bool, ◌%◌, ◌/◌, ◌*◌, ◌-◌, ◌+◌, suc, zero, ℕ,
}
pub mod Codec
pub mod Quads
pub mod Candidates
pub mod Recovery
use yaradec.Prelude.Text.{Text, text_eq}
use yaradec.Bytes.{Bytes, slice}
use yaradec.B64.Codec.{b64encode, b64decode, rstrip_pad}

-- `_LEADING[i]`
abbrev pub leading : ℕ → ℕ
leading i = if i == 0 then 0 else i + 1

-- One round of `expand`.
unfoldable pub permutation : ℕ → Bytes → Text
permutation i plaintext =
    let padded = replicate i 0 ++ plaintext in
    slice (rstrip_pad (b64encode padded)) (leading i) (length padded * 8 / 6)

unfoldable pub expand : Bytes → List Text
expand plaintext = permutation 0 plaintext ∷ permutation 1 plaintext ∷ permutation 2 plaintext ∷ []

-- `_decode_prefix`; `none` is an exception of the decoder. No `=` is ever added, since the length is
-- a multiple of four.
unfoldable pub decode_prefix : Text → Option Bytes
decode_prefix perm =
    let usable = length perm - length perm % 4 in
    if usable == 0 then some [] else b64decode (take usable perm)

abbrev pub add_seed : Option Bytes → List Bytes → List Bytes
add_seed none ss = ss
add_seed (some s) ss = s ∷ ss

-- The seeds of those permutations that decode.
unfoldable pub seeds : List Text → List Bytes
seeds [] = []
seeds (perm ∷ perms) = add_seed (decode_prefix perm) (seeds perms)

-- `range(n)`, counted up from `a`.
abbrev pub up_from : ℕ → ℕ → List ℕ
up_from a zero = []
up_from a (suc n) = a ∷ up_from (suc a) n

-- `f` of each, joined.
abbrev pub flat_map {ℓ} : {A B : Type ℓ} → (A → List B) → List A → List B
flat_map f [] = []
flat_map f (x ∷ xs) = f x ++ flat_map f xs

-- `_tails`
unfoldable pub tails : ℕ → List Bytes
tails n =
    if n == 0
    then [] ∷ []
    else if n == 1
    then map (λ a. a ∷ []) (up_from 0 256)
    else flat_map (λ a. map (λ b. a ∷ b ∷ []) (up_from 0 256)) (up_from 0 256)

-- `observed <= produced`
abbrev pub has_text : Text → List Text → Bool
has_text t us = any (λ u. text_eq t u) us

unfoldable pub covers : List Text → Bytes → Bool
covers observed candidate = all (λ t. has_text t (expand candidate)) observed

abbrev pub is_nonempty : Bytes → Bool
is_nonempty [] = false
is_nonempty (b ∷ bs) = true

-- The first candidate that is not empty and whose expansion has everything observed.
unfoldable pub first_match : List Text → List Bytes → Option Bytes
first_match observed [] = none
first_match observed (c ∷ cs) =
    let rest = first_match observed cs in
    if is_nonempty c && covers observed c then some c else rest

-- A seed's candidates: tails of zero to `max_tail` bytes, in that order.
unfoldable pub candidates : ℕ → Bytes → List Bytes
candidates max_tail seed = flat_map (λ n. map (λ t. seed ++ t) (tails n)) (up_from 0 (suc max_tail))

abbrev pub or_next : Option Bytes → Option Bytes → Option Bytes
or_next (some p) next = some p
or_next none next = next

unfoldable pub first_seed : ℕ → List Text → List Bytes → Option Bytes
first_seed max_tail observed [] = none
first_seed max_tail observed (s ∷ ss) =
    or_next (first_match observed (candidates max_tail s)) (first_seed max_tail observed ss)

-- `recover`, on the set `observed` in the order in which Python runs through it.
unfoldable pub recover : List Text → ℕ → Option Bytes
recover observed max_tail = first_seed max_tail observed (seeds observed)
