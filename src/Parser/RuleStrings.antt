-- ===== src/Parser/RuleStrings.antt =====
-- The strings of a rule: `by_rule` and the sort of `parse_rules`, against what the table of strings
-- says.
use yaradec.Parser.Structs.{YrString}
use yaradec.Parser.Rules.{strings_of_rule, insert_string, sort_strings, rule_strings}
use yaradec.Prelude.{
  if◌then◌else◌, ◌==◌, leb, arith, ◌∷◌, ◌&&◌, false, true, inr, inl, ◌∙◌, ap, refl, ◌≡◌, ◌<◌, ◌≤◌,
  ℕ, All, Bool-cases, Bool, List, [],
}

-- The strings that a test takes, in order.
abbrev pub select : (YrString → Bool) → List YrString → List YrString
select p [] = []
select p (s ∷ ss) = let rest = select p ss in if p s then s ∷ rest else rest

abbrev pub IsSorted : List YrString → Type 0
IsSorted [] = Unit
IsSorted (s ∷ ss) = All (λ (t : YrString). s.index ≤ t.index) ss × IsSorted ss

-- The strings of rule `i` by their index: for every index those of the table that carry the rule's
-- number and this index, in the table's order.
abbrev pub Chosen : List YrString → ℕ → List YrString → Type 0
Chosen strings i picked =
    IsSorted picked
    × ((k : ℕ)
        → select (λ s. s.index == k) picked
          ≡ select (λ s. s.rule_index == i && s.index == k) strings)

abbrev has_index : ℕ → YrString → Bool
has_index k s = s.index == k

insert_string-select :
    (k : ℕ) (s : YrString) (ts : List YrString)
    → select (has_index k) (insert_string s ts) ≡ select (has_index k) (s ∷ ts)
unfolding insert_string
insert_string-select k s [] = refl
insert_string-select k s (t ∷ ts) =
    let ih = insert_string-select k s ts in
    elim (Bool-cases (leb s.index t.index)) [
      | inl small ↦ rw small refl
      | inr large ↦
          let apart : t.index < s.index = ground arith in
          rw large (rw ih (swap (s.index == k) (t.index == k) (not_both apart)))
    ]
  where
    not_both : t.index < s.index → (s.index == k && t.index == k) ≡ false
    not_both h = ground arith

    swap :
        (a b : Bool)
        → (a && b) ≡ false
        → (let rest = (let more = select (has_index k) ts in if a then s ∷ more else more) in
            if b then t ∷ rest else rest)
          ≡ (let rest = (let more = select (has_index k) ts in if b then t ∷ more else more) in
              if a then s ∷ rest else rest)
    swap true true h = cc
    swap true false h = refl
    swap false b h = refl

sort_strings-select :
    (k : ℕ) (ss : List YrString) → select (has_index k) (sort_strings ss) ≡ select (has_index k) ss
unfolding sort_strings
sort_strings-select k [] = refl
sort_strings-select k (s ∷ ss) =
    insert_string-select k s (sort_strings ss)
    ∙ ap (λ rest. if s.index == k then s ∷ rest else rest) (sort_strings-select k ss)

strings_of_rule-select :
    (i k : ℕ) (ss : List YrString)
    → select (has_index k) (strings_of_rule ss i)
      ≡ select (λ s. s.rule_index == i && s.index == k) ss
unfolding strings_of_rule
strings_of_rule-select i k [] = refl
strings_of_rule-select i k (s ∷ ss) =
    let ih = strings_of_rule-select i k ss in
    elim (Bool-cases (s.rule_index == i)) [
      | inl same ↦ rw same (rw ih refl)
      | inr other ↦ rw other ih
    ]

insert_string-All :
    (n : ℕ) (s : YrString) (ts : List YrString)
    → n ≤ s.index
    → All (λ (t : YrString). n ≤ t.index) ts
    → All (λ (t : YrString). n ≤ t.index) (insert_string s ts)
unfolding insert_string
insert_string-All n s [] h hs = (h, tt)
insert_string-All n s (t ∷ ts) h (k, ks) = elim (Bool-cases (leb s.index t.index)) [
  | inl small ↦ rw small (h, (k, ks))
  | inr large ↦ rw large (k, insert_string-All n s ts h ks)
]

All-le :
    (m n : ℕ) (ts : List YrString)
    → m ≤ n
    → All (λ (t : YrString). n ≤ t.index) ts
    → All (λ (t : YrString). m ≤ t.index) ts
All-le m n [] h hs = tt
All-le m n (t ∷ ts) h (k, ks) = (omega arith, All-le m n ts h ks)

insert_string-IsSorted :
    (s : YrString) (ts : List YrString) → IsSorted ts → IsSorted (insert_string s ts)
unfolding insert_string
insert_string-IsSorted s [] h = (tt, tt)
insert_string-IsSorted s (t ∷ ts) (h, hs) = elim (Bool-cases (leb s.index t.index)) [
  | inl small ↦
      let first : s.index ≤ t.index = ground arith in
      rw small ((first, All-le s.index t.index ts first h), (h, hs))
  | inr large ↦
      rw large (insert_string-All t.index s ts (ground arith) h, insert_string-IsSorted s ts hs)
]

sort_strings-IsSorted : (ss : List YrString) → IsSorted (sort_strings ss)
unfolding sort_strings
sort_strings-IsSorted [] = tt
sort_strings-IsSorted (s ∷ ss) =
    insert_string-IsSorted s (sort_strings ss) (sort_strings-IsSorted ss)

pub rule_strings-Chosen :
    (strings : List YrString) (i : ℕ) → Chosen strings i (rule_strings strings i)
unfolding rule_strings
rule_strings-Chosen strings i = (
  sort_strings-IsSorted (strings_of_rule strings i),
  λ k. sort_strings-select k (strings_of_rule strings i) ∙ strings_of_rule-select i k strings,
)
