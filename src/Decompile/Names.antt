-- ===== src/Decompile/Names.antt =====
-- The names that `decompile` hands to the recovery of conditions, as lists of the strings' and the
-- rules' numbers with their identifiers.
use yaradec.Prelude.{arith, map, ◌++◌, ◌∷◌, [], List, none, ◌∙◌, ap, sym, refl, ◌≡◌, ℕ}
use yaradec.Code.Bodies.{dict_set, dict_get}
use yaradec.Code.Condition.Operands.{Context}
use yaradec.Parser.Structs.{YrString, Rule, CompiledRules}
use yaradec.Decompile.Patterns.{Runtime}
use yaradec.Decompile.Pipeline.{string_names_of, rule_names_of, relink}
use yaradec.Prelude.Text.{Text}
use mathlib.Core.List.{append_assoc, append-nil}

abbrev pub string_pair : YrString → ℕ × Text
string_pair s = (s.index, s.identifier)

abbrev pub rule_pair : Rule → ℕ × Text
rule_pair r = (r.index, r.identifier)

-- No number stands twice, nor is one among those found before.
abbrev pub Distinct : List (ℕ × Text) → List (ℕ × Text) → Type 0
Distinct found [] = Unit
Distinct found (p ∷ ps) = (dict_get found p.0 ≡ none) × Distinct (found ++ (p ∷ [])) ps

-- What a condition of a rule with the strings `picked` may name.
abbrev pub names : Runtime → CompiledRules → List YrString → List YrString → Context
names rt parsed strings picked = record {
  arena = parsed.arena;
  string_names = map string_pair strings;
  rule_names = map rule_pair parsed.rules;
  rule_strings = map (λ (s : YrString). s.identifier) picked;
  double_repr = rt.double_repr;
  regex_limit = rt.regex_limit;
}

dict_set-missing :
    (found : List (ℕ × Text)) (k : ℕ) (t : Text)
    → dict_get found k ≡ none
    → dict_set found k t ≡ found ++ ((k, t) ∷ [])
unfolding dict_set dict_get
dict_set-missing [] k t h = refl
dict_set-missing ((j, w) ∷ found) k t h = ground (arith, dict_set-missing found k t)

string_names_of-Distinct :
    (found : List (ℕ × Text)) (ss : List YrString)
    → Distinct found (map string_pair ss)
    → string_names_of found ss ≡ found ++ map string_pair ss
unfolding string_names_of
string_names_of-Distinct found [] h = sym (append-nil found)
string_names_of-Distinct found (s ∷ ss) (new, h) =
    ap (λ d. string_names_of d ss) (dict_set-missing found s.index s.identifier new)
    ∙ string_names_of-Distinct (found ++ (string_pair s ∷ [])) ss h
    ∙ append_assoc found (string_pair s ∷ []) (map string_pair ss)

-- Relinking keeps the rules' names.
rule_names_of-Distinct :
    (strings : List YrString) (found : List (ℕ × Text)) (rs : List Rule)
    → Distinct found (map rule_pair rs)
    → rule_names_of found (map (relink strings) rs) ≡ found ++ map rule_pair rs
unfolding rule_names_of
rule_names_of-Distinct strings found [] h = sym (append-nil found)
rule_names_of-Distinct strings found (r ∷ rs) (new, h) =
    ap (λ d. rule_names_of d (map (relink strings) rs))
      (dict_set-missing found r.index r.identifier new)
    ∙ rule_names_of-Distinct strings (found ++ (rule_pair r ∷ [])) rs h
    ∙ append_assoc found (rule_pair r ∷ []) (map rule_pair rs)

pub string_names_of-pairs :
    (ss : List YrString)
    → Distinct [] (map string_pair ss)
    → string_names_of [] ss ≡ map string_pair ss
string_names_of-pairs ss h = string_names_of-Distinct [] ss h

pub rule_names_of-pairs :
    (strings : List YrString) (rs : List Rule)
    → Distinct [] (map rule_pair rs)
    → rule_names_of [] (map (relink strings) rs) ≡ map rule_pair rs
rule_names_of-pairs strings rs h = rule_names_of-Distinct strings [] rs h
