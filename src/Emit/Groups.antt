-- ===== src/Emit/Groups.antt =====
-- The grouping by namespace of `render_all`.
use yaradec.Prelude.{
  length-append, length, if◌then◌else◌, ◌++◌, ◌∷◌, [], List, some, none, Option, false, true, inr,
  inl, ◌∙◌, ap, sym, refl, ◌≡◌, ◌+◌, suc, ℕ, arith, Bool-cases,
}
use mathlib.Core.List.{append_assoc, append-nil}
use yaradec.Prelude.Text.{Text, text_eq_iff}
use yaradec.Parser.Structs.{Rule}
use yaradec.Emit.Rules.{Groups, same_namespace, add_rule, group_rules, select}

same_namespace_sound : (s t : Option Text) → same_namespace s t ≡ true → s ≡ t
same_namespace_sound none none h = refl
same_namespace_sound (some s) (some t) h = ap some ((text_eq_iff s t).0 h)
same_namespace_sound none (some t) h = cc
same_namespace_sound (some s) none h = cc

same_namespace_refl : (s : Option Text) → same_namespace s s ≡ true
same_namespace_refl none = refl
same_namespace_refl (some s) = (text_eq_iff s s).1 refl

-- The rules that are printed under a namespace: those of the first group with this key.
abbrev pub rules_in : Option Text → Groups → List Rule
rules_in ns [] = []
rules_in ns ((key, rules) ∷ groups) = if same_namespace key ns then rules else rules_in ns groups

-- A namespace's rules, in the order of the file.
abbrev pub rules_of : Option Text → List Rule → List Rule
rules_of ns rules = select (λ (r : Rule). same_namespace r.namespace ns) rules

-- How many rules are printed.
abbrev pub total : Groups → ℕ
total [] = 0
total ((key, rules) ∷ groups) = length rules + total groups

rules_of-append :
    (ns : Option Text) (r : Rule) (rules : List Rule)
    → rules_of ns (r ∷ rules) ≡ rules_of ns (r ∷ []) ++ rules_of ns rules
rules_of-append ns r rules = elim (Bool-cases (same_namespace r.namespace ns)) [
  | inl e ↦ rw e refl
  | inr e ↦ rw e refl
]

rules_in-add_rule :
    (ns : Option Text) (groups : Groups) (r : Rule)
    → rules_in ns (add_rule groups r) ≡ rules_in ns groups ++ rules_of ns (r ∷ [])
unfolding add_rule
rules_in-add_rule ns [] r = refl
rules_in-add_rule ns ((key, rules) ∷ groups) r =
    elim (Bool-cases (same_namespace key r.namespace)) [
      | inl e ↦
          let key_is : key ≡ r.namespace = same_namespace_sound key r.namespace e in
          let same : same_namespace r.namespace ns ≡ same_namespace key ns =
            ap (λ k. same_namespace k ns) (sym key_is) in
          elim (Bool-cases (same_namespace key ns)) [
            | inl here ↦ rw (e, same ∙ here, here) refl
            | inr there ↦ rw (e, same ∙ there, there) (sym (append-nil (rules_in ns groups)))
          ]
      | inr e ↦ elim (Bool-cases (same_namespace key ns)) [
        | inl here ↦
            let key_is : key ≡ ns = same_namespace_sound key ns here in
            let other : same_namespace r.namespace ns ≡ false =
              not_same key r.namespace ns key_is e in
            rw (e, other, here) (sym (append-nil rules))
        | inr there ↦ rw (e, there) (rules_in-add_rule ns groups r)
      ]
    ]
  where
    not_same :
        (key t ns : Option Text)
        → key ≡ ns
        → same_namespace key t ≡ false
        → same_namespace t ns ≡ false
    not_same key t ns key_is e = elim (Bool-cases (same_namespace t ns)) [
      | inr h ↦ h
      | inl h ↦
          let t_is : t ≡ ns = same_namespace_sound t ns h in
          let yes : same_namespace key t ≡ true =
            ap (λ k. same_namespace k t) (key_is ∙ sym t_is) ∙ same_namespace_refl t in
          cc
    ]

total-add_rule : (groups : Groups) (r : Rule) → total (add_rule groups r) ≡ suc (total groups)
unfolding add_rule
total-add_rule [] r = refl
total-add_rule ((key, rules) ∷ groups) r = elim (Bool-cases (same_namespace key r.namespace)) [
  | inl e ↦ rw e (omega (arith, length-append rules (r ∷ [])))
  | inr e ↦ rw e (omega (arith, total-add_rule groups r))
]

rules_in-group_from :
    (ns : Option Text) (groups : Groups) (rules : List Rule)
    → rules_in ns (group_rules groups rules) ≡ rules_in ns groups ++ rules_of ns rules
unfolding group_rules
rules_in-group_from ns groups [] = sym (append-nil (rules_in ns groups))
rules_in-group_from ns groups (r ∷ rules) =
    rules_in-group_from ns (add_rule groups r) rules
    ∙ ap (λ t. t ++ rules_of ns rules) (rules_in-add_rule ns groups r)
    ∙ append_assoc (rules_in ns groups) (rules_of ns (r ∷ [])) (rules_of ns rules)
    ∙ ap (λ t. rules_in ns groups ++ t) (sym (rules_of-append ns r rules))

total-group_from :
    (groups : Groups) (rules : List Rule)
    → total (group_rules groups rules) ≡ total groups + length rules
unfolding group_rules
total-group_from groups [] = omega arith
total-group_from groups (r ∷ rules) =
    omega (arith, total-group_from (add_rule groups r) rules, total-add_rule groups r)

-- Under every namespace stand exactly its rules, in the order of the file, and no rule stands twice
-- or is left out.
pub rules_in-group_rules :
    (ns : Option Text) (rules : List Rule)
    → (rules_in ns (group_rules [] rules) ≡ rules_of ns rules)
      × (total (group_rules [] rules) ≡ length rules)
rules_in-group_rules ns rules =
    (rules_in-group_from ns [] rules, total-group_from [] rules ∙ omega arith)
