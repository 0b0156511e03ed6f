-- ===== src/Emit/Rules.antt =====
-- `render_rule` and `render_all` of emit.py.
use yaradec.Prelude.{
  any, if◌then◌else◌, map, ◌++◌, ◌∷◌, [], List, some, none, Option, ◌||◌, not, false, true, Bool, ℕ,
}
use yaradec.Prelude.Strip.{rstrip, strip, show_ℤ}
use yaradec.Prelude.Text.{Text, codes, concat, join, text_eq}
use yaradec.Code.Bodies.{dict_get}
use yaradec.Parser.Structs.{
  Meta, MetaValue, string_value, boolean_value, integer_value, YrString, is_chain_part, Rule,
  is_private, is_global, CompiledRules,
}
use yaradec.Emit.Escape.{escape_text, encode_utf8}
use yaradec.Emit.Warnings.{Warning, condition_lost}
use yaradec.Emit.Strings.{render_string_body, render_modifiers, modifier}

pub record EmitOptions : Type 0 where
  pub indent : Text
  pub include_listing : Bool

abbrev pub default_options : EmitOptions
default_options = record { indent = codes "    "; include_listing = true }

abbrev pub bool_text : Bool → Text
bool_text true = codes "true"
bool_text false = codes "false"

unfoldable pub meta_text : MetaValue → Text
meta_text (string_value t) = b'"' ∷ (escape_text (encode_utf8 t) ++ codes "\"")
meta_text (boolean_value b) = bool_text b
meta_text (integer_value i) = show_ℤ i

abbrev pub tag_suffix : List Text → Text
tag_suffix [] = []
tag_suffix (t ∷ ts) = codes " : " ++ join (codes " ") (t ∷ ts)

unfoldable pub header_line : Rule → Text
header_line rule =
    join (codes " ") (
      modifier (is_private rule) (codes "private")
      ++ (modifier (is_global rule) (codes "global") ++ (codes "rule" ∷ rule.identifier ∷ [])))
    ++ tag_suffix rule.tags

abbrev pub is_none {ℓ} : {A : Type ℓ} → Option A → Bool
is_none none = true
is_none (some a) = false

abbrev pub select {ℓ} : {A : Type ℓ} → (A → Bool) → List A → List A
select p [] = []
select p (x ∷ xs) = let rest = select p xs in if p x then x ∷ rest else rest

unfoldable pub visible_strings : Rule → List YrString
visible_strings rule = select (λ s. not (is_chain_part s) || is_none s.chained_to) rule.strings

abbrev pub is_nil {ℓ} : {A : Type ℓ} → List A → Bool
is_nil [] = true
is_nil (x ∷ xs) = false

abbrev pub string_line : Text → YrString → Text
string_line ind s =
    ind
    ++ (ind
        ++ (s.identifier
            ++ (codes " = "
                ++ ((render_string_body s).0
                    ++ concat (map (λ (m : Text). b' ' ∷ m) (render_modifiers s).0)))))

abbrev pub string_warnings : List YrString → List Warning
string_warnings [] = []
string_warnings (s ∷ ss) =
    (render_string_body s).1 ++ ((render_modifiers s).1 ++ string_warnings ss)

abbrev pub block {ℓ} : {A : Type ℓ} → Text → Text → (A → Text) → List A → List Text
block ind title f [] = []
block ind title f (x ∷ xs) = (ind ++ title) ∷ (map f (x ∷ xs) ++ ([] ∷ []))

abbrev pub placeholder : List YrString → Text
placeholder [] = codes "false"
placeholder (s ∷ ss) = codes "false and any of them"

abbrev pub listing_lines : EmitOptions → Option (List Text) → List Text
listing_lines opts none = []
listing_lines opts (some entries) =
    if opts.include_listing
    then map (λ (e : Text). opts.indent ++ (opts.indent ++ (codes "// " ++ strip e))) entries
    else []

-- What stands below `condition:`; an empty condition counts as none.
abbrev pub condition_lines :
    EmitOptions → Rule → Option (List Text) → Option Text → List Text × List Warning
condition_lines opts rule listing (some (c ∷ t)) =
    ((opts.indent ++ (opts.indent ++ (c ∷ t))) ∷ [], [])
condition_lines opts rule listing _ = (
  (opts.indent
        ++ (opts.indent
            ++ (placeholder (visible_strings rule)
                ++ codes
                    "  // FIXME: condition NOT reconstructed - placeholder, not the original logic")))
      ∷ listing_lines opts listing,
  condition_lost rule.identifier ∷ [],
)

abbrev pub meta_line : Text → Meta → Text
meta_line ind m = ind ++ (ind ++ (m.identifier ++ (codes " = " ++ meta_text m.value)))

unfoldable pub rule_lines : Rule → EmitOptions → Option (List Text) → List Text
rule_lines rule opts listing =
    header_line rule
    ∷ codes "{"
    ∷ (block opts.indent (codes "meta:") (meta_line opts.indent) rule.metas
        ++ (block opts.indent (codes "strings:") (string_line opts.indent) (visible_strings rule)
            ++ ((opts.indent ++ codes "condition:")
                ∷ ((condition_lines opts rule listing rule.condition).0 ++ (codes "}" ∷ [])))))

unfoldable pub render_rule : Rule → EmitOptions → Option (List Text) → Text × List Warning
render_rule rule opts listing = (
  join (codes "\n") (rule_lines rule opts listing),
  string_warnings (visible_strings rule) ++ (condition_lines opts rule listing rule.condition).1,
)

abbrev pub same_namespace : Option Text → Option Text → Bool
same_namespace none none = true
same_namespace (some s) (some t) = text_eq s t
same_namespace _ _ = false

-- `by_ns`, with its keys in the order of their first rules.
abbrev pub Groups : Type 0
Groups = List (Option Text × List Rule)

unfoldable pub add_rule : Groups → Rule → Groups
add_rule [] r = (r.namespace, r ∷ []) ∷ []
add_rule ((ns, rules) ∷ groups) r =
    let rest = add_rule groups r in
    if same_namespace ns r.namespace then (ns, rules ++ (r ∷ [])) ∷ groups else (ns, rules) ∷ rest

unfoldable pub group_rules : Groups → List Rule → Groups
group_rules groups [] = groups
group_rules groups (r ∷ rules) = group_rules (add_rule groups r) rules

abbrev pub is_default : Option Text → Bool
is_default none = true
is_default (some ns) = text_eq ns (codes "default")

unfoldable pub multi_ns : Groups → Bool
multi_ns groups = any (λ (g : Option Text × List Rule). not (is_default g.0)) groups

abbrev pub namespace_text : Option Text → Text
namespace_text none = codes "default"
namespace_text (some []) = codes "default"
namespace_text (some (c ∷ t)) = c ∷ t

abbrev pub Listings : Type 0
Listings = List (ℕ × List Text)

unfoldable pub rule_chunks : EmitOptions → Listings → List Rule → List Text
rule_chunks opts listings [] = []
rule_chunks opts listings (r ∷ rules) =
    (render_rule r opts (dict_get listings r.index)).0 ∷ [] ∷ rule_chunks opts listings rules

unfoldable pub rule_warnings : EmitOptions → Listings → List Rule → List Warning
rule_warnings opts listings [] = []
rule_warnings opts listings (r ∷ rules) =
    (render_rule r opts (dict_get listings r.index)).1 ++ rule_warnings opts listings rules

abbrev pub namespace_line : Bool → Option Text → List Text
namespace_line true ns = (codes "// namespace: " ++ namespace_text ns) ∷ []
namespace_line false ns = []

unfoldable pub group_chunks : EmitOptions → Listings → Bool → Groups → List Text
group_chunks opts listings multi [] = []
group_chunks opts listings multi ((ns, rules) ∷ groups) =
    namespace_line multi ns
    ++ (rule_chunks opts listings rules ++ group_chunks opts listings multi groups)

unfoldable pub group_warnings : EmitOptions → Listings → Groups → List Warning
group_warnings opts listings [] = []
group_warnings opts listings ((ns, rules) ∷ groups) =
    rule_warnings opts listings rules ++ group_warnings opts listings groups

abbrev pub import_chunks : List Text → List Text
import_chunks [] = []
import_chunks (m ∷ ms) =
    map (λ (name : Text). codes "import \"" ++ (name ++ codes "\"")) (m ∷ ms) ++ ([] ∷ [])

unfoldable pub render_all : CompiledRules → EmitOptions → Listings → Text × List Warning
render_all compiled opts listings =
    let groups = group_rules [] compiled.rules in
    (
      rstrip (
            join (codes "\n") (
              import_chunks compiled.imports
              ++ group_chunks opts listings (multi_ns groups) groups))
          ++ codes "\n",
      group_warnings opts listings groups,
    )
