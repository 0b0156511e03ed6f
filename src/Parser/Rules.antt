-- ===== src/Parser/Rules.antt =====
-- `RulesParser.parse_namespaces`, `parse_rules` and `parse`.
use yaradec.Prelude.{
  get_elem?, length, if◌then◌else◌, ◌==◌, leb, ◌++◌, ◌∷◌, [], List, none, Option, ◌^◌, ◌%◌, ◌/◌,
  ◌*◌, ◌+◌, suc, zero, Bool, ℕ,
}
use yaradec.Prelude.Int.{signed}
use yaradec.Prelude.Text.{Text, codes, show_dec}
use yaradec.Result.{
  Result, ok, map_ok, ◌>>=◌, ◌>>◌, guard, arena_error, summary_too_small, namespaces_truncated,
  rules_truncated,
}
use yaradec.Bytes.{Bytes, unpack_from, field_at}
use yaradec.Arena.{Arena, Ref, is_null, parse}
use yaradec.Arena.Access.{buffer, cstring, cstring_list}
use yaradec.Constants.{has, sizeof_rule, sizeof_namespace}
use yaradec.Constants.Section
use yaradec.Constants.RuleFlags
use yaradec.Parser.Structs.{YrString, Rule, Summary, CompiledRules}
use yaradec.Parser.Metas.{or_default, ref_of, parse_metas}
use yaradec.Parser.Strings.{parse_strings}

unfoldable pub read_summary : Arena → Result Summary
read_summary a = buffer a Section.summary_section >>= λ buf.
    guard (leb 12 (length buf)) (arena_error summary_too_small)
    >> map_ok
        (λ vals. record {
          num_rules = field_at vals 0;
          num_strings = field_at vals 1;
          num_namespaces = field_at vals 2;
        })
        (unpack_from (4 ∷ 4 ∷ 4 ∷ []) buf 0)

unfoldable pub namespaces_loop : Arena → Bytes → ℕ → ℕ → Result (List Text)
namespaces_loop a buf i zero = ok []
namespaces_loop a buf i (suc remaining) =
    guard (leb (i * sizeof_namespace + sizeof_namespace) (length buf))
      (arena_error (namespaces_truncated i))
    >> (unpack_from (4 ∷ 4 ∷ 8 ∷ []) buf (i * sizeof_namespace) >>= λ vals.
        cstring a (ref_of vals 0) >>= λ name.
        map_ok (λ more. or_default (codes "default") name ∷ more)
          (namespaces_loop a buf (suc i) remaining))

unfoldable pub parse_namespaces : Arena → ℕ → Result (List Text)
parse_namespaces a num_namespaces =
    buffer a Section.namespaces_table >>= λ buf. namespaces_loop a buf 0 num_namespaces

-- `by_rule.get(i, [])`
unfoldable pub strings_of_rule : List YrString → ℕ → List YrString
strings_of_rule [] i = []
strings_of_rule (s ∷ strings) i =
    let rest = strings_of_rule strings i in if s.rule_index == i then s ∷ rest else rest

unfoldable pub insert_string : YrString → List YrString → List YrString
insert_string s [] = s ∷ []
insert_string s (t ∷ ts) =
    let rest = insert_string s ts in if leb s.index t.index then s ∷ t ∷ ts else t ∷ rest

-- `sorted(…, key=lambda s: s.index)`, which is stable.
unfoldable pub sort_strings : List YrString → List YrString
sort_strings [] = []
sort_strings (s ∷ ss) = insert_string s (sort_strings ss)

unfoldable pub rule_strings : List YrString → ℕ → List YrString
rule_strings strings i = sort_strings (strings_of_rule strings i)

unfoldable pub namespace_of : List Text → Ref → Option Text
namespace_of namespaces ref =
    if is_null ref then none else get_elem? namespaces (ref.offset / sizeof_namespace)

-- `_RULE_FMT`
abbrev pub rule_format : List ℕ
rule_format = 4 ∷ 4 ∷ 4 ∷ 4 ∷ 4 ∷ 4 ∷ 4 ∷ 4 ∷ 4 ∷ 4 ∷ 4 ∷ 4 ∷ 4 ∷ 4 ∷ []

-- Rule `i` from its fields.
unfoldable pub rule_of : Arena → List Text → List YrString → ℕ → List ℕ → Result Rule
rule_of a namespaces strings i vals = cstring a (ref_of vals 4) >>= λ identifier.
    cstring_list a (ref_of vals 6) >>= λ tags.
    map_ok
      (λ metas. record {
        index = i;
        identifier = or_default (codes "rule_" ++ show_dec i) identifier;
        namespace = namespace_of namespaces (ref_of vals 12);
        flags = field_at vals 0 % 16;
        tags = tags;
        metas = metas;
        strings = rule_strings strings i;
        num_atoms = signed (2 ^ 31) (field_at vals 1);
        required_strings = field_at vals 2;
        condition = none;
      })
      (parse_metas a (ref_of vals 8))

-- A round at the unpacked fields: the sentinel ends the table.
abbrev pub rule_round :
    Arena → List Text → List YrString → ℕ → List ℕ → Result (List Rule) → Result (List Rule)
rule_round a namespaces strings i vals rest =
    if has (field_at vals 0 % 16) RuleFlags.null
    then ok []
    else rule_of a namespaces strings i vals >>= λ r. map_ok (λ more. r ∷ more) rest

unfoldable pub rules_loop : Arena → List Text → List YrString → Bytes → ℕ → ℕ → Result (List Rule)
rules_loop a namespaces strings buf i zero = ok []
rules_loop a namespaces strings buf i (suc remaining) =
    guard (leb (i * sizeof_rule + sizeof_rule) (length buf)) (arena_error (rules_truncated i))
    >> (unpack_from rule_format buf (i * sizeof_rule) >>= λ vals.
        rule_round a namespaces strings i vals
          (rules_loop a namespaces strings buf (suc i) remaining))

unfoldable pub parse_rules : Arena → ℕ → List Text → List YrString → Result (List Rule)
parse_rules a num_rules namespaces strings =
    buffer a Section.rules_table >>= λ buf. rules_loop a namespaces strings buf 0 num_rules

-- `RulesParser(arena).parse()`
unfoldable pub parse_compiled : Arena → Result CompiledRules
parse_compiled a = read_summary a >>= λ summary.
    parse_namespaces a summary.num_namespaces >>= λ namespaces.
    parse_strings a summary.num_strings >>= λ strings.
    map_ok
      (λ rules. record {
        arena = a;
        summary = summary;
        namespaces = namespaces;
        rules = rules;
        strings = strings;
        imports = [];
      })
      (parse_rules a summary.num_rules namespaces strings)

-- On the contents of the file at `path`.
unfoldable pub parse_file : Bytes → Bool → Result CompiledRules
parse_file input strict = parse input strict >>= λ (a : Arena). parse_compiled a
