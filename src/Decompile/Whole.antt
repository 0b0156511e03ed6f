-- ===== src/Decompile/Whole.antt =====
-- `decompile` on a whole file, from its bytes to the rules with their conditions.
use yaradec.Prelude.{All, map, ◌++◌, ◌∷◌, [], List, some, Bool, ◌∙◌, ap, sym, refl, ◌≡◌}
use mathlib.Core.List.{append-nil}
use mathlib.Core.Path.{subst}
use yaradec.Arena.{Arena, parse}
use yaradec.Arena.Access.{buffer}
use yaradec.Bytes.{Bytes}
use yaradec.Constants.Section
use yaradec.Code.Writer.{write, write_all, halt, Fits}
use yaradec.Code.Blocks.{New}
use yaradec.Code.Compiled.{show, Valid}
use yaradec.Code.Compiled.Program.{program, blocks}
use yaradec.Parser.Structs.{YrString, Rule, CompiledRules}
use yaradec.Parser.Rules.{rule_strings, parse_compiled}
use yaradec.Parser.RuleStrings.{Chosen, rule_strings-Chosen}
use yaradec.Emit.Rules.{Listings, EmitOptions, render_all}
use yaradec.Emit.Warnings.{Warning}
use yaradec.Result.{ok, map_ok}
use yaradec.Decompile.Patterns.{Runtime, recover_patterns}
use yaradec.Decompile.Pipeline.{fill_patterns, emit, relink, decompile, Decompiled}
use yaradec.Decompile.Names.{
  Distinct, names, string_pair, rule_pair, string_names_of-pairs, rule_names_of-pairs,
}
use yaradec.Decompile.Recovery.{
  Source, rule_code, codes_of, with_condition, context_of, AreValid, recover_conditions-write,
}

module _ (rt : Runtime) (parsed : CompiledRules) (strings : List YrString) where
  -- A condition as for `run-compile`, with the strings that the rule can have.
  abbrev pub IsSource : Source → Type 0
  IsSource s =
      (picked : List YrString)
      → Chosen strings s.rule.index picked
      → Valid (names rt parsed strings picked) s.condition

  -- Each rule as its tables say, in order, with its strings and the text of its condition.
  abbrev pub Described : List Source → List Rule → Type 0
  Described [] rules = rules ≡ []
  Described (s ∷ ss) rules =
      (picked : List YrString) × (rest : List Rule) × Chosen strings s.rule.index picked
      × Described ss rest
      × (rules
          ≡ record s.rule {
            strings = picked;
            condition = some (show (names rt parsed strings picked) s.condition);
          }
            ∷ rest)

  abbrev relinked : Source → Source
  relinked s = record s { rule = relink strings s.rule }

  codes_of-relinked : (ss : List Source) → codes_of (map relinked ss) ≡ codes_of ss
  codes_of-relinked [] = refl
  codes_of-relinked (s ∷ ss) = ap (λ cs. rule_code s ∷ cs) (codes_of-relinked ss)

  rules_relinked :
      (ss : List Source)
      → map (relink strings) (map (λ (s : Source). s.rule) ss)
        ≡ map (λ (s : Source). s.rule) (map relinked ss)
  rules_relinked [] = refl
  rules_relinked (s ∷ ss) = ap (λ rs. relink strings s.rule ∷ rs) (rules_relinked ss)

  module _ (distinct_strings : Distinct [] (map string_pair strings))
      (distinct_rules : Distinct [] (map rule_pair parsed.rules)) where
    context_of-names :
        (r : Rule)
        → context_of rt (fill_patterns parsed strings) (relink strings r)
          ≡ names rt parsed strings (rule_strings strings r.index)
    context_of-names r =
        rw
          (
            string_names_of-pairs strings distinct_strings,
            rule_names_of-pairs strings parsed.rules distinct_rules,
          )
          refl

    IsSource-AreValid :
        (ss : List Source)
        → All IsSource ss
        → AreValid (context_of rt (fill_patterns parsed strings)) (map relinked ss)
    IsSource-AreValid [] h = tt
    IsSource-AreValid (s ∷ ss) (h, hs) = (
      subst (λ c. Valid c s.condition) (sym (context_of-names s.rule))
          (h (rule_strings strings s.rule.index) (rule_strings-Chosen strings s.rule.index)),
      IsSource-AreValid ss hs,
    )

    with_condition-Described :
        (ss : List Source)
        → Described ss
            (map (with_condition (context_of rt (fill_patterns parsed strings))) (map relinked ss))
    with_condition-Described [] = refl
    with_condition-Described (s ∷ ss) = (
      rule_strings strings s.rule.index,
      map (with_condition (context_of rt (fill_patterns parsed strings))) (map relinked ss),
      rule_strings-Chosen strings s.rule.index,
      with_condition-Described ss,
      ap
          (λ c.
            record s.rule {
              strings = rule_strings strings s.rule.index;
              condition = some (show c s.condition);
            }
            ∷ map (with_condition (context_of rt (fill_patterns parsed strings))) (map relinked ss))
          (context_of-names s.rule),
    )

-- What `decompile` returns for the sources of the rules.
pub record Decompiles (rt : Runtime) (opts : EmitOptions) (parsed : CompiledRules)
    (strings : List YrString) (warnings : List Warning) (ss : List Source) (d : Decompiled)
    : Type 0 where
  pub namespaces : d.compiled.namespaces ≡ parsed.namespaces
  pub strings_filled : d.compiled.strings ≡ strings
  pub rules : Described rt parsed strings ss d.compiled.rules
  pub no_imports : d.compiled.imports ≡ []
  pub no_listings : d.listings ≡ []
  pub source : d.source ≡ (render_all d.compiled opts []).0
  pub warned : d.warnings ≡ warnings ++ (render_all d.compiled opts []).1

-- What `decompile` returns of a file that the readers take and whose patterns are recovered. The code
-- section is that of the tables' rules, then HALT and anything; the strings have distinct numbers and
-- so have the rules, each condition is one as for `run-compile` in the names of the strings and rules,
-- and the arguments of all instructions fit their fields. The namespaces are those of the tables and
-- the strings those that the recovery of patterns gave; every rule is that of the tables, with its
-- strings among these, sorted by their index, and its condition's source text; there is no import and
-- no listing; the text is what the emitter makes of these; and the warnings are those of the recovery
-- of patterns and then those of the emitter.
pub decompile-write :
    (rt : Runtime) (opts : EmitOptions) (strict : Bool) (input : Bytes) (a : Arena)
    (parsed : CompiledRules) (strings : List YrString) (warnings : List Warning) (ss : List Source)
    (rest : Bytes)
    → parse input strict ≡ ok a
    → parse_compiled a ≡ ok parsed
    → recover_patterns rt a parsed.strings ≡ ok (strings, warnings)
    → buffer a Section.code_section ≡ ok (write_all (program (codes_of ss)) ++ (write halt ++ rest))
    → parsed.rules ≡ map (λ (s : Source). s.rule) ss
    → Distinct [] (map string_pair strings)
    → Distinct [] (map rule_pair parsed.rules)
    → All (IsSource rt parsed strings) ss
    → New [] (blocks 0 (codes_of ss))
    → All Fits (program (codes_of ss))
    → (d : Decompiled) × (decompile rt opts strict input ≡ ok d)
      × Decompiles rt opts parsed strings warnings ss d
unfolding decompile
decompile-write rt opts strict input a parsed strings warnings ss rest read parse_ok patterns
      section tables distinct_strings distinct_rules v new fits =
    let filled : CompiledRules = fill_patterns parsed strings in
    let sources : List Source = map (relinked rt parsed strings) ss in
    let same : codes_of sources ≡ codes_of ss = codes_of-relinked rt parsed strings ss in
    let compiled : CompiledRules = record filled {
      imports = [];
      rules = map (with_condition (context_of rt filled)) sources;
    } in
    let recovered =
      recover_conditions-write rt filled sources rest
        (ap (map (relink strings)) tables ∙ rules_relinked rt parsed strings ss)
        (IsSource-AreValid rt parsed strings distinct_strings distinct_rules ss v)
        (subst (λ cs. New [] (blocks 0 cs)) (sym same) new)
        (subst (λ cs. All Fits (program cs)) (sym same) fits) in
    let section_written : buffer a Section.code_section
        ≡ ok (write_all (program (codes_of sources)) ++ (write halt ++ rest)) =
      section ∙ ap (λ cs. ok (write_all (program cs) ++ (write halt ++ rest))) (sym same) in
    (
      emit opts compiled [] (warnings ++ []),
      rw read (
          rw parse_ok (
            rw patterns (
              rw section_written (
                ap
                  (map_ok (λ (c : CompiledRules × Listings × List Warning).
                    emit opts c.0 c.1 (warnings ++ c.2)))
                  recovered)))),
      record {
        namespaces = refl;
        strings_filled = refl;
        rules = with_condition-Described rt parsed strings distinct_strings distinct_rules ss;
        no_imports = refl;
        no_listings = refl;
        source = refl;
        warned = ap (λ w. w ++ (render_all compiled opts []).1) (append-nil warnings);
      },
    )
