-- ===== src/Parser/RoundTrip.antt =====
-- `parse` of parser.py on the tables as YARA's compiler lays them out.
use yaradec.Prelude.{
  length-append, leb, true, ◌∙◌, ap, ℕ, All, length, map, ◌++◌, ◌∷◌, [], List, refl, ◌≡◌, arith,
}
use yaradec.Prelude.Text.{Text}
use yaradec.Result.{guard, ◌>>◌, arena_error, summary_too_small, ok, map_ok}
use yaradec.Bytes.{field_at, Bytes, pack, unpack_from}
use yaradec.Bytes.Laws.{Fit, unpack_from_at, length-pack}
use yaradec.Arena.{Arena}
use yaradec.Arena.Access.{buffer}
use yaradec.Constants.Section
use yaradec.Parser.Structs.{YrString, Summary, CompiledRules}
use yaradec.Parser.StringWriter
use yaradec.Parser.RuleWriter
use yaradec.Parser.RuleWriter.{
  write_rules, RulesAre, rules_from, rules_from-RulesAre, rules_loop-write,
}
use yaradec.Parser.SpaceWriter.{Space, IsSpace, write_namespaces, namespaces_loop-write}
use yaradec.Parser.StringWriter.{string_at, write_strings, parse_strings-write}
use yaradec.Parser.Rules.{read_summary, parse_namespaces, parse_rules, parse_compiled}

-- The tables of an arena, and what stands behind each in its buffer.
pub record Tables (a : Arena) : Type 0 where
  pub spaces : List Space
  pub strings : List StringWriter.Row
  pub rules : List RuleWriter.Row
  pub after_spaces : Bytes
  pub after_strings : Bytes
  pub after_rules : Bytes
  pub after_summary : Bytes
  pub spaces_read : buffer a Section.namespaces_table ≡ ok (write_namespaces spaces ++ after_spaces)
  pub strings_read : buffer a Section.strings_table ≡ ok (write_strings strings ++ after_strings)
  pub rules_read : buffer a Section.rules_table ≡ ok (write_rules rules ++ after_rules)
  pub summary_read :
      buffer a Section.summary_section
      ≡ ok (
          pack (4 ∷ 4 ∷ 4 ∷ []) (length rules ∷ length strings ∷ length spaces ∷ [])
          ++ after_summary)
  pub counts : Fit (4 ∷ 4 ∷ 4 ∷ []) (length rules ∷ length strings ∷ length spaces ∷ [])
  pub are_spaces : All (IsSpace a) spaces
  pub are_strings : All (StringWriter.IsRow a) strings
  pub are_rules : All (RuleWriter.IsRow a) rules

abbrev summary_of : (a : Arena) → Tables a → Summary
summary_of a t = record {
  num_rules = length t.rules;
  num_strings = length t.strings;
  num_namespaces = length t.spaces;
}

abbrev summary_from : List ℕ → Summary
summary_from vals = record {
  num_rules = field_at vals 0;
  num_strings = field_at vals 1;
  num_namespaces = field_at vals 2;
}

read_summary-write : (a : Arena) (t : Tables a) → read_summary a ≡ ok (summary_of a t)
unfolding read_summary
read_summary-write a t =
    let fmt : List ℕ = 4 ∷ 4 ∷ 4 ∷ [] in
    let vals : List ℕ = length t.rules ∷ length t.strings ∷ length t.spaces ∷ [] in
    let buf : Bytes = pack fmt vals ++ t.after_summary in
    let inside : leb 12 (length buf) ≡ true =
      ground
        (arith, length-append (pack fmt vals) t.after_summary, length-pack fmt vals t.counts) in
    rw t.summary_read (
      ap
        (λ b.
          guard b (arena_error summary_too_small) >> map_ok summary_from (unpack_from fmt buf 0))
        inside
      ∙ ap (map_ok summary_from)
          (unpack_from_at fmt vals buf 0 t.after_summary t.counts (omega arith) refl))

abbrev names_of : (a : Arena) → Tables a → List Text
names_of a t = map (λ (s : Space). s.name) t.spaces

-- What the tables say: every row's namespace, string and rule, in order.
pub record Content (a : Arena) (t : Tables a) (c : CompiledRules) : Type 0 where
  pub arena : c.arena ≡ a
  pub summary : c.summary ≡ summary_of a t
  pub namespaces : c.namespaces ≡ names_of a t
  pub strings : c.strings ≡ map string_at t.strings
  pub rules : RulesAre (names_of a t) (map string_at t.strings) 0 t.rules c.rules
  pub no_imports : c.imports ≡ []

abbrev content : (a : Arena) → Tables a → CompiledRules
content a t = record {
  arena = a;
  summary = summary_of a t;
  namespaces = names_of a t;
  rules = rules_from (names_of a t) (map string_at t.strings) 0 t.rules;
  strings = map string_at t.strings;
  imports = [];
}

parse_compiled_content : (a : Arena) (t : Tables a) → parse_compiled a ≡ ok (content a t)
unfolding parse_compiled parse_namespaces parse_rules
parse_compiled_content a t =
    let names : List Text = map (λ (s : Space). s.name) t.spaces in
    let strings : List YrString = map string_at t.strings in
    rw (read_summary-write a t) (
      rw (t.spaces_read, t.rules_read)
        (rw
          (
            namespaces_loop-write a (write_namespaces t.spaces ++ t.after_spaces) 0 t.spaces
                t.after_spaces t.are_spaces refl,
            parse_strings-write a t.strings t.after_strings t.strings_read t.are_strings,
          )
          (rw
            (rules_loop-write a names strings (write_rules t.rules ++ t.after_rules) 0 t.rules
              t.after_rules t.are_rules refl)
            refl)))

-- Tables that were written into their buffers, with the summary of their lengths, are read back, where
-- the fields fit, no name is empty, no rule is a sentinel, every name stands where its row says, and a
-- literal's bytes and the rules' tags and metas stand at their references: every namespace; every
-- string, literals with their bytes, and the others with the place of their program or, at a null
-- reference, with none; and every rule with its number, its namespace, its tags, its metas and its
-- strings. These are sorted by their index, and for every index they are the strings of the table that
-- carry the rule's number and this index, in the table's order.
pub parse_compiled-write :
    (a : Arena) (t : Tables a) → (c : CompiledRules) × (parse_compiled a ≡ ok c) × Content a t c
parse_compiled-write a t = (
  content a t,
  parse_compiled_content a t,
  record {
    arena = refl;
    summary = refl;
    namespaces = refl;
    strings = refl;
    rules = rules_from-RulesAre (names_of a t) (map string_at t.strings) 0 t.rules;
    no_imports = refl;
  },
)
