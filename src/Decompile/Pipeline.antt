-- ===== src/Decompile/Pipeline.antt =====
-- `_recover_imports` and `decompile` of decompile.py, from the file's bytes on.
use yaradec.Prelude.{
  any, if◌then◌else◌, ◌==◌, map, ◌++◌, ◌∷◌, [], List, some, none, Option, ◌||◌, false, true, Bool,
  ◌+◌, ℕ,
}
use yaradec.Prelude.Text.{Text, text_eq}
use yaradec.Result.{Result, ok, ◌>>=◌, map_ok}
use yaradec.Bytes.{Bytes}
use yaradec.Arena.{Arena, Ref, parse}
use yaradec.Arena.Access.{buffer, cstring}
use yaradec.Constants.{has}
use yaradec.Constants.Op.{Op}
use yaradec.Constants.Section
use yaradec.Constants.StringFlags
use yaradec.Code.Decode.{Instr, disassemble, unpack_ref}
use yaradec.Code.Bodies.{dict_set, dict_get, split_rule_bodies}
use yaradec.Code.Listing.{format_listing}
use yaradec.Code.Condition.Monad.{Note}
use yaradec.Code.Condition.Operands.{Context}
use yaradec.Code.Condition.Run.{Outcome, run}
use yaradec.Parser.Structs.{YrString, Rule, CompiledRules}
use yaradec.Parser.Rules.{rule_strings, parse_compiled}
use yaradec.Emit.Rules.{EmitOptions, Listings, render_all}
use yaradec.Emit.Warnings.{Warning, condition_note}
use yaradec.Decompile.Patterns.{Runtime, recover_patterns}

abbrev pub has_name : Text → List Text → Bool
has_name t names = any (λ u. text_eq u t) names

abbrev pub add_import : List Text → Option Text → List Text
add_import out none = out
add_import out (some []) = out
add_import out (some (c ∷ t)) = if has_name (c ∷ t) out then out else out ++ ((c ∷ t) ∷ [])

-- The reference that an IMPORT into the pool of texts has.
abbrev pub import_ref : Op → Option ℕ → Option Ref
import_ref Op.import (some v) =
    if (unpack_ref v).buffer_id == Section.sz_pool then some (unpack_ref v) else none
import_ref op v = none

abbrev pub import_name : Arena → Option Ref → Result (Option Text)
import_name a none = ok none
import_name a (some ref) = cstring a ref

unfoldable pub imports_loop : Arena → List Text → List Instr → Result (List Text)
imports_loop a out [] = ok out
imports_loop a out (ins ∷ rest) = import_name a (import_ref ins.op ins.operand) >>= λ name.
    imports_loop a (add_import out name) rest

unfoldable pub recover_imports : List Instr → Arena → Result (List Text)
recover_imports instrs a = imports_loop a [] instrs

-- `{s.index: s.identifier for s in …}`
unfoldable pub string_names_of : List (ℕ × Text) → List YrString → List (ℕ × Text)
string_names_of names [] = names
string_names_of names (s ∷ ss) = string_names_of (dict_set names s.index s.identifier) ss

unfoldable pub rule_names_of : List (ℕ × Text) → List Rule → List (ℕ × Text)
rule_names_of names [] = names
rule_names_of names (r ∷ rs) = rule_names_of (dict_set names r.index r.identifier) rs

-- The strings of a rule are those of `compiled.strings`, so what was filled in there shows here.
abbrev pub relink : List YrString → Rule → Rule
relink strings r = record r { strings = rule_strings strings r.index }

-- What the loop over the rules leaves: the rules with their conditions, listings and warnings.
pub record Conditions : Type 0 where
  pub rules : List Rule
  pub listings : Listings
  pub warnings : List Warning

abbrev pub or_no_body : Option (List Instr) → List Instr
or_no_body none = []
or_no_body (some body) = body

abbrev pub add_condition : Rule → List Instr → Outcome → Option Text → Conditions → Conditions
add_condition r body o none rest = record {
  rules = record r { condition = none } ∷ rest.rules;
  listings = (r.index, format_listing (λ _. none) body) ∷ rest.listings;
  warnings = map (λ (n : Note). condition_note r.identifier n) o.notes ++ rest.warnings;
}
add_condition r body o (some text) rest = record rest {
  rules = record r { condition = some text } ∷ rest.rules;
}

abbrev pub rule_context : Runtime → Arena → List (ℕ × Text) → List (ℕ × Text) → Rule → Context
rule_context rt a string_names rule_names r = record {
  arena = a;
  string_names = string_names;
  rule_names = rule_names;
  rule_strings = map (λ (s : YrString). s.identifier) r.strings;
  double_repr = rt.double_repr;
  regex_limit = rt.regex_limit;
}

-- The loop over the rules, whose indices differ. `run` decodes nothing, so it does not raise the
-- `CodeError` that the source catches here.
unfoldable pub conditions_loop :
    (Rule → List Instr → Result Outcome) → List (ℕ × List Instr) → List Rule → Result Conditions
conditions_loop recover bodies [] = ok (record { rules = []; listings = []; warnings = [] })
conditions_loop recover bodies (r ∷ rs) =
    let body = or_no_body (dict_get bodies r.index) in
    recover r body >>= λ (o : Outcome).
    map_ok (add_condition r body o o.result) (conditions_loop recover bodies rs)

-- `Result` of decompile.py.
pub record Decompiled : Type 0 where
  pub compiled : CompiledRules
  pub source : Text
  pub warnings : List Warning
  pub listings : Listings

abbrev pub emit : EmitOptions → CompiledRules → Listings → List Warning → Decompiled
emit opts compiled listings warnings =
    let (source, more) = render_all compiled opts listings in
    record {
      compiled = compiled;
      source = source;
      warnings = warnings ++ more;
      listings = listings;
    }

-- The part under `if code_buf:`, which comes back with the listings and the warnings.
abbrev pub recover_conditions :
    Runtime → CompiledRules → Bytes → Result (CompiledRules × Listings × List Warning)
recover_conditions rt compiled [] = ok (compiled, [], [])
recover_conditions rt compiled (b ∷ bs) =
    let string_names = string_names_of [] compiled.strings in
    let rule_names = rule_names_of [] compiled.rules in
    disassemble (b ∷ bs) >>= λ instrs. recover_imports instrs compiled.arena >>= λ imports.
    map_ok
      (λ (c : Conditions).
        (record compiled { imports = imports; rules = c.rules }, c.listings, c.warnings))
      (conditions_loop
        (λ r body. run (rule_context rt compiled.arena string_names rule_names r) body)
        (split_rule_bodies instrs) compiled.rules)

abbrev pub fill_patterns : CompiledRules → List YrString → CompiledRules
fill_patterns compiled strings = record compiled {
  strings = strings;
  rules = map (relink strings) compiled.rules;
}

-- `decompile`, on the contents of the file at `path`.
unfoldable pub decompile : Runtime → EmitOptions → Bool → Bytes → Result Decompiled
decompile rt opts strict input = parse input strict >>= λ (a : Arena).
    parse_compiled a >>= λ (parsed : CompiledRules).
    recover_patterns rt a parsed.strings >>= λ (patterns : List YrString × List Warning).
    buffer a Section.code_section >>= λ (code_buf : Bytes).
    map_ok (λ (c : CompiledRules × Listings × List Warning). emit opts c.0 c.1 (patterns.1 ++ c.2))
      (recover_conditions rt (fill_patterns parsed patterns.0) code_buf)

abbrev pub is_recovered : Option Text → Bool
is_recovered none = false
is_recovered (some []) = false
is_recovered (some (c ∷ t)) = true

abbrev pub count_if {ℓ} : {A : Type ℓ} → (A → Bool) → List A → ℕ
count_if p [] = 0
count_if p (x ∷ xs) = (if p x then 1 else 0) + count_if p xs

unfoldable pub conditions_recovered : Decompiled → ℕ
conditions_recovered d = count_if (λ (r : Rule). is_recovered r.condition) d.compiled.rules

unfoldable pub patterns_recovered : Decompiled → ℕ
patterns_recovered d =
    count_if (λ (s : YrString). has s.flags StringFlags.literal || is_recovered s.rendered)
      d.compiled.strings
