-- ===== src/Parser/Errors.antt =====
-- What the parser of the sections raises on any arena.
use yaradec.Prelude.Text.{Text}
use yaradec.Bytes.{fields, fields, Bytes, field_at, unpack_from}
use yaradec.Prelude.{
  Bool, drop, length, ◌==◌, leb, ltb, ◌∷◌, [], List, some, none, Option, inr, inl, ◌<◌, ◌%◌, ◌*◌,
  ◌+◌, suc, zero, ℕ, arith, Bool-cases,
}
use yaradec.Result.{
  Result, summary_too_small, namespaces_truncated, strings_truncated, rules_truncated,
}
use yaradec.Arena.{Arena, Ref, is_null, parse}
use yaradec.Arena.Access.{buffer, cstring, cstring_list}
use yaradec.Arena.Errors.{
  parse-OnlyArena, OnlyArena, bind-OnlyArena, map_ok-OnlyArena, guard-OnlyArena,
  unpack_from-OnlyArena, buffer-OnlyArena, cstring-OnlyArena, cstring_list-OnlyArena,
}
use yaradec.Constants.{
  has, meta_string, meta_boolean, meta_integer, meta_flags_last_in_rule, sizeof_meta, sizeof_string,
  sizeof_rule, sizeof_namespace,
}
use yaradec.Constants.Section
use yaradec.Constants.RuleFlags
use yaradec.Parser.Structs.{Meta, MetaValue, YrString, Rule}
use yaradec.Parser.Metas.{
  ref_of, meta_format, meta_value, after_value, meta_round, metas_loop, parse_metas,
}
use yaradec.Parser.Strings.{string_format, string_of, strings_loop, parse_strings}
use yaradec.Parser.Rules.{
  parse_file, read_summary, namespaces_loop, parse_namespaces, rule_format, rule_of, rule_round,
  rules_loop, parse_rules, parse_compiled,
}

meta_value-OnlyArena :
    (a : Arena) (mtype : ℕ) (str_ref : Ref) (integer : ℕ)
    → OnlyArena (meta_value a mtype str_ref integer)
unfolding meta_value
meta_value-OnlyArena a mtype str_ref integer = elim (Bool-cases (mtype == meta_string)) [
  | inl e ↦ rw e (map_ok-OnlyArena _ (cstring a str_ref) (cstring-OnlyArena a str_ref))
  | inr e1 ↦ rw e1 (elim (Bool-cases (mtype == meta_boolean)) [
    | inl e ↦ rw e tt
    | inr e2 ↦
        rw e2 (elim (Bool-cases (mtype == meta_integer)) [ inl e ↦ rw e tt | inr e ↦ rw e tt ])
  ])
]

after_value-OnlyArena :
    (identifier : Text) (flags count : ℕ) (value : Option MetaValue) (rest : Result (List Meta))
    → OnlyArena rest
    → OnlyArena (after_value identifier flags count value rest)
after_value-OnlyArena identifier flags count none rest h = tt
after_value-OnlyArena identifier flags count (some value) rest h =
    elim (Bool-cases (has flags meta_flags_last_in_rule)) [
      | inl e ↦ rw e tt
      | inr e1 ↦ rw e1 (elim (Bool-cases (ltb 4096 (count + 1))) [
        | inl e ↦ rw e tt
        | inr e ↦ rw e (map_ok-OnlyArena _ rest h)
      ])
    ]

meta_round-OnlyArena :
    (a : Arena) (count : ℕ) (vals : List ℕ) (rest : Result (List Meta))
    → OnlyArena rest
    → OnlyArena (meta_round a count vals rest)
unfolding meta_round
meta_round-OnlyArena a count vals rest h =
    bind-OnlyArena (cstring a (ref_of vals 0)) _ (cstring-OnlyArena a (ref_of vals 0))
      (λ identifier.
        bind-OnlyArena (meta_value a (field_at vals 5) (ref_of vals 2) (field_at vals 4)) _
          (meta_value-OnlyArena a (field_at vals 5) (ref_of vals 2) (field_at vals 4))
          (λ value. after_value-OnlyArena _ (field_at vals 6) count value rest h))

-- Each round takes 32 bytes of the buffer, so the fuel does not run out.
metas_loop-OnlyArena :
    (fuel : ℕ) (a : Arena) (buf : Bytes) (off count : ℕ)
    → length buf < fuel + off
    → 0 < fuel
    → OnlyArena (metas_loop fuel a buf off count)
unfolding metas_loop
metas_loop-OnlyArena zero a buf off count enough some_fuel = absurd (omega arith)
metas_loop-OnlyArena (suc fuel) a buf off count enough some_fuel =
    elim (Bool-cases (leb (off + sizeof_meta) (length buf))) [
      | inl inside ↦ rw inside (
          meta_round-OnlyArena a count (fields meta_format (drop off buf))
            (metas_loop fuel a buf (off + sizeof_meta) (count + 1))
            (metas_loop-OnlyArena fuel a buf (off + sizeof_meta) (count + 1) (ground arith)
              (ground arith)))
      | inr past ↦ rw past tt
    ]

parse_metas-OnlyArena : (a : Arena) (start : Ref) → OnlyArena (parse_metas a start)
unfolding parse_metas
parse_metas-OnlyArena a start = elim (Bool-cases (is_null start)) [
  | inl e ↦ rw e tt
  | inr e ↦ rw e (
      bind-OnlyArena (buffer a start.buffer_id) _ (buffer-OnlyArena a start.buffer_id) (λ buf.
        metas_loop-OnlyArena (suc (length buf)) a buf start.offset 0 (omega arith) (omega arith)))
]

read_summary-OnlyArena : (a : Arena) → OnlyArena (read_summary a)
unfolding read_summary
read_summary-OnlyArena a =
    bind-OnlyArena (buffer a Section.summary_section) _ (buffer-OnlyArena a Section.summary_section)
      (λ buf. guard-OnlyArena (leb 12 (length buf)) summary_too_small _ (λ inside.
        map_ok-OnlyArena _ (unpack_from (4 ∷ 4 ∷ 4 ∷ []) buf 0)
          (unpack_from-OnlyArena (4 ∷ 4 ∷ 4 ∷ []) buf 0 inside)))

namespaces_loop-OnlyArena :
    (a : Arena) (buf : Bytes) (i n : ℕ) → OnlyArena (namespaces_loop a buf i n)
unfolding namespaces_loop
namespaces_loop-OnlyArena a buf i zero = tt
namespaces_loop-OnlyArena a buf i (suc n) =
    guard-OnlyArena (leb (i * sizeof_namespace + sizeof_namespace) (length buf))
      (namespaces_truncated i) _
      (λ inside.
        bind-OnlyArena (unpack_from (4 ∷ 4 ∷ 8 ∷ []) buf (i * sizeof_namespace)) _
          (unpack_from-OnlyArena (4 ∷ 4 ∷ 8 ∷ []) buf (i * sizeof_namespace) inside)
          (λ vals.
            bind-OnlyArena (cstring a (ref_of vals 0)) _ (cstring-OnlyArena a (ref_of vals 0))
              (λ name.
                map_ok-OnlyArena _ (namespaces_loop a buf (suc i) n)
                  (namespaces_loop-OnlyArena a buf (suc i) n))))

string_of-OnlyArena : (a : Arena) (i : ℕ) (vals : List ℕ) → OnlyArena (string_of a i vals)
unfolding string_of
string_of-OnlyArena a i vals =
    map_ok-OnlyArena _ (cstring a (ref_of vals 11)) (cstring-OnlyArena a (ref_of vals 11))

strings_loop-OnlyArena : (a : Arena) (buf : Bytes) (i n : ℕ) → OnlyArena (strings_loop a buf i n)
unfolding strings_loop
strings_loop-OnlyArena a buf i zero = tt
strings_loop-OnlyArena a buf i (suc n) =
    guard-OnlyArena (leb (i * sizeof_string + sizeof_string) (length buf)) (strings_truncated i) _
      (λ inside.
        bind-OnlyArena (unpack_from string_format buf (i * sizeof_string)) _
          (unpack_from-OnlyArena string_format buf (i * sizeof_string) inside)
          (λ vals. bind-OnlyArena (string_of a i vals) _ (string_of-OnlyArena a i vals) (λ s.
            map_ok-OnlyArena _ (strings_loop a buf (suc i) n)
              (strings_loop-OnlyArena a buf (suc i) n))))

rule_of-OnlyArena :
    (a : Arena) (namespaces : List Text) (strings : List YrString) (i : ℕ) (vals : List ℕ)
    → OnlyArena (rule_of a namespaces strings i vals)
unfolding rule_of
rule_of-OnlyArena a namespaces strings i vals =
    bind-OnlyArena (cstring a (ref_of vals 4)) _ (cstring-OnlyArena a (ref_of vals 4))
      (λ identifier.
        bind-OnlyArena (cstring_list a (ref_of vals 6)) _ (cstring_list-OnlyArena a (ref_of vals 6))
          (λ tags.
            map_ok-OnlyArena _ (parse_metas a (ref_of vals 8))
              (parse_metas-OnlyArena a (ref_of vals 8))))

rule_round-OnlyArena :
    (a : Arena) (namespaces : List Text) (strings : List YrString) (i : ℕ) (vals : List ℕ)
    (rest : Result (List Rule))
    → OnlyArena rest
    → OnlyArena (rule_round a namespaces strings i vals rest)
rule_round-OnlyArena a namespaces strings i vals rest h =
    elim (Bool-cases (has (field_at vals 0 % 16) RuleFlags.null)) [
      | inl e ↦ rw e tt
      | inr e ↦ rw e (
          bind-OnlyArena (rule_of a namespaces strings i vals) _
            (rule_of-OnlyArena a namespaces strings i vals) (λ r. map_ok-OnlyArena _ rest h))
    ]

rules_loop-OnlyArena :
    (a : Arena) (namespaces : List Text) (strings : List YrString) (buf : Bytes) (i n : ℕ)
    → OnlyArena (rules_loop a namespaces strings buf i n)
unfolding rules_loop
rules_loop-OnlyArena a namespaces strings buf i zero = tt
rules_loop-OnlyArena a namespaces strings buf i (suc n) =
    guard-OnlyArena (leb (i * sizeof_rule + sizeof_rule) (length buf)) (rules_truncated i) _
      (λ inside.
        bind-OnlyArena (unpack_from rule_format buf (i * sizeof_rule)) _
          (unpack_from-OnlyArena rule_format buf (i * sizeof_rule) inside)
          (λ vals.
            rule_round-OnlyArena a namespaces strings i vals
              (rules_loop a namespaces strings buf (suc i) n)
              (rules_loop-OnlyArena a namespaces strings buf (suc i) n)))

-- On any arena, reading its sections ends with the rules or with an `ArenaError`: no error of
-- `struct`, of an index or of a key escapes, and no loop runs on.
pub parse_compiled-OnlyArena : (a : Arena) → OnlyArena (parse_compiled a)
unfolding parse_compiled parse_namespaces parse_strings parse_rules
parse_compiled-OnlyArena a =
    bind-OnlyArena (read_summary a) _ (read_summary-OnlyArena a) (λ summary.
      bind-OnlyArena (parse_namespaces a summary.num_namespaces) _
        (bind-OnlyArena (buffer a Section.namespaces_table) _
          (buffer-OnlyArena a Section.namespaces_table)
          (λ buf. namespaces_loop-OnlyArena a buf 0 summary.num_namespaces))
        (λ namespaces.
          bind-OnlyArena (parse_strings a summary.num_strings) _
            (bind-OnlyArena (buffer a Section.strings_table) _
              (buffer-OnlyArena a Section.strings_table)
              (λ buf. strings_loop-OnlyArena a buf 0 summary.num_strings))
            (λ strings. map_ok-OnlyArena _ (parse_rules a summary.num_rules namespaces strings) (
              bind-OnlyArena (buffer a Section.rules_table) _
                (buffer-OnlyArena a Section.rules_table)
                (λ buf. rules_loop-OnlyArena a namespaces strings buf 0 summary.num_rules)))))

-- On the bytes of any file, strict or not, `parse_file` ends with the rules or with an `ArenaError`.
pub parse_file-OnlyArena : (input : Bytes) (strict : Bool) → OnlyArena (parse_file input strict)
unfolding parse_file
parse_file-OnlyArena input strict =
    bind-OnlyArena (parse input strict) parse_compiled (parse-OnlyArena input strict)
      parse_compiled-OnlyArena
