-- ===== src/Parser/RuleWriter.antt =====
-- The table of rules as YARA's compiler lays it out, and `parse_rules` against it.
use yaradec.Prelude.{
  map, inr, inl, ◌⊎◌, sym, ◌≤◌, All, refl, ◌%◌, ◌/◌, drop, get_elem?, length, leb, ◌++◌, ◌∷◌, [],
  List, some, none, false, true, ◌≢◌, ◌∙◌, ap, ◌≡◌, ◌<◌, ◌^◌, ◌*◌, ◌+◌, suc, ℕ, arith,
}
use yaradec.Prelude.Int.{ℤ, unsigned, FitsSigned, signed-unsigned, unsigned-lt}
use yaradec.Prelude.Text.{Text, codes, show_dec}
use yaradec.Result.{map_ok, map_ok, guard, ◌>>◌, arena_error, rules_truncated, Result, ok, ◌>>=◌}
use yaradec.Bytes.{Bytes, pack, unpack_from}
use yaradec.Bytes.Laws.{Fit}
use yaradec.Arena.{Arena, Ref, is_null}
use yaradec.Arena.Access.{cstring, cstring_list, cstring_list_bytes}
use yaradec.Constants.{has}
use yaradec.Constants.Section
use yaradec.Constants.RuleFlags
use yaradec.Parser.Structs.{Meta, YrString, Rule}
use yaradec.Parser.Metas.{parse_metas}
use yaradec.Parser.MetaWriter
use yaradec.Parser.MetaWriter.{write_metas, parse_metas-write}
use yaradec.Parser.RuleStrings.{Chosen, rule_strings-Chosen}
use yaradec.Arena.Reads.{StandsAt, tag_bytes, IsTag, cstring_list_bytes-StandsAt}
use yaradec.Bytes.Utf8.{decode_utf8}
use yaradec.Parser.Records.{or_default_nonempty, Ref32, record_inside, record_next, record_read}
use yaradec.Parser.Rules.{rule_strings, namespace_of, rule_format, rule_of, rule_round, rules_loop}

-- A rule's record, and what it refers to.
pub record Row : Type 0 where
  pub flags : ℕ
  pub num_atoms : ℤ
  pub required_strings : ℕ
  pub unused : ℕ
  pub name : Ref
  pub identifier : Text
  pub tags_ref : Ref
  pub tags : List Text
  pub metas_ref : Ref
  pub metas : List Meta
  pub strings_ref : Ref
  -- The namespace's number.
  pub space : ℕ

abbrev row_fields : Row → List ℕ
row_fields r =
    r.flags
    ∷ unsigned (2 ^ 31) r.num_atoms
    ∷ r.required_strings
    ∷ r.unused
    ∷ r.name.buffer_id
    ∷ r.name.offset
    ∷ r.tags_ref.buffer_id
    ∷ r.tags_ref.offset
    ∷ r.metas_ref.buffer_id
    ∷ r.metas_ref.offset
    ∷ r.strings_ref.buffer_id
    ∷ r.strings_ref.offset
    ∷ Section.namespaces_table
    ∷ 16 * r.space
    ∷ []

abbrev pub write_rules : List Row → Bytes
write_rules [] = []
write_rules (r ∷ rows) = pack rule_format (row_fields r) ++ write_rules rows

-- The tags stand at the reference one after the other, each closed by a NUL, with one more NUL behind
-- them; a rule without tags may have a null reference.
abbrev pub TagsAt : Arena → Ref → List Text → Type 0
TagsAt a ref tags =
    ((is_null ref ≡ true) × (tags ≡ []))
    ⊎ ((ts : List Bytes) × (rest : Bytes) × All IsTag ts
        × StandsAt a ref (tag_bytes ts) (0 ∷ rest)
        × (tags ≡ map decode_utf8 ts))

-- At most 4097 metas stand at the reference, the last of them marked; a rule without metas has a null
-- reference.
abbrev pub MetasAt : Arena → Ref → List Meta → Type 0
MetasAt a ref metas =
    ((is_null ref ≡ true) × (metas ≡ []))
    ⊎ ((r : MetaWriter.Row) × (rows : List MetaWriter.Row) × (rest : Bytes) × StandsAt a ref
          (write_metas r rows) rest
        × MetaWriter.IsRow a r
        × All (MetaWriter.IsRow a) rows
        × (length rows ≤ 4096)
        × (metas ≡ r.meta ∷ map (λ (m : MetaWriter.Row). m.meta) rows))

-- The fields fit, the rule is no sentinel, and what it refers to is there.
pub record IsRow (a : Arena) (r : Row) : Type 0 where
  pub words : (r.flags < 16) × (r.required_strings < 2 ^ 32) × (r.unused < 2 ^ 32)
  pub atoms : FitsSigned (2 ^ 31) r.num_atoms
  pub live : has r.flags RuleFlags.null ≡ false
  pub refs : Ref32 r.name × Ref32 r.tags_ref × Ref32 r.metas_ref × Ref32 r.strings_ref
  pub spaced : 16 * r.space < 2 ^ 32
  pub named : cstring a r.name ≡ ok (some r.identifier)
  pub some_name : r.identifier ≢ []
  pub tagged : TagsAt a r.tags_ref r.tags
  pub described : MetasAt a r.metas_ref r.metas

-- Rule `i` of the table, with its strings.
abbrev pub rule_at : List Text → List YrString → ℕ → Row → Rule
rule_at namespaces picked i r = record {
  index = i;
  identifier = r.identifier;
  namespace = get_elem? namespaces r.space;
  flags = r.flags;
  tags = r.tags;
  metas = r.metas;
  strings = picked;
  num_atoms = r.num_atoms;
  required_strings = r.required_strings;
  condition = none;
}

-- Each row's rule, in order, with its number, its namespace and the strings that the table gives it.
abbrev pub RulesAre : List Text → List YrString → ℕ → List Row → List Rule → Type 0
RulesAre namespaces strings i [] rules = rules ≡ []
RulesAre namespaces strings i (r ∷ rows) rules =
    (picked : List YrString) × (rest : List Rule) × Chosen strings i picked
    × RulesAre namespaces strings (suc i) rows rest
    × (rules ≡ rule_at namespaces picked i r ∷ rest)

abbrev pub rules_from : List Text → List YrString → ℕ → List Row → List Rule
rules_from namespaces strings i [] = []
rules_from namespaces strings i (r ∷ rows) =
    rule_at namespaces (rule_strings strings i) i r ∷ rules_from namespaces strings (suc i) rows

pub rules_from-RulesAre :
    (namespaces : List Text) (strings : List YrString) (i : ℕ) (rows : List Row)
    → RulesAre namespaces strings i rows (rules_from namespaces strings i rows)
rules_from-RulesAre namespaces strings i [] = refl
rules_from-RulesAre namespaces strings i (r ∷ rows) = (
  rule_strings strings i,
  rules_from namespaces strings (suc i) rows,
  rule_strings-Chosen strings i,
  rules_from-RulesAre namespaces strings (suc i) rows,
  refl,
)

module _ (a : Arena) where
  cstring_list-TagsAt :
      (ref : Ref) (tags : List Text) → TagsAt a ref tags → cstring_list a ref ≡ ok tags
  unfolding cstring_list cstring_list_bytes
  cstring_list-TagsAt ref tags (inl (null, none_there)) = rw (null, none_there) refl
  cstring_list-TagsAt ref tags (inr (ts, rest, are, there, same)) =
      ap (map_ok (map decode_utf8)) (cstring_list_bytes-StandsAt a ref ts rest are there)
      ∙ ap ok (sym same)

  parse_metas-MetasAt :
      (ref : Ref) (metas : List Meta) → MetasAt a ref metas → parse_metas a ref ≡ ok metas
  unfolding parse_metas
  parse_metas-MetasAt ref metas (inl (null, none_there)) = rw (null, none_there) refl
  parse_metas-MetasAt ref metas (inr (r, rows, rest, there, is_row, are, few, same)) =
      parse_metas-write a ref there.buf r rows rest there.not_null there.there is_row are few
        there.at
      ∙ ap ok (sym same)

  row-Fit : (r : Row) → IsRow a r → Fit rule_format (row_fields r)
  row-Fit r h =
      let (w1, w2, w3) = h.words in
      let ((r1, r2), (r3, r4), (r5, r6), (r7, r8)) = h.refs in
      let spaced : 16 * r.space < 2 ^ 32 = h.spaced in
      let u : unsigned (2 ^ 31) r.num_atoms < 256 ^ 4 =
        omega (arith, unsigned-lt (2 ^ 31) r.num_atoms h.atoms) in
      (
        omega arith,
        (
          u,
          (
            omega arith,
            (
              omega arith,
              (
                omega arith,
                (
                  omega arith,
                  (
                    omega arith,
                    (
                      omega arith,
                      (
                        omega arith,
                        (
                          omega arith,
                          (omega arith, (omega arith, (omega arith, (omega arith, tt)))),
                        ),
                      ),
                    ),
                  ),
                ),
              ),
            ),
          ),
        ),
      )

  rule_of_lem :
      (namespaces : List Text) (strings : List YrString) (i : ℕ) (r : Row)
      → IsRow a r
      → rule_of a namespaces strings i (row_fields r)
        ≡ ok (rule_at namespaces (rule_strings strings i) i r)
  unfolding rule_of namespace_of
  rule_of_lem namespaces strings i r h =
      let (small, w2, w3) = h.words in
      let low : r.flags % 16 ≡ r.flags = omega arith in
      let number : 16 * r.space / 16 ≡ r.space = omega arith in
      rw h.named (
        rw (cstring_list-TagsAt r.tags_ref r.tags h.tagged) (
          rw (parse_metas-MetasAt r.metas_ref r.metas h.described) (
            rw
              (
                or_default_nonempty (codes "rule_" ++ show_dec i) r.identifier h.some_name,
                signed-unsigned (2 ^ 31) r.num_atoms h.atoms,
                low,
                number,
              )
              refl)))

  pub rules_loop-write :
      (namespaces : List Text) (strings : List YrString) (buf : Bytes) (i : ℕ) (rows : List Row)
      (rest : Bytes)
      → All (IsRow a) rows
      → drop (i * 56) buf ≡ write_rules rows ++ rest
      → rules_loop a namespaces strings buf i (length rows)
        ≡ ok (rules_from namespaces strings i rows)
  unfolding rules_loop
  rules_loop-write namespaces strings buf i [] rest h e = refl
  rules_loop-write namespaces strings buf i (r ∷ rows) rest (h, hs) e =
      let (small, w2, w3) = h.words in
      let low : r.flags % 16 ≡ r.flags = omega arith in
      let live : has (r.flags % 16) RuleFlags.null ≡ false =
        ap (λ f. has f RuleFlags.null) low ∙ h.live in
      let fits : Fit rule_format (row_fields r) = row-Fit r h in
      let inside : leb (i * 56 + 56) (length buf) ≡ true =
        record_inside rule_format (row_fields r) buf i 56 (write_rules rows) rest fits refl
          (omega arith) e in
      let there : drop (suc i * 56) buf ≡ write_rules rows ++ rest =
        record_next rule_format (row_fields r) buf i 56 (write_rules rows) rest fits refl
          (omega arith) e in
      let more : Result (List Rule) = rules_loop a namespaces strings buf (suc i) (length rows) in
      ap
        (λ b.
          guard b (arena_error (rules_truncated i))
          >> (unpack_from rule_format buf (i * 56) >>= λ vals.
              rule_round a namespaces strings i vals more))
        inside
      ∙ ap (λ u. u >>= λ vals. rule_round a namespaces strings i vals more)
          (record_read rule_format (row_fields r) buf i 56 (write_rules rows) rest fits refl
            (omega arith) e)
      ∙ rw live (
          rw
            (
              rule_of_lem namespaces strings i r h,
              rules_loop-write namespaces strings buf (suc i) rows rest hs there,
            )
            refl)
