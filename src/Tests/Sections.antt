-- ===== src/Tests/Sections.antt =====
-- The base64 patterns, the matches, the sections' parser and the emitter at concrete inputs.
use yaradec.Prelude.{
  ◌+◌, Option, ℕ, List, any, length, ◌++◌, ◌∷◌, [], some, none, true, inr, inl, ◌≢◌, ◌≡◌, ◌/◌,
  arith,
}
use mathlib.Core.Path.{refl}
use yaradec.Prelude.Int.{pos}
use yaradec.Prelude.Text.{Text, codes}
use yaradec.Result.{ok}
use yaradec.Bytes.{Bytes, pack}
use yaradec.Constants.Section
use yaradec.Arena.{Arena}
use yaradec.Arena.Access.{buffer}
use yaradec.Arena.Errors.{OnlyArena}
use yaradec.B64.Codec
use yaradec.B64.{
  permutation, expand, recover, decode_prefix, seeds, tails, covers, first_match, candidates,
  first_seed,
}
use yaradec.B64.Recovery.{Among, Explains, recover_sound, recover-expand}
use yaradec.Parser.Structs.{YrString, Rule}
use yaradec.Parser.Rules.{parse_file}
use yaradec.Parser.Errors.{parse_file-OnlyArena}
use yaradec.Acmatch.{CodeMap, collect_string_code}
use yaradec.Acmatch.Matches.{matches, links, linked, linked-collect_string_code}
use yaradec.QuotedText.{plain, read_quoted}
use yaradec.Emit.Strings.{render_string_body, render_modifiers}
use yaradec.Emit.Legality.{is_legal, read_quoted-render_string_body, render_modifiers-is_legal}
use yaradec.Emit.Rules.{group_rules}
use yaradec.Emit.Groups.{rules_in, rules_of, total, rules_in-group_rules}

-- The three permutations of "cat".
abbrev cat : Bytes
cat = b'c' ∷ b'a' ∷ b't' ∷ []

cat-Explains : Explains cat (expand cat)
unfolding expand
cat-Explains = (inl refl, (inr (inl refl), (inr (inr (inl refl)), tt)))

cat_seen : Among (permutation 0 cat) (expand cat)
unfolding expand
cat_seen = inl refl

recover-expand_example :
    (q : Bytes) × (recover (expand cat) 2 ≡ some q) × (q ≢ []) × Explains q (expand cat)
recover-expand_example =
    recover-expand (expand cat) cat (omega arith, (omega arith, (omega arith, tt))) (λ e. cc)
      cat-Explains cat_seen

cat_recovered : recover (codes "Y2F0" ∷ []) 0 ≡ some cat
unfolding recover first_seed first_match candidates tails covers seeds decode_prefix expand
    permutation Codec.b64decode Codec.decode_from Codec.rstrip_pad Codec.b64encode
cat_recovered = refl

recover_sound_example : (cat ≢ []) × Explains cat (codes "Y2F0" ∷ [])
recover_sound_example = recover_sound (codes "Y2F0" ∷ []) 0 cat cat_recovered

parse_file-OnlyArena_example : OnlyArena (parse_file (codes "YARA" ++ (21 ∷ 1 ∷ 0 ∷ [])) true)
parse_file-OnlyArena_example = parse_file-OnlyArena (codes "YARA" ++ (21 ∷ 1 ∷ 0 ∷ [])) true

-- A pool with one match: string 1, and the regexp code at 7.
abbrev pool : Bytes
pool =
    pack (4 ∷ 4 ∷ 4 ∷ 4 ∷ 4 ∷ 4 ∷ 4 ∷ 4 ∷ 8 ∷ [])
      (3 ∷ 56 ∷ 7 ∷ 7 ∷ 0xFFFFFFFF ∷ 0xFFFFFFFF ∷ 0 ∷ 0 ∷ 0 ∷ [])

abbrev with_pool : Arena
with_pool = record {
  version = 21;
  buffers = [] ∷ [] ∷ [] ∷ [] ∷ [] ∷ [] ∷ [] ∷ [] ∷ [] ∷ [] ∷ pool ∷ [] ∷ [];
  relocations = [];
}

pool_read : buffer with_pool Section.ac_state_matches_pool ≡ ok pool
unfolding buffer
pool_read = refl

linked-collect_string_code_example :
    (out : CodeMap) × (collect_string_code with_pool ≡ ok out)
    × (linked out 1 7 ≡ any (links 1 7) (matches (length pool / 40) pool))
linked-collect_string_code_example = linked-collect_string_code with_pool pool 1 7 pool_read

-- A text string: literal, ASCII, wide and private.
abbrev text_string : YrString
text_string = record {
  index = 0;
  identifier = codes "$a";
  flags = 0x100418;
  rule_index = 0;
  length = pos 3;
  content = b'"' ∷ 0 ∷ 10 ∷ [];
  fixed_offset = none;
  chained_to = none;
  chain_gap_min = pos 0;
  chain_gap_max = pos 0;
  re_code_ref = none;
  rendered = none;
}

read_quoted-render_string_body_example :
    (text : Text) × (render_string_body text_string ≡ (b'"' ∷ text, []))
    × (read_quoted plain text ≡ some (b'"' ∷ 0 ∷ 10 ∷ [], []))
read_quoted-render_string_body_example =
    read_quoted-render_string_body text_string refl refl refl
      (omega arith, (omega arith, (omega arith, tt)))

-- A hex string with a wildcard, which is no literal.
abbrev wildcard_string : YrString
wildcard_string = record text_string { flags = 0x100002 + 0x8 }

render_modifiers-is_legal_example : is_legal true (render_modifiers wildcard_string).0 ≡ true
render_modifiers-is_legal_example = render_modifiers-is_legal wildcard_string refl refl

abbrev rule_in : ℕ → Option Text → Rule
rule_in i ns = record {
  index = i;
  identifier = codes "r";
  namespace = ns;
  flags = 0;
  tags = [];
  metas = [];
  strings = [];
  num_atoms = pos 0;
  required_strings = 0;
  condition = none;
}

abbrev three_rules : List Rule
three_rules = rule_in 0 none ∷ rule_in 1 (some (codes "x")) ∷ rule_in 2 none ∷ []

rules_in-group_rules_example :
    (rules_in none (group_rules [] three_rules) ≡ rules_of none three_rules)
    × (total (group_rules [] three_rules) ≡ length three_rules)
rules_in-group_rules_example = rules_in-group_rules none three_rules
