-- ===== src/Tests/Tables.antt =====
-- The tables of the sections at concrete inputs.
use yaradec.Prelude.{inr, inl, none, ◌++◌, ◌∷◌, [], ◌≡◌, arith}
use mathlib.Core.Path.{refl}
use yaradec.Prelude.Int.{pos, negsuc}
use yaradec.Prelude.Text.{codes}
use yaradec.Result.{ok}
use yaradec.Bytes.{Bytes, find_nul}
use yaradec.Bytes.Utf8.{decode_utf8}
use yaradec.Arena.{Arena, Ref}
use yaradec.Arena.Access.{buffer, cstring, cstring_bytes}
use yaradec.Parser.Structs.{CompiledRules, string_value, integer_value}
use yaradec.Parser.Metas.{parse_metas}
use yaradec.Bytes.{pack}
use yaradec.Arena.Access.{cstring_list, cstring_list_bytes, read}
use yaradec.Parser.Rules.{parse_compiled}
use yaradec.Parser.StringWriter
use yaradec.Parser.RuleWriter
use yaradec.Parser.SpaceWriter
use yaradec.Parser.RoundTrip.{Tables, Content, parse_compiled-write}
use yaradec.Parser.MetaWriter.{Row, IsRow, write_metas, parse_metas-write}

-- author = "bob", level = -5
abbrev author : Row
author = record {
  name = record { buffer_id = 5; offset = 0 };
  text = record { buffer_id = 5; offset = 7 };
  meta = record { identifier = codes "author"; value = string_value (codes "bob") };
}

abbrev level : Row
level = record {
  name = record { buffer_id = 5; offset = 11 };
  text = record { buffer_id = 0xFFFFFFFF; offset = 0xFFFFFFFF };
  meta = record { identifier = codes "level"; value = integer_value (negsuc 4) };
}

abbrev table : Bytes
table = write_metas author (level ∷ []) ++ (7 ∷ [])

abbrev with_metas : Arena
with_metas = record {
  version = 21;
  buffers =
      []
      ∷ []
      ∷ (8 ∷ 8 ∷ table)
      ∷ []
      ∷ []
      ∷ (codes "author" ++ (0 ∷ (codes "bob" ++ (0 ∷ (codes "level" ++ (0 ∷ []))))))
      ∷ [];
  relocations = [];
}

author-IsRow : IsRow with_metas author
unfolding cstring cstring_bytes buffer find_nul decode_utf8
author-IsRow = ((omega arith, omega arith), (omega arith, omega arith), refl, refl)

level-IsRow : IsRow with_metas level
unfolding cstring cstring_bytes buffer find_nul decode_utf8
level-IsRow =
    ((omega arith, omega arith), (omega arith, omega arith), refl, (omega arith, omega arith))

table_read : buffer with_metas 2 ≡ ok (8 ∷ 8 ∷ table)
unfolding buffer
table_read = refl

parse_metas-write_example :
    parse_metas with_metas (record { buffer_id = 2; offset = 2 })
    ≡ ok (author.meta ∷ level.meta ∷ [])
parse_metas-write_example =
    parse_metas-write with_metas (record { buffer_id = 2; offset = 2 }) (8 ∷ 8 ∷ table) author
      (level ∷ []) (7 ∷ []) refl table_read author-IsRow (level-IsRow, tt) (omega arith) refl

-- rule main : t { strings: $a = "abc" $b = /…/ }, in the namespace default.
abbrev null : Ref
null = record { buffer_id = 0xFFFFFFFF; offset = 0xFFFFFFFF }

abbrev default : SpaceWriter.Space
default = record {
  place = record { buffer_id = 5; offset = 0 };
  name = codes "default";
  number = 0;
}

abbrev text_row : StringWriter.Row
text_row = record {
  index = 0;
  name = record { buffer_id = 5; offset = 13 };
  identifier = codes "$a";
  flags = 0x408;
  rule_index = 0;
  width = pos 3;
  pattern = StringWriter.literal_at (record { buffer_id = 5; offset = 16 }) (codes "abc");
  offset = negsuc 0;
  chained_to = none;
  gap_min = pos 0;
  gap_max = pos 0;
}

abbrev regexp_row : StringWriter.Row
regexp_row = record text_row {
  index = 1;
  name = record { buffer_id = 5; offset = 22 };
  identifier = codes "$b";
  flags = 0x20;
  pattern = StringWriter.unlinked;
}

abbrev main_row : RuleWriter.Row
main_row = record {
  flags = 2;
  num_atoms = pos 1;
  required_strings = 2;
  unused = 0;
  name = record { buffer_id = 5; offset = 8 };
  identifier = codes "main";
  tags_ref = record { buffer_id = 5; offset = 19 };
  tags = codes "t" ∷ [];
  metas_ref = null;
  metas = [];
  strings_ref = record { buffer_id = 3; offset = 0 };
  space = 0;
}

abbrev names : Bytes
names =
    codes "default"
    ++ (0
        ∷ (codes "main"
            ++ (0
                ∷ (codes "$a"
                    ++ (0 ∷ (codes "abc" ++ (codes "t" ++ (0 ∷ 0 ∷ (codes "$b" ++ (0 ∷ []))))))))))

abbrev with_tables : Arena
with_tables = record {
  version = 21;
  buffers =
      SpaceWriter.write_namespaces (default ∷ [])
      ∷ RuleWriter.write_rules (main_row ∷ [])
      ∷ []
      ∷ StringWriter.write_strings (text_row ∷ regexp_row ∷ [])
      ∷ []
      ∷ names
      ∷ []
      ∷ []
      ∷ []
      ∷ []
      ∷ []
      ∷ pack (4 ∷ 4 ∷ 4 ∷ []) (1 ∷ 2 ∷ 1 ∷ [])
      ∷ [];
  relocations = [];
}

default-IsSpace : SpaceWriter.IsSpace with_tables default
unfolding cstring cstring_bytes buffer find_nul decode_utf8
default-IsSpace = ((omega arith, omega arith), omega arith, refl, (λ e. cc))

text_row-IsRow : StringWriter.IsRow with_tables text_row
unfolding cstring cstring_bytes buffer find_nul decode_utf8 read
text_row-IsRow = record {
  words = (omega arith, omega arith, omega arith);
  fixed = (omega arith, omega arith);
  numbers = ((omega arith, omega arith), (omega arith, omega arith), (omega arith, omega arith));
  name = (omega arith, omega arith);
  ref = (omega arith, omega arith);
  pattern = (
    refl,
    refl,
    (
      codes "t" ++ (0 ∷ 0 ∷ (codes "$b" ++ (0 ∷ []))),
      record { not_null = refl; buf = names; there = refl; at = refl; inside = omega arith },
    ),
  );
  chained = tt;
  named = refl;
  some_name = λ e. cc;
}

regexp_row-IsRow : StringWriter.IsRow with_tables regexp_row
unfolding cstring cstring_bytes buffer find_nul decode_utf8
regexp_row-IsRow = record {
  words = (omega arith, omega arith, omega arith);
  fixed = (omega arith, omega arith);
  numbers = ((omega arith, omega arith), (omega arith, omega arith), (omega arith, omega arith));
  name = (omega arith, omega arith);
  ref = (omega arith, omega arith);
  pattern = refl;
  chained = tt;
  named = refl;
  some_name = λ e. cc;
}

main_row-IsRow : RuleWriter.IsRow with_tables main_row
unfolding cstring cstring_bytes cstring_list cstring_list_bytes parse_metas buffer find_nul
    decode_utf8
main_row-IsRow = record {
  words = (omega arith, omega arith, omega arith);
  atoms = (omega arith, omega arith);
  live = refl;
  refs = (
    (omega arith, omega arith),
    (omega arith, omega arith),
    (omega arith, omega arith),
    (omega arith, omega arith),
  );
  spaced = omega arith;
  named = refl;
  some_name = λ e. cc;
  tagged = inr (
    codes "t" ∷ [],
    codes "$b" ++ (0 ∷ []),
    (((omega arith, tt), omega arith), tt),
    record { not_null = refl; buf = names; there = refl; at = refl; inside = omega arith },
    refl,
  );
  described = inl (refl, refl);
}

abbrev written : Tables with_tables
unfolding buffer
written = record {
  spaces = default ∷ [];
  strings = text_row ∷ regexp_row ∷ [];
  rules = main_row ∷ [];
  after_spaces = [];
  after_strings = [];
  after_rules = [];
  after_summary = [];
  spaces_read = refl;
  strings_read = refl;
  rules_read = refl;
  summary_read = refl;
  counts = (omega arith, (omega arith, (omega arith, tt)));
  are_spaces = (default-IsSpace, tt);
  are_strings = (text_row-IsRow, (regexp_row-IsRow, tt));
  are_rules = (main_row-IsRow, tt);
}

parse_compiled-write_example :
    (c : CompiledRules) × (parse_compiled with_tables ≡ ok c) × Content with_tables written c
parse_compiled-write_example = parse_compiled-write with_tables written
