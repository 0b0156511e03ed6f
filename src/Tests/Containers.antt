-- ===== src/Tests/Containers.antt =====
-- A container of two buffers and one relocation, and what arena.py reads from it.
use yaradec.Bytes.Laws.{NoNul}
use yaradec.Prelude.{All, ◌++◌, ◌↔◌, length, ◌∷◌, [], List, some, true, false, ◌≡◌, refl, arith}
use yaradec.Result.{ok, err, arena_error, truncated_relocations}
use yaradec.Bytes.{Bytes, pack}
use yaradec.Arena.{relocation_loop, Arena, Ref, parse, parse_relocations}
use yaradec.Arena.Layout.{save, IsSavable}
use yaradec.Arena.RoundTrip.{parse-save}
use yaradec.Arena.Parsing.{Parsed, parse-Parsed, parse_relocations-err}
use yaradec.Arena.Access.{buffer, cstring_bytes, cstring_list_bytes, sized_string, read}
use yaradec.Arena.Reads.{
  tag_bytes, IsTag, StandsAt, read_sound, cstring_bytes_iff, cstring_list_bytes-StandsAt,
  sized_string-StandsAt,
}

abbrev small : Arena
small = record {
  version = 21;
  buffers = (1 ∷ 2 ∷ 3 ∷ []) ∷ (b'h' ∷ b'i' ∷ 0 ∷ []) ∷ [];
  relocations = (0, 1) ∷ [];
}

small-IsSavable : IsSavable small
small-IsSavable = record {
  current = refl;
  few = omega arith;
  small = (omega arith, (omega arith, tt));
  reachable = omega arith;
  places = (omega arith, omega arith, refl, tt);
}

parse-save_example : parse (save small) true ≡ ok small
parse-save_example = parse-save small true small-IsSavable

parse-Parsed_example : Parsed (save small) false small
parse-Parsed_example =
    parse-Parsed (save small) false small (parse-save small false small-IsSavable)

-- The header of a file that YARA 4.2 wrote.
abbrev older : Bytes
older = b'Y' ∷ b'A' ∷ b'R' ∷ b'A' ∷ 19 ∷ 12 ∷ []

-- A relocation's buffer id with no offset behind it.
abbrev cut_short : Bytes
cut_short = 1 ∷ 0 ∷ 0 ∷ 0 ∷ 7 ∷ []

cut_short_raises : parse_relocations cut_short 0 true ≡ err (arena_error truncated_relocations)
unfolding parse_relocations relocation_loop
cut_short_raises = refl

parse_relocations-err_example :
    (true ≡ true) × (arena_error truncated_relocations ≡ arena_error truncated_relocations)
parse_relocations-err_example =
    parse_relocations-err cut_short 0 true (arena_error truncated_relocations) cut_short_raises

abbrev in_second : Ref
in_second = record { buffer_id = 1; offset = 0 }

abbrev hi : Bytes
hi = b'h' ∷ b'i' ∷ []

hi-StandsAt : StandsAt small in_second hi (0 ∷ [])
unfolding buffer
hi-StandsAt = record {
  not_null = refl;
  buf = b'h' ∷ b'i' ∷ 0 ∷ [];
  there = refl;
  at = refl;
  inside = omega arith;
}

hi_read : read small in_second 2 ≡ ok hi
unfolding read buffer
hi_read = refl

read_sound_example : (rest : Bytes) × (length hi ≡ 2) × StandsAt small in_second hi rest
read_sound_example = read_sound small in_second 2 hi hi_read

cstring_bytes_iff_example :
    (cstring_bytes small in_second ≡ ok (some hi))
    ↔ ((rest : Bytes) × NoNul hi × StandsAt small in_second hi (0 ∷ rest))
cstring_bytes_iff_example = cstring_bytes_iff small in_second hi

-- Two tags behind one another.
abbrev tags : List Bytes
tags = (b'a' ∷ []) ∷ (b'b' ∷ b'c' ∷ []) ∷ []

abbrev tagged : Arena
tagged = record {
  version = 21;
  buffers = (b'a' ∷ 0 ∷ b'b' ∷ b'c' ∷ 0 ∷ 0 ∷ []) ∷ [];
  relocations = [];
}

abbrev origin : Ref
origin = record { buffer_id = 0; offset = 0 }

tags-StandsAt : StandsAt tagged origin (tag_bytes tags) (0 ∷ [])
unfolding buffer
tags-StandsAt = record {
  not_null = refl;
  buf = b'a' ∷ 0 ∷ b'b' ∷ b'c' ∷ 0 ∷ 0 ∷ [];
  there = refl;
  at = refl;
  inside = omega arith;
}

tags-AreTags : All IsTag tags
tags-AreTags =
    (((omega arith, tt), omega arith), (((omega arith, (omega arith, tt)), omega arith), tt))

cstring_list_bytes-StandsAt_example : cstring_list_bytes tagged origin ≡ ok tags
cstring_list_bytes-StandsAt_example =
    cstring_list_bytes-StandsAt tagged origin tags [] tags-AreTags tags-StandsAt

-- A sized string with a NUL in it, behind a packed reference to it.
abbrev sized : Arena
sized = record {
  version = 21;
  buffers =
      (0 ∷ 0 ∷ 0 ∷ 0 ∷ 8 ∷ 0 ∷ 0 ∷ 0 ∷ 3 ∷ 0 ∷ 0 ∷ 0 ∷ 2 ∷ 0 ∷ 0 ∷ 0 ∷ b'x' ∷ 0 ∷ b'y' ∷ 9 ∷ [])
      ∷ [];
  relocations = [];
}

abbrev content : Bytes
content = b'x' ∷ 0 ∷ b'y' ∷ []

abbrev behind : Ref
behind = record { buffer_id = 0; offset = 8 }

header-StandsAt : StandsAt sized behind (pack (4 ∷ 4 ∷ []) (3 ∷ 2 ∷ [])) (content ++ (9 ∷ []))
unfolding buffer
header-StandsAt = record {
  not_null = refl;
  buf = 0 ∷ 0 ∷ 0 ∷ 0 ∷ 8 ∷ 0 ∷ 0 ∷ 0 ∷ 3 ∷ 0 ∷ 0 ∷ 0 ∷ 2 ∷ 0 ∷ 0 ∷ 0 ∷ b'x' ∷ 0 ∷ b'y' ∷ 9 ∷ [];
  there = refl;
  at = refl;
  inside = omega arith;
}

sized_string-StandsAt_example : sized_string sized behind ≡ some (content, 2)
sized_string-StandsAt_example =
    sized_string-StandsAt sized behind content (9 ∷ []) 2 (omega arith) (omega arith) (omega arith)
      header-StandsAt
