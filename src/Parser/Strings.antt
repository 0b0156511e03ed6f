-- ===== src/Parser/Strings.antt =====
-- `RulesParser.parse_strings`.
use yaradec.Prelude.{
  length, if◌then◌else◌, ◌==◌, leb, ◌++◌, ◌∷◌, [], List, some, none, Option, ◌&&◌, not, ◌^◌, ◌/◌,
  ◌*◌, ◌+◌, suc, zero, ℕ,
}
use yaradec.Prelude.Int.{ℤ, pos, negsuc, signed}
use yaradec.Prelude.Text.{codes, show_dec}
use yaradec.Result.{Result, ok, err, map_ok, ◌>>=◌, ◌>>◌, guard, arena_error, strings_truncated}
use yaradec.Bytes.{Bytes, unpack_from, field_at}
use yaradec.Arena.{Arena, Ref, is_null}
use yaradec.Arena.Access.{buffer, cstring, read}
use yaradec.Constants.{has, sizeof_string}
use yaradec.Constants.Section
use yaradec.Constants.StringFlags
use yaradec.Parser.Structs.{YrString}
use yaradec.Parser.Metas.{or_default, ref_of}

-- `_STRING_FMT`
abbrev pub string_format : List ℕ
string_format = 4 ∷ 4 ∷ 8 ∷ 4 ∷ 4 ∷ 4 ∷ 4 ∷ 4 ∷ 4 ∷ 4 ∷ 4 ∷ 4 ∷ 4 ∷ []

-- A literal's bytes; `read` raises nothing but `ArenaError`.
abbrev or_no_bytes : Result Bytes → Bytes
or_no_bytes (ok bs) = bs
or_no_bytes (err e) = []

abbrev literal_bytes : Arena → Ref → ℤ → Bytes
literal_bytes a ref (pos n) = or_no_bytes (read a ref n)
literal_bytes a ref (negsuc n) = []

-- `data` and `re_ref`.
unfoldable pub string_content : Arena → ℕ → Ref → ℤ → Bytes × Option Ref
string_content a flags ref length =
    if is_null ref
    then ([], none)
    else if not (has flags StringFlags.literal)
    then ([], some ref)
    else (literal_bytes a ref length, none)

unfoldable pub chain_target : Ref → Option ℕ
chain_target ref =
    if not (is_null ref) && ref.buffer_id == Section.strings_table
    then some (ref.offset / sizeof_string)
    else none

-- One round behind the unpacking: entry `i` from its fields.
unfoldable pub string_of : Arena → ℕ → List ℕ → Result YrString
string_of a i vals =
    let flags = field_at vals 0 in
    let width = signed (2 ^ 31) (field_at vals 4) in
    let found = string_content a flags (ref_of vals 5) width in
    map_ok
      (λ identifier. record {
        index = field_at vals 1;
        identifier = or_default (codes "$__" ++ show_dec i) identifier;
        flags = flags;
        rule_index = field_at vals 3;
        length = width;
        content = found.0;
        fixed_offset =
            if has flags StringFlags.fixed_offset
            then some (signed (2 ^ 63) (field_at vals 2))
            else none;
        chained_to = chain_target (ref_of vals 7);
        chain_gap_min = signed (2 ^ 31) (field_at vals 9);
        chain_gap_max = signed (2 ^ 31) (field_at vals 10);
        re_code_ref = found.1;
        rendered = none;
      })
      (cstring a (ref_of vals 11))

-- The loop over `range(num_strings)`, from entry `i` on.
unfoldable pub strings_loop : Arena → Bytes → ℕ → ℕ → Result (List YrString)
strings_loop a buf i zero = ok []
strings_loop a buf i (suc remaining) =
    guard (leb (i * sizeof_string + sizeof_string) (length buf)) (arena_error (strings_truncated i))
    >> (unpack_from string_format buf (i * sizeof_string) >>= λ vals. string_of a i vals >>= λ s.
        map_ok (λ more. s ∷ more) (strings_loop a buf (suc i) remaining))

unfoldable pub parse_strings : Arena → ℕ → Result (List YrString)
parse_strings a num_strings =
    buffer a Section.strings_table >>= λ buf. strings_loop a buf 0 num_strings
