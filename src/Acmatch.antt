-- ===== src/Acmatch.antt =====
-- yaradec/acmatch.py: the regexp programs that the Aho-Corasick matches link to each string.
pub mod Matches
use yaradec.Prelude.{
  any, length, if◌then◌else◌, ◌==◌, leb, ◌++◌, ◌∷◌, [], List, some, none, Option, ◌||◌, ◌&&◌, not,
  Bool, ◌%◌, ◌/◌, ◌+◌, suc, zero, ℕ,
}
use yaradec.Prelude.Text.{Text}
use yaradec.Result.{Result, ok, err, ◌>>=◌, out_of_fuel}
use yaradec.Bytes.{Bytes, unpack_from, field_at}
use yaradec.Arena.{Arena, Ref, is_null}
use yaradec.Arena.Access.{buffer}
use yaradec.Constants.{sizeof_string}
use yaradec.Constants.Section
use yaradec.Parser.Metas.{ref_of}

abbrev pub sizeof_ac_match : ℕ
sizeof_ac_match = 40

-- `_AC_MATCH_FMT`
abbrev pub ac_match_format : List ℕ
ac_match_format = 4 ∷ 4 ∷ 4 ∷ 4 ∷ 4 ∷ 4 ∷ 4 ∷ 4 ∷ 8 ∷ []

-- Sets of offsets, without repetitions.
pub record StringCode : Type 0 where
  pub forward : List ℕ
  pub backward : List ℕ

abbrev pub CodeMap : Type 0
CodeMap = List (ℕ × StringCode)

abbrev pub has_offset : ℕ → List ℕ → Bool
has_offset x xs = any (λ y. y == x) xs

-- `set.add`
unfoldable pub add_offset : ℕ → List ℕ → List ℕ
add_offset x xs = if has_offset x xs then xs else xs ++ (x ∷ [])

-- The offset that a reference adds: one into the section of regexp code.
abbrev pub code_offset : Ref → Option ℕ
code_offset ref =
    if not (is_null ref) && ref.buffer_id == Section.re_code_section then some ref.offset else none

abbrev pub add_code : Option ℕ → List ℕ → List ℕ
add_code none xs = xs
add_code (some x) xs = add_offset x xs

abbrev pub add_match : Option ℕ → Option ℕ → StringCode → StringCode
add_match f b entry = record {
  forward = add_code f entry.forward;
  backward = add_code b entry.backward;
}

-- `out.setdefault(idx, StringCode())`, and what is added to the entry.
unfoldable pub update_entry : CodeMap → ℕ → Option ℕ → Option ℕ → CodeMap
update_entry [] idx f b = (idx, add_match f b (record { forward = []; backward = [] })) ∷ []
update_entry ((j, entry) ∷ out) idx f b =
    let rest = update_entry out idx f b in
    if j == idx then (j, add_match f b entry) ∷ out else (j, entry) ∷ rest

-- The table index that a match names, where it names one.
abbrev pub string_index : Ref → Option ℕ
string_index ref =
    if is_null ref || not (ref.buffer_id == Section.strings_table)
    then none
    else if not (ref.offset % sizeof_string == 0)
    then none
    else some (ref.offset / sizeof_string)

abbrev pub match_at : Option ℕ → Option ℕ → Option ℕ → CodeMap → CodeMap
match_at none f b out = out
match_at (some idx) f b out = update_entry out idx f b

-- One round of the loop, at the unpacked fields.
unfoldable pub collect_match : List ℕ → CodeMap → CodeMap
collect_match vals out =
    match_at (string_index (ref_of vals 0)) (code_offset (ref_of vals 2))
      (code_offset (ref_of vals 4)) out

-- The loop over `range(0, len(pool) - 39, 40)`: `fuel` counts the rounds that may come.
unfoldable pub collect_loop : ℕ → Bytes → ℕ → CodeMap → Result CodeMap
collect_loop zero pool off out = err out_of_fuel
collect_loop (suc fuel) pool off out =
    let next =
      (unpack_from ac_match_format pool off >>= λ vals.
      collect_loop fuel pool (off + sizeof_ac_match) (collect_match vals out)) in
    if leb (off + sizeof_ac_match) (length pool) then next else ok out

unfoldable pub collect_string_code : Arena → Result CodeMap
collect_string_code a =
    buffer a Section.ac_state_matches_pool >>= λ pool. collect_loop (suc (length pool)) pool 0 []
