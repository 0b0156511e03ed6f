-- ===== src/Arena.antt =====
-- yaradec/arena.py: the reader for the serialized arena. `parse` builds the arena, the accessors
-- are in `Arena.Access`.
pub mod Access
pub mod Layout
pub mod Reads
pub mod Parsing
pub mod Errors
pub mod RoundTrip
use yaradec.Prelude.{
  ℕ, zero, suc, ◌+◌, ◌*◌, Bool, true, false, not, ◌&&◌, ◌||◌, Option, none, some, List, [], ◌∷◌,
  ◌++◌, ltb, leb, ◌==◌, if◌then◌else◌, length, take, any,
}
use yaradec.Prelude.Text.{Text, codes, text_eq}
use yaradec.Result.{
  Result, ok, err, ◌>>=◌, ◌>>◌, guard, catch, ArenaError, arena_error, too_small, bad_magic,
  unsupported_version, truncated_table, buffer_past_end, truncated_relocations, out_of_fuel,
}
use yaradec.Bytes.{Bytes, slice, unpack_from, field_at}

-- constants.py
abbrev pub arena_magic : Bytes
arena_magic = codes "YARA"

abbrev pub supported_arena_version : ℕ → Bool
supported_arena_version version = version == 21

abbrev pub legacy_arena_version : ℕ → Option Text
legacy_arena_version v =
    if v == 11 || v == 12
    then some (codes "YARA 3.x")
    else if v == 13
    then some (codes "YARA 3.11")
    else if v == 14 || v == 15
    then some (codes "YARA 4.0")
    else if v == 16 || v == 17
    then some (codes "YARA 4.1")
    else if v == 18 || v == 19 || v == 20
    then some (codes "YARA 4.2")
    else none

abbrev pub null_id : ℕ
null_id = 0xFFFFFFFF

pub record Ref : Type 0 where
  pub buffer_id : ℕ
  pub offset : ℕ

abbrev pub is_null : Ref → Bool
is_null r = r.buffer_id == null_id && r.offset == null_id

pub record Arena : Type 0 where
  pub version : ℕ
  pub buffers : List Bytes
  -- The set of relocated places, without repetitions.
  pub relocations : List (ℕ × ℕ)

abbrev same_place : ℕ × ℕ → ℕ × ℕ → Bool
same_place p q = p.0 == q.0 && p.1 == q.1

abbrev pub has_place : ℕ × ℕ → List (ℕ × ℕ) → Bool
has_place p ps = any (same_place p) ps

-- `set.add`
abbrev pub add_place : ℕ × ℕ → List (ℕ × ℕ) → List (ℕ × ℕ)
add_place p ps = if has_place p ps then ps else ps ++ (p ∷ [])

-- The loop over the table's entries; `remaining` counts those to come.
unfoldable pub read_table : ℕ → ℕ → Bytes → ℕ → Result (List (ℕ × ℕ))
read_table zero i input off = ok []
read_table (suc remaining) i input off = do
  entry ← catch (unpack_from (8 ∷ 4 ∷ []) input off) (λ _. err (arena_error (truncated_table i)))
  table ← read_table remaining (suc i) input (off + 12)
  ok ((field_at entry 0, field_at entry 1) ∷ table)

unfoldable pub cut_buffers : ℕ → Bytes → List (ℕ × ℕ) → Result (List Bytes)
cut_buffers i input [] = ok []
cut_buffers i input ((b_off, b_size) ∷ table) = do
  guard (not (not (b_size == 0) && ltb (length input) (b_off + b_size)))
      (arena_error (buffer_past_end i))
  buffers ← cut_buffers (suc i) input table
  ok (slice input b_off (b_off + b_size) ∷ buffers)

-- `max((o + s) for o, s in table) if table else off`
unfoldable pub reloc_start : List (ℕ × ℕ) → ℕ → ℕ
reloc_start [] off = off
reloc_start ((o, s) ∷ []) off = o + s
reloc_start ((o, s) ∷ e ∷ table) off =
    let rest = reloc_start (e ∷ table) off in if ltb rest (o + s) then o + s else rest

-- A round that has read its buffer id: the terminator, an entry cut short, or the rest.
abbrev relocation_entry :
    ℕ → Bool → Bool → List (ℕ × ℕ) → Result (List (ℕ × ℕ)) → Result (List (ℕ × ℕ))
relocation_entry buffer_id cut strict found next =
    if buffer_id == null_id
    then ok found
    else if cut
    then (if strict then err (arena_error truncated_relocations) else ok found)
    else next

-- The `while` loop of `_parse_relocations`; each round takes eight bytes.
unfoldable pub relocation_loop : ℕ → Bytes → ℕ → Bool → List (ℕ × ℕ) → Result (List (ℕ × ℕ))
relocation_loop zero input p strict found = err out_of_fuel
relocation_loop (suc fuel) input p strict found =
    let next = (do
      offset ← unpack_from (4 ∷ []) input (p + 4)
      buffer_id ← unpack_from (4 ∷ []) input p
      relocation_loop fuel input (p + 8) strict
          (add_place (field_at buffer_id 0, field_at offset 0) found)) in
    if leb (p + 4) (length input)
    then (do
      buffer_id ← unpack_from (4 ∷ []) input p
      relocation_entry (field_at buffer_id 0) (ltb (length input) (p + 8)) strict found next)
    else ok found

unfoldable pub parse_relocations : Bytes → ℕ → Bool → Result (List (ℕ × ℕ))
parse_relocations input start strict = relocation_loop (suc (length input)) input start strict []

-- The part of `parse` behind the header's checks.
unfoldable pub parse_tables : ℕ → ℕ → Bytes → Bool → Result Arena
parse_tables version num_buffers input strict = do
  table ← read_table num_buffers 0 input 6
  buffers ← cut_buffers 0 input table
  relocations ← parse_relocations input (reloc_start table (6 + 12 * num_buffers)) strict
  ok (record { version = version; buffers = buffers; relocations = relocations })

unfoldable pub parse : Bytes → Bool → Result Arena
parse input strict = do
  guard (leb 6 (length input)) (arena_error too_small)
  header ← unpack_from (1 ∷ 1 ∷ []) input 4
  guard (text_eq (take 4 input) arena_magic) (arena_error bad_magic)
  guard (supported_arena_version (field_at header 0)) (
      arena_error
        (unsupported_version (field_at header 0) (legacy_arena_version (field_at header 0))))
  parse_tables (field_at header 0) (field_at header 1) input strict
