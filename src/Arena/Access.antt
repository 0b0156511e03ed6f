-- ===== src/Arena/Access.antt =====
-- The accessors of `class Arena`.
use yaradec.Prelude.{
  ℕ, zero, suc, ◌+◌, ◌^◌, Bool, true, false, Option, none, some, List, [], ◌∷◌, map, ltb, leb,
  if◌then◌else◌, length, get_elem?,
}
use yaradec.Prelude.Text.{Text}
use yaradec.Result.{
  Result, ok, err, ◌>>=◌, ◌>>◌, guard, map_ok, arena_error, no_buffer, null_dereference,
  read_past_end, unterminated_string, unterminated_tags, out_of_fuel,
}
use yaradec.Bytes.{Bytes, slice, calcsize, fields, field_at, find_nul}
use yaradec.Bytes.Utf8.{decode_utf8}
use yaradec.Arena.{Ref, Arena, is_null, has_place}

abbrev or_none {ℓ} : {A : Type ℓ} → Result (Option A) → Option A
or_none (ok a) = a
or_none (err e) = none

-- Buffer ids are unsigned fields of the file, so Python's negative indices do not arise.
unfoldable pub buffer : Arena → ℕ → Result Bytes
buffer a buffer_id = elim (get_elem? a.buffers buffer_id) [
  | some buf ↦ ok buf
  | none ↦ err (arena_error (no_buffer buffer_id))
]

unfoldable pub read : Arena → Ref → ℕ → Result Bytes
read a ref size = do
  guard (if is_null ref then false else true) (arena_error null_dereference)
  buf ← buffer a ref.buffer_id
  guard (leb (ref.offset + size) (length buf)) (arena_error (read_past_end size))
  ok (slice buf ref.offset (ref.offset + size))

unfoldable pub unpack : Arena → Ref → List ℕ → Result (List ℕ)
unpack a ref fmt = map_ok (fields fmt) (read a ref (calcsize fmt))

unfoldable pub ref_at : Arena → Ref → Result Ref
ref_at a ref = do
  vals ← unpack a ref (4 ∷ 4 ∷ [])
  ok (record { buffer_id = field_at vals 0; offset = field_at vals 1 })

-- A string from `start` to the NUL that was found.
abbrev pub up_to : Bytes → ℕ → Option ℕ → Result (Option Bytes)
up_to buf start none = err (arena_error unterminated_string)
up_to buf start (some stop) = ok (some (slice buf start stop))

-- The bytes that `cstring` decodes.
unfoldable pub cstring_bytes : Arena → Ref → Result (Option Bytes)
cstring_bytes a ref =
    if is_null ref
    then ok none
    else do buf ← buffer a ref.buffer_id; up_to buf ref.offset (find_nul buf ref.offset)

-- `encoding` is "utf-8" at every call.
unfoldable pub cstring : Arena → Ref → Result (Option Text)
cstring a ref = do
  found ← cstring_bytes a ref
  ok (elim found [ none ↦ none | some bs ↦ some (decode_utf8 bs) ])

-- One round of `cstring_list` at the byte `here`: the end, or a tag up to the NUL that was found.
abbrev pub tag_round :
    Bytes → ℕ → Option ℕ → Option ℕ → (ℕ → Result (List Bytes)) → Result (List Bytes)
tag_round buf p none stop rest = ok []
tag_round buf p (some zero) stop rest = ok []
tag_round buf p (some (suc b)) none rest = err (arena_error unterminated_tags)
tag_round buf p (some (suc b)) (some stop) rest =
    map_ok (λ tags. slice buf p stop ∷ tags) (rest (stop + 1))

-- The `while` loop: each round moves past a NUL.
unfoldable pub tag_loop : ℕ → Bytes → ℕ → Result (List Bytes)
tag_loop zero buf p = err out_of_fuel
tag_loop (suc fuel) buf p =
    tag_round buf p (get_elem? buf p) (find_nul buf p) (λ next. tag_loop fuel buf next)

unfoldable pub cstring_list_bytes : Arena → Ref → Result (List Bytes)
cstring_list_bytes a ref =
    if is_null ref
    then ok []
    else do buf ← buffer a ref.buffer_id; tag_loop (suc (length buf)) buf ref.offset

unfoldable pub cstring_list : Arena → Ref → Result (List Text)
cstring_list a ref = map_ok (map decode_utf8) (cstring_list_bytes a ref)

sized_body : Arena → Ref → Result (Option (Bytes × ℕ))
sized_body a ref = do
  vals ← unpack a ref (4 ∷ 4 ∷ [])
  if ltb (2 ^ 24) (field_at vals 0) then ok none else do
    content ← read a (record ref { offset = ref.offset + 8 }) (field_at vals 0)
    ok (some (content, field_at vals 1))

-- Data and flags; the two handlers of `ArenaError` return `None`.
unfoldable pub sized_string : Arena → Ref → Option (Bytes × ℕ)
unfolding sized_body
sized_string a ref = if is_null ref then none else or_none (sized_body a ref)

unfoldable pub is_relocated : Arena → Ref → Bool
is_relocated a ref = has_place (ref.buffer_id, ref.offset) a.relocations
