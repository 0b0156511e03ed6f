-- ===== src/Arena/Errors.antt =====
-- What `parse` and the accessors raise on any bytes.
use yaradec.Prelude.Text.{text_eq}
use yaradec.Bytes.Laws.{find_nul_le, find_nul_le, get_elem?_inside}
use yaradec.Bytes.{field_at, unpack_from, calcsize, calcsize, find_nul, Bytes}
use yaradec.Prelude.{
  take, ◌==◌, ltb, ◌∷◌, [], ◌&&◌, not, ◌*◌, get_elem?, length, leb, List, some, none, Option, false,
  true, Bool, inr, inl, refl, ◌≡◌, ◌<◌, ◌≤◌, ◌+◌, suc, zero, ℕ, arith, Bool-cases,
}
use yaradec.Result.{
  catch, truncated_table, buffer_past_end, too_small, bad_magic, truncated_relocations, ArenaError,
  Error, Result, ok, err, arena_error, no_buffer, guard, map_ok, ◌>>=◌, ◌>>◌,
}
use yaradec.Arena.Parsing.{parse_relocations-err}
use yaradec.Arena.{
  field_at, text_eq, parse_tables, read_table, cut_buffers, reloc_start, parse_relocations,
  arena_magic, supported_arena_version, unpack_from, Bytes, ArenaError, Arena, Ref, is_null, parse,
}
use yaradec.Arena.Access.{
  buffer, cstring, cstring_bytes, cstring_list, cstring_list_bytes, tag_loop, tag_round, up_to,
}

abbrev pub IsArenaError : Error → Type 0
IsArenaError (arena_error e) = Unit
IsArenaError _ = ⊥

-- A result, or an `ArenaError`.
abbrev pub OnlyArena {ℓ} : {A : Type ℓ} → Result A → Type 0
OnlyArena (ok a) = Unit
OnlyArena (err e) = IsArenaError e

module _ {κ ℓ} {A : Type κ} {B : Type ℓ} where
  pub bind-OnlyArena :
      (r : Result A) (next : A → Result B)
      → OnlyArena r
      → ((a : A) → OnlyArena (next a))
      → OnlyArena (r >>= next)
  bind-OnlyArena (ok a) next h k = k a
  bind-OnlyArena (err e) next h k = h

  pub map_ok-OnlyArena : (f : A → B) (r : Result A) → OnlyArena r → OnlyArena (map_ok f r)
  map_ok-OnlyArena f (ok a) h = tt
  map_ok-OnlyArena f (err e) h = h

-- What comes behind a guard is reached only where its test holds.
pub guard-OnlyArena {ℓ} :
    {B : Type ℓ} (b : Bool) (e : ArenaError) (next : Result B)
    → (b ≡ true → OnlyArena next)
    → OnlyArena (guard b (arena_error e) >> next)
guard-OnlyArena true e next h = h refl
guard-OnlyArena false e next h = tt

pub unpack_from-OnlyArena :
    (fmt : List ℕ) (buf : Bytes) (off : ℕ)
    → leb (off + calcsize fmt) (length buf) ≡ true
    → OnlyArena (unpack_from fmt buf off)
unpack_from-OnlyArena fmt buf off h = rw h tt

pub buffer-OnlyArena : (a : Arena) (i : ℕ) → OnlyArena (buffer a i)
unfolding buffer
buffer-OnlyArena a i = found (get_elem? a.buffers i)
  where
    found :
        (o : Option Bytes)
        → OnlyArena {A = Bytes}
            (elim o [ some buf ↦ ok buf | none ↦ err (arena_error (no_buffer i)) ])
    found none = tt
    found (some buf) = tt

up_to-OnlyArena : (buf : Bytes) (start : ℕ) (stop : Option ℕ) → OnlyArena (up_to buf start stop)
up_to-OnlyArena buf start none = tt
up_to-OnlyArena buf start (some stop) = tt

cstring_bytes-OnlyArena : (a : Arena) (ref : Ref) → OnlyArena (cstring_bytes a ref)
unfolding cstring_bytes
cstring_bytes-OnlyArena a ref = elim (Bool-cases (is_null ref)) [
  | inl e ↦ rw e tt
  | inr e ↦ rw e (
      bind-OnlyArena (buffer a ref.buffer_id) _ (buffer-OnlyArena a ref.buffer_id)
        (λ buf. up_to-OnlyArena buf ref.offset (find_nul buf ref.offset)))
]

pub cstring-OnlyArena : (a : Arena) (ref : Ref) → OnlyArena (cstring a ref)
unfolding cstring
cstring-OnlyArena a ref =
    bind-OnlyArena (cstring_bytes a ref) _ (cstring_bytes-OnlyArena a ref) (λ found. tt)

-- Each round of the loop over tags moves past a NUL inside the buffer, so its fuel does not run out.
tag_loop-OnlyArena :
    (fuel : ℕ) (buf : Bytes) (p : ℕ)
    → length buf < fuel + p
    → 0 < fuel
    → OnlyArena (tag_loop fuel buf p)
unfolding tag_loop
tag_loop-OnlyArena zero buf p enough some_fuel = absurd (omega arith)
tag_loop-OnlyArena (suc fuel) buf p enough some_fuel =
    round (get_elem? buf p) (find_nul buf p) (λ b. get_elem?_inside buf p b)
      (λ stop. find_nul_le buf p stop) (λ q. tag_loop-OnlyArena fuel buf q)
  where
    round :
        (here stop : Option ℕ)
        → ((b : ℕ) → here ≡ some b → p < length buf)
        → ((q : ℕ) → stop ≡ some q → p ≤ q)
        → ((q : ℕ) → length buf < fuel + q → 0 < fuel → OnlyArena (tag_loop fuel buf q))
        → OnlyArena (tag_round buf p here stop (λ next. tag_loop fuel buf next))
    round none stop inside behind ih = tt
    round (some zero) stop inside behind ih = tt
    round (some (suc b)) none inside behind ih = tt
    round (some (suc b)) (some q) inside behind ih =
        let here : p < length buf = inside (suc b) refl in
        let past : p ≤ q = behind q refl in
        map_ok-OnlyArena _ (tag_loop fuel buf (q + 1)) (ih (q + 1) (omega arith) (omega arith))

pub cstring_list-OnlyArena : (a : Arena) (ref : Ref) → OnlyArena (cstring_list a ref)
unfolding cstring_list cstring_list_bytes
cstring_list-OnlyArena a ref =
    map_ok-OnlyArena _ (cstring_list_bytes a ref) (elim (Bool-cases (is_null ref)) [
      | inl e ↦ rw e tt
      | inr e ↦ rw e (
          bind-OnlyArena (buffer a ref.buffer_id) _ (buffer-OnlyArena a ref.buffer_id) (λ buf.
            tag_loop-OnlyArena (suc (length buf)) buf ref.offset (omega arith) (omega arith)))
    ])

read_table-OnlyArena : (n i : ℕ) (input : Bytes) (off : ℕ) → OnlyArena (read_table n i input off)
unfolding read_table
read_table-OnlyArena zero i input off = tt
read_table-OnlyArena (suc n) i input off =
    bind-OnlyArena
      (catch (unpack_from (8 ∷ 4 ∷ []) input off) (λ _. err (arena_error (truncated_table i)))) _
      (caught (unpack_from (8 ∷ 4 ∷ []) input off))
      (λ entry.
        bind-OnlyArena (read_table n (suc i) input (off + 12)) _
          (read_table-OnlyArena n (suc i) input (off + 12)) (λ table. tt))
  where
    caught :
        (r : Result (List ℕ)) → OnlyArena (catch r (λ _. err (arena_error (truncated_table i))))
    caught (ok vals) = tt
    caught (err e) = tt

cut_buffers-OnlyArena :
    (i : ℕ) (input : Bytes) (table : List (ℕ × ℕ)) → OnlyArena (cut_buffers i input table)
unfolding cut_buffers
cut_buffers-OnlyArena i input [] = tt
cut_buffers-OnlyArena i input ((o, s) ∷ table) =
    guard-OnlyArena (not (not (s == 0) && ltb (length input) (o + s))) (buffer_past_end i) _ (λ h.
      bind-OnlyArena (cut_buffers (suc i) input table) _ (cut_buffers-OnlyArena (suc i) input table)
        (λ buffers. tt))

parse_relocations-OnlyArena :
    (input : Bytes) (start : ℕ) (strict : Bool) → OnlyArena (parse_relocations input start strict)
parse_relocations-OnlyArena input start strict =
    only (parse_relocations input start strict) (λ e. parse_relocations-err input start strict e)
  where
    only :
        (r : Result (List (ℕ × ℕ)))
        → ((e : Error) → r ≡ err e → (strict ≡ true) × (e ≡ arena_error truncated_relocations))
        → OnlyArena r
    only (ok places) h = tt
    only (err e) h = rw (h e refl).1 tt

-- On any bytes, strict or not, parsing ends with an arena or with an `ArenaError`.
pub parse-OnlyArena : (input : Bytes) (strict : Bool) → OnlyArena (parse input strict)
unfolding parse parse_tables
parse-OnlyArena input strict = guard-OnlyArena (leb 6 (length input)) too_small _ (λ long.
    bind-OnlyArena (unpack_from (1 ∷ 1 ∷ []) input 4) _
      (unpack_from-OnlyArena (1 ∷ 1 ∷ []) input 4 long)
      (λ header. guard-OnlyArena (text_eq (take 4 input) arena_magic) bad_magic _ (λ magic.
        guard-OnlyArena (supported_arena_version (field_at header 0)) _ _ (λ version.
          bind-OnlyArena (read_table (field_at header 1) 0 input 6) _
            (read_table-OnlyArena (field_at header 1) 0 input 6)
            (λ table.
              bind-OnlyArena (cut_buffers 0 input table) _ (cut_buffers-OnlyArena 0 input table)
                (λ buffers.
                  bind-OnlyArena
                    (parse_relocations input (reloc_start table (6 + 12 * field_at header 1))
                      strict)
                    _
                    (parse_relocations-OnlyArena input
                      (reloc_start table (6 + 12 * field_at header 1)) strict)
                    (λ relocations. tt)))))))
