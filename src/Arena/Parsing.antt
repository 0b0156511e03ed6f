-- ===== src/Arena/Parsing.antt =====
-- `parse` on any input, well formed or not.
use mathlib.Core.Path.{subst}
use yaradec.Prelude.Text.{text_eq_iff, text_eq}
use yaradec.Result.{
  struct_error, struct_error, catch, ◌>>=◌, ◌>>◌, arena_error, err, guard, Error, Result, ok,
}
use yaradec.Bytes.{fields, fields, field_at, le_value, slice, Bytes}
use yaradec.Prelude.{
  sym, ◌||◌, any, if◌then◌else◌, inr, inl, ◌-◌, drop-drop, leb, ◌≢◌, ◌*◌, drop, take, ◌==◌, ltb,
  ◌&&◌, not, true, Bool, ◌∙◌, ap, refl, All, length, arith, map, ◌∷◌, [], List, false, ◌⊎◌, ◌≡◌,
  ◌<◌, ◌≤◌, ◌+◌, suc, zero, ℕ,
}
use yaradec.Arena.{
  unsupported_version, truncated_table, catch, text_eq, field_at, buffer_past_end,
  truncated_relocations, arena_error, err, guard, Result, slice, ok, Bytes, Arena, arena_magic,
  legacy_arena_version, supported_arena_version, read_table, cut_buffers, reloc_start,
  relocation_loop, add_place, parse_relocations, parse_tables, parse,
}

-- Each round takes eight bytes, so the loop ends before its fuel does, and only a strict reader
-- raises.
relocation_loop-err :
    (fuel p : ℕ) (input : Bytes) (strict : Bool) (found : List (ℕ × ℕ)) (e : Error)
    → length input < fuel + p
    → 0 < fuel
    → relocation_loop fuel input p strict found ≡ err e
    → (strict ≡ true) × (e ≡ arena_error truncated_relocations)
unfolding relocation_loop
relocation_loop-err zero p input strict found e enough some_fuel h = absurd (omega arith)
relocation_loop-err (suc fuel) p input strict found e enough some_fuel h =
    let place : ℕ × ℕ =
      (le_value (take 4 (drop p input)), le_value (take 4 (drop (p + 4) input))) in
    ground (arith, relocation_loop-err fuel (p + 8) input strict (add_place place found) e)

cut_buffers-inv :
    (input : Bytes) (table : List (ℕ × ℕ)) (i : ℕ) (bs : List Bytes)
    → cut_buffers i input table ≡ ok bs
    → (bs ≡ map (λ e. slice input e.0 (e.0 + e.1)) table)
      × All (λ e. (e.1 ≡ 0) ⊎ (e.0 + e.1 ≤ length input)) table
unfolding cut_buffers
cut_buffers-inv input [] i bs h = (cc, tt)
cut_buffers-inv input ((o, s) ∷ table) i bs h =
    let (rest, cut, whole) = rest_of (cut_buffers (suc i) input table) bs h in
    let (same, fit) = cut_buffers-inv input table (suc i) rest cut in
    (whole ∙ ap (λ t. slice input o (o + s) ∷ t) same, (ground arith, fit))
  where
    rest_of :
        (r : Result (List Bytes)) (bs : List Bytes)
        → (guard
              (not (not (s == 0) && ltb (length input) (o + s)))
              (arena_error (buffer_past_end i))
            >> (r >>= λ buffers. ok (slice input o (o + s) ∷ buffers)))
          ≡ ok bs
        → (rest : List Bytes) × (r ≡ ok rest) × (bs ≡ slice input o (o + s) ∷ rest)
    rest_of (ok rest) bs h = (rest, refl, ground arith)
    rest_of (err e) bs h = ground arith

-- The table's entry at a place of the file, an offset of eight bytes before a size of four, and the
-- `n` entries from there on, twelve bytes apart.
abbrev entry_at : Bytes → ℕ → ℕ × ℕ
entry_at input p = (le_value (slice input p (p + 8)), le_value (slice input (p + 8) (p + 12)))

abbrev pub table_of : ℕ → Bytes → ℕ → List (ℕ × ℕ)
table_of zero input p = []
table_of (suc n) input p = entry_at input p ∷ table_of n input (p + 12)

length-table_of : (n : ℕ) (input : Bytes) (p : ℕ) → length (table_of n input p) ≡ n
length-table_of zero input p = refl
length-table_of (suc n) input p = ap suc (length-table_of n input (p + 12))

entry_at-fields :
    (input : Bytes) (p : ℕ)
    → (
      field_at (fields (8 ∷ 4 ∷ []) (drop p input)) 0,
      field_at (fields (8 ∷ 4 ∷ []) (drop p input)) 1,
    )
      ≡ entry_at input p
entry_at-fields input p =
    let first : (p + 8) - p ≡ 8 = omega arith in
    let second : (p + 12) - (p + 8) ≡ 4 = omega arith in
    rw (first, second, drop-drop p 8 input) refl

read_table-table_of :
    (input : Bytes) (n i p : ℕ) (table : List (ℕ × ℕ))
    → read_table n i input p ≡ ok table
    → table ≡ table_of n input p
unfolding read_table
read_table-table_of input zero i p table h = cc
read_table-table_of input (suc n) i p table h =
    one_more (leb (p + 12) (length input)) (read_table n (suc i) input (p + 12)) table h
      (λ t. read_table-table_of input n (suc i) (p + 12) t)
  where
    one_more :
        (enough : Bool) (more : Result (List (ℕ × ℕ))) (table : List (ℕ × ℕ))
        → (catch
              (if enough then ok (fields (8 ∷ 4 ∷ []) (drop p input)) else err struct_error)
              (λ _. err (arena_error (truncated_table i)))
            >>= λ e. more >>= λ t. ok ((field_at e 0, field_at e 1) ∷ t))
          ≡ ok table
        → ((t : List (ℕ × ℕ)) → more ≡ ok t → t ≡ table_of n input (p + 12))
        → table ≡ table_of (suc n) input p
    one_more false more table h ih = cc
    one_more true (err f) table h ih = cc
    one_more true (ok t) table h ih = let e = entry_at-fields input p in let rest = ih t refl in cc

-- No buffer of the table ends behind `stop`, and one ends there; without buffers it is the end of the
-- header.
abbrev pub IsEnd : List (ℕ × ℕ) → ℕ → Type 0
IsEnd table stop =
    All (λ (e : ℕ × ℕ). e.0 + e.1 ≤ stop) table
    × (((table ≡ []) × (stop ≡ 6)) ⊎ (any (λ (e : ℕ × ℕ). e.0 + e.1 == stop) table ≡ true))

All-ends :
    (table : List (ℕ × ℕ)) (m k : ℕ)
    → m ≤ k
    → All (λ (e : ℕ × ℕ). e.0 + e.1 ≤ m) table
    → All (λ (e : ℕ × ℕ). e.0 + e.1 ≤ k) table
All-ends [] m k h a = tt
All-ends (e ∷ table) m k h (now, a) = (omega arith, All-ends table m k h a)

-- The first end, or the greatest of the others.
reloc_start-cases :
    (e f : ℕ × ℕ) (table : List (ℕ × ℕ)) (off : ℕ)
    → ((reloc_start (e ∷ f ∷ table) off ≡ e.0 + e.1) × (reloc_start (f ∷ table) off ≤ e.0 + e.1))
      ⊎ ((reloc_start (e ∷ f ∷ table) off ≡ reloc_start (f ∷ table) off)
          × (e.0 + e.1 ≤ reloc_start (f ∷ table) off))
unfolding reloc_start
reloc_start-cases e f table off = ground arith

abbrev HasEnd : List (ℕ × ℕ) → ℕ → Type 0
HasEnd table stop = any (λ (e : ℕ × ℕ). e.0 + e.1 == stop) table ≡ true

same_end : (a b : ℕ) → a ≡ b → (b == a) ≡ true
same_end a b h = ground arith

any-head : (a b : Bool) → a ≡ true → (a || b) ≡ true
any-head true b h = refl
any-head false b h = cc

any-tail : (a b : Bool) → b ≡ true → (a || b) ≡ true
any-tail true b h = refl
any-tail false b h = h

reloc_start-single : (e : ℕ × ℕ) (off : ℕ) → reloc_start (e ∷ []) off ≡ e.0 + e.1
unfolding reloc_start
reloc_start-single e off = refl

abbrev IsGreatest : List (ℕ × ℕ) → ℕ → Type 0
IsGreatest table m = All (λ (e : ℕ × ℕ). e.0 + e.1 ≤ m) table × HasEnd table m

reloc_start-IsGreatest :
    (e : ℕ × ℕ) (table : List (ℕ × ℕ)) (off : ℕ)
    → IsGreatest (e ∷ table) (reloc_start (e ∷ table) off)
reloc_start-IsGreatest e [] off =
    subst (IsGreatest (e ∷ [])) (sym (reloc_start-single e off))
      ((omega arith, tt), any-head _ _ (same_end (e.0 + e.1) (e.0 + e.1) refl))
reloc_start-IsGreatest e (f ∷ table) off =
    let (below, there) = reloc_start-IsGreatest f table off in
    elim (reloc_start-cases e f table off) [
      | inl (q, h) ↦ subst (IsGreatest (e ∷ f ∷ table)) (sym q) (
        (omega arith, All-ends (f ∷ table) (reloc_start (f ∷ table) off) (e.0 + e.1) h below),
        any-head _ _ (same_end (e.0 + e.1) (e.0 + e.1) refl),
      )
      | inr (q, h) ↦ subst (IsGreatest (e ∷ f ∷ table)) (sym q) ((h, below), any-tail _ _ there)
    ]

reloc_start-IsEnd :
    (table : List (ℕ × ℕ)) (n : ℕ) → length table ≡ n → IsEnd table (reloc_start table (6 + 12 * n))
unfolding reloc_start
reloc_start-IsEnd [] n same = (tt, inl (refl, omega arith))
reloc_start-IsEnd (e ∷ table) n same =
    let (below, there) = reloc_start-IsGreatest e table (6 + 12 * n) in (below, inr there)

-- What a successful parse says of the file.
pub record Parsed (input : Bytes) (strict : Bool) (a : Arena) : Type 0 where
  pub magic : take 4 input ≡ arena_magic
  pub version : a.version ≡ 21
  -- Byte 5 of the header counts the buffers, and their table begins at byte 6.
  pub table : List (ℕ × ℕ)
  pub listed : table ≡ table_of (le_value (take 1 (drop 5 input))) input 6
  pub buffers : a.buffers ≡ map (λ e. slice input e.0 (e.0 + e.1)) table
  pub inside : All (λ e. (e.1 ≡ 0) ⊎ (e.0 + e.1 ≤ length input)) table
  pub stop : ℕ
  pub ends : IsEnd table stop
  pub relocations : parse_relocations input stop strict ≡ ok a.relocations

parse_tables-inv :
    (v n : ℕ) (input : Bytes) (strict : Bool) (a : Arena)
    → parse_tables v n input strict ≡ ok a
    → (table : List (ℕ × ℕ)) × (read_table n 0 input 6 ≡ ok table)
      × (cut_buffers 0 input table ≡ ok a.buffers)
      × (parse_relocations input (reloc_start table (6 + 12 * n)) strict ≡ ok a.relocations)
      × (a.version ≡ v)
unfolding parse_tables
parse_tables-inv v n input strict a h = ground arith

parse-inv :
    (input : Bytes) (strict : Bool) (a : Arena)
    → parse input strict ≡ ok a
    → (text_eq (take 4 input) arena_magic ≡ true)
      × (le_value (take 1 (drop 4 input)) ≡ 21)
      × (parse_tables 21 (le_value (take 1 (drop 1 (drop 4 input)))) input strict ≡ ok a)
unfolding parse
parse-inv input strict a h = ground arith

-- A successful parse has checked the magic and the version and read the table that byte 5 counts from
-- byte 6 on, an offset of eight bytes and a size of four to an entry; it took for each entry the slice
-- from its offset over its size, which is empty or within the file, and read the relocations from the
-- greatest end of an entry, or from byte 6 where there is none.
pub parse-Parsed :
    (input : Bytes) (strict : Bool) (a : Arena) → parse input strict ≡ ok a → Parsed input strict a
parse-Parsed input strict a h =
    let (magic, version, tables) = parse-inv input strict a h in
    let n : ℕ = le_value (take 1 (drop 1 (drop 4 input))) in
    let (table, read, cut, places, same) = parse_tables-inv 21 n input strict a tables in
    let (buffers, inside) = cut_buffers-inv input table 0 a.buffers cut in
    let listed : table ≡ table_of n input 6 = read_table-table_of input n 0 6 table read in
    record {
      magic = (text_eq_iff (take 4 input) arena_magic).0 magic;
      version = same;
      table = table;
      listed = listed ∙ ap (λ t. table_of (le_value (take 1 t)) input 6) (drop-drop 4 1 input);
      buffers = buffers;
      inside = inside;
      stop = reloc_start table (6 + 12 * n);
      ends = reloc_start-IsEnd table n (ap length listed ∙ length-table_of n input 6);
      relocations = places;
    }

parse_header :
    (input : Bytes) (strict : Bool)
    → 6 ≤ length input
    → take 4 input ≡ arena_magic
    → parse input strict ≡ (
        guard (supported_arena_version (le_value (take 1 (drop 4 input)))) (
          arena_error (
            unsupported_version
              (le_value (take 1 (drop 4 input)))
              (legacy_arena_version (le_value (take 1 (drop 4 input))))))
        >> parse_tables
            (le_value (take 1 (drop 4 input)))
            (le_value (take 1 (drop 1 (drop 4 input))))
            input
            strict)
unfolding parse
parse_header input strict long magic =
    let enough : leb 6 (length input) ≡ true = ground arith in rw (enough, magic) refl

pub parse_unsupported :
    (input : Bytes) (strict : Bool)
    → 6 ≤ length input
    → take 4 input ≡ arena_magic
    → le_value (take 1 (drop 4 input)) ≢ 21
    → parse input strict
      ≡ err (
          arena_error (
            unsupported_version
              (le_value (take 1 (drop 4 input)))
              (legacy_arena_version (le_value (take 1 (drop 4 input))))))
parse_unsupported input strict long magic other =
    let no : supported_arena_version (le_value (take 1 (drop 4 input))) ≡ false = ground arith in
    parse_header input strict long magic ∙ rw no refl

-- The relocation list ends on every input. A strict reader raises at a list that is cut short and
-- nowhere else; one that is not strict never raises.
pub parse_relocations-err :
    (input : Bytes) (start : ℕ) (strict : Bool) (e : Error)
    → parse_relocations input start strict ≡ err e
    → (strict ≡ true) × (e ≡ arena_error truncated_relocations)
unfolding parse_relocations
parse_relocations-err input start strict e h =
    relocation_loop-err (suc (length input)) start input strict [] e (omega arith) (omega arith) h
