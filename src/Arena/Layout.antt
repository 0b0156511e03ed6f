-- ===== src/Arena/Layout.antt =====
-- The container as the comment at the top of arena.py lays it out, written down as a writer, and
-- `parse` against it.
use mathlib.Core.List.{append-nil, append_assoc}
use yaradec.Prelude.{
  ap, length-append, zero, suc, ◌≤◌, ◌==◌, false, Bool, ℕ, ◌+◌, ◌*◌, ◌^◌, ◌<◌, ◌≡◌, refl, ◌∙◌, List,
  [], ◌∷◌, ◌++◌, length, drop, All, arith,
}
use yaradec.Result.{ok}
use yaradec.Bytes.{Bytes, pack}
use yaradec.Bytes.Laws.{slice_at, length_at, unpack_from_at, drop_past}
use yaradec.Arena.{
  has_place, cut_buffers, relocation_loop, reloc_start, Arena, arena_magic, null_id, read_table,
}

abbrev pub total : List Bytes → ℕ
total [] = 0
total (b ∷ bs) = length b + total bs

abbrev pub contents : List Bytes → Bytes
contents [] = []
contents (b ∷ bs) = b ++ contents bs

-- The table's entries for buffers that stand one after the other from `off` on.
abbrev pub entries : ℕ → List Bytes → List (ℕ × ℕ)
entries off [] = []
entries off (b ∷ bs) = (off, length b) ∷ entries (off + length b) bs

abbrev pub save_table : List (ℕ × ℕ) → Bytes
save_table [] = []
save_table ((o, s) ∷ es) = pack (8 ∷ 4 ∷ []) (o ∷ s ∷ []) ++ save_table es

abbrev pub save_relocations : List (ℕ × ℕ) → Bytes
save_relocations [] = pack (4 ∷ []) (null_id ∷ [])
save_relocations ((b, o) ∷ rs) = pack (4 ∷ 4 ∷ []) (b ∷ o ∷ []) ++ save_relocations rs

-- The whole file: header, table, buffers in order, relocations.
unfoldable pub save : Arena → Bytes
save a =
    let n = length a.buffers in
    arena_magic
    ++ (pack (1 ∷ 1 ∷ []) (a.version ∷ n ∷ [])
        ++ (save_table (entries (6 + 12 * n) a.buffers)
            ++ (contents a.buffers ++ save_relocations a.relocations)))

abbrev pub EntryFits : ℕ × ℕ → Type 0
EntryFits e = (e.0 < 2 ^ 64) × (e.1 < 2 ^ 32)

module _ (input : Bytes) where
  pub read_table-save :
      (es : List (ℕ × ℕ)) (i off : ℕ) (rest : Bytes)
      → All EntryFits es
      → drop off input ≡ save_table es ++ rest
      → read_table (length es) i input off ≡ ok es
  unfolding read_table
  read_table-save [] i off rest fit h = refl
  read_table-save ((o, s) ∷ es) i off rest (fits, fit) h =
      let here : drop off input ≡ pack (8 ∷ 4 ∷ []) (o ∷ s ∷ []) ++ (save_table es ++ rest) =
        h ∙ append_assoc (pack (8 ∷ 4 ∷ []) (o ∷ s ∷ [])) (save_table es) rest in
      rw (unpack_from_at (8 ∷ 4 ∷ []) (o ∷ s ∷ []) input off _ (omega arith) (omega arith) here) (
        rw
          (read_table-save es (suc i) (off + 12) rest fit
            (drop_past input off (pack (8 ∷ 4 ∷ []) (o ∷ s ∷ [])) (save_table es ++ rest) here))
          refl)

module _ (input : Bytes) where
  pub cut_buffers-entries :
      (bs : List Bytes) (i off : ℕ) (rest : Bytes)
      → drop off input ≡ contents bs ++ rest
      → cut_buffers i input (entries off bs) ≡ ok bs
  unfolding cut_buffers
  cut_buffers-entries [] i off rest h = refl
  cut_buffers-entries (b ∷ bs) i off rest h =
      let here : drop off input ≡ b ++ (contents bs ++ rest) =
        h ∙ append_assoc b (contents bs) rest in
      let fits : (length b == 0 ≡ false) → off + length b ≤ length input =
        λ e. ground (arith, length_at input off b (contents bs ++ rest) here) in
      rw (slice_at input off b (contents bs ++ rest) here) (
        ground (
          arith,
          fits,
          cut_buffers-entries bs (suc i) (off + length b) rest
              (drop_past input off b (contents bs ++ rest) here),
        ))

-- The greatest end is that of the last buffer.
reloc_start-entries_cons :
    (b : Bytes) (bs : List Bytes) (off d : ℕ)
    → reloc_start (entries off (b ∷ bs)) d ≡ off + total (b ∷ bs)
unfolding reloc_start
reloc_start-entries_cons b [] off d = omega arith
reloc_start-entries_cons b (c ∷ bs) off d =
    ground (arith, reloc_start-entries_cons c bs (off + length b) d)

pub reloc_start-entries :
    (bs : List Bytes) (off : ℕ) → reloc_start (entries off bs) off ≡ off + total bs
unfolding reloc_start
reloc_start-entries [] off = omega arith
reloc_start-entries (b ∷ bs) off = reloc_start-entries_cons b bs off off

-- What a place of the relocation list has to be: no terminator, no field too wide, no repetition.
abbrev pub Fresh : List (ℕ × ℕ) → List (ℕ × ℕ) → Type 0
Fresh found [] = Unit
Fresh found ((b, o) ∷ rs) =
    (b < null_id)
    × (o < 2 ^ 32)
    × (has_place (b, o) found ≡ false)
    × Fresh (found ++ ((b, o) ∷ [])) rs

module _ (input : Bytes) (strict : Bool) where
  pub relocation_loop-save :
      (rs found : List (ℕ × ℕ)) (fuel p : ℕ)
      → Fresh found rs
      → length rs < fuel
      → drop p input ≡ save_relocations rs
      → relocation_loop fuel input p strict found ≡ ok (found ++ rs)
  unfolding relocation_loop
  relocation_loop-save rs found zero p fresh enough h = absurd (omega arith)
  relocation_loop-save [] found (suc fuel) p fresh enough h =
      let here : drop p input ≡ pack (4 ∷ []) (null_id ∷ []) ++ [] = h in
      rw
        (
          unpack_from_at (4 ∷ []) (null_id ∷ []) input p [] (omega arith) (omega arith) here,
          append-nil,
        )
        (ground (arith, length_at input p (pack (4 ∷ []) (null_id ∷ [])) [] here))
  relocation_loop-save ((b, o) ∷ rs) found (suc fuel) p (hb, ho, new, fresh) enough h =
      let here : drop p input
          ≡ pack (4 ∷ []) (b ∷ []) ++ (pack (4 ∷ []) (o ∷ []) ++ save_relocations rs) =
        h in
      let past : drop (p + 4) input ≡ pack (4 ∷ []) (o ∷ []) ++ save_relocations rs =
        drop_past input p (pack (4 ∷ []) (b ∷ [])) _ here in
      let after : drop (p + 8) input ≡ save_relocations rs =
        drop_past input p (pack (4 ∷ 4 ∷ []) (b ∷ o ∷ [])) _ h in
      rw
        (
          unpack_from_at (4 ∷ []) (b ∷ []) input p _ (omega arith) (omega arith) here,
          unpack_from_at (4 ∷ []) (o ∷ []) input (p + 4) _ (omega arith) (omega arith) past,
          new,
        )
        (ground (
          arith,
          length_at input p (pack (4 ∷ []) (b ∷ [])) _ here,
          length_at input (p + 4) (pack (4 ∷ []) (o ∷ [])) _ past,
          relocation_loop-save rs (found ++ ((b, o) ∷ [])) fuel (p + 8) fresh (omega arith) after,
          append_assoc found ((b, o) ∷ []) rs,
        ))

-- An arena that the format can hold: version 21, at most 255 buffers of less than 4 GiB, offsets
-- that fit eight bytes, and relocations that are distinct and fit their fields.
pub record IsSavable (a : Arena) : Type 0 where
  pub current : a.version ≡ 21
  pub few : length a.buffers < 256
  pub small : All (λ b. length b < 2 ^ 32) a.buffers
  pub reachable : 6 + 12 * length a.buffers + total a.buffers < 2 ^ 64
  pub places : Fresh [] a.relocations

pub entries-EntryFits :
    (bs : List Bytes) (off : ℕ)
    → All (λ b. length b < 2 ^ 32) bs
    → off + total bs < 2 ^ 64
    → All EntryFits (entries off bs)
entries-EntryFits [] off small fits = tt
entries-EntryFits (b ∷ bs) off (hb, small) fits =
    ((omega arith, hb), entries-EntryFits bs (off + length b) small (omega arith))

pub length-entries : (bs : List Bytes) (off : ℕ) → length (entries off bs) ≡ length bs
length-entries [] off = refl
length-entries (b ∷ bs) off = ap suc (length-entries bs (off + length b))

pub length-save_table : (es : List (ℕ × ℕ)) → length (save_table es) ≡ 12 * length es
length-save_table [] = omega arith
length-save_table ((o, s) ∷ es) =
    omega
      (arith, length-append (pack (8 ∷ 4 ∷ []) (o ∷ s ∷ [])) (save_table es), length-save_table es)

pub length-contents : (bs : List Bytes) → length (contents bs) ≡ total bs
length-contents [] = refl
length-contents (b ∷ bs) = omega (arith, length-append b (contents bs), length-contents bs)

pub length-save_relocations : (rs : List (ℕ × ℕ)) → length rs < length (save_relocations rs)
length-save_relocations [] = omega arith
length-save_relocations ((b, o) ∷ rs) = omega (
  arith,
  length-append (pack (4 ∷ 4 ∷ []) (b ∷ o ∷ [])) (save_relocations rs),
  length-save_relocations rs,
)
