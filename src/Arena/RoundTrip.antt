-- ===== src/Arena/RoundTrip.antt =====
-- `parse` of arena.py on what the writer of `Layout` makes.
use yaradec.Bytes.{field_at, fields}
use yaradec.Bytes.Laws.{fields-pack, drop_past}
use yaradec.Result.{ok}
use yaradec.Arena.{field_at, parse_tables, ok, read_table, Arena, parse, parse_relocations}
use yaradec.Arena.Layout.{
  save, IsSavable, entries, save_table, contents, total, save_relocations, read_table-save,
  cut_buffers-entries, reloc_start-entries, relocation_loop-save, entries-EntryFits, length-entries,
  length-save_table, length-contents, length-save_relocations,
}
use yaradec.Prelude.{
  ◌∙◌, leb, ◌∷◌, true, refl, [], length-drop, ap, suc, arith, ◌<◌, ◌*◌, ◌++◌, List, length, ◌+◌,
  drop, ◌≡◌, Bool, ℕ,
}

module _ (a : Arena) (strict : Bool) (s : IsSavable a) where
  abbrev n : ℕ
  n = length a.buffers

  abbrev table : List (ℕ × ℕ)
  table = entries (6 + 12 * n) a.buffers

  table_at :
      drop 6 (save a) ≡ save_table table ++ (contents a.buffers ++ save_relocations a.relocations)
  unfolding save
  table_at = refl

  buffers_at : drop (6 + 12 * n) (save a) ≡ contents a.buffers ++ save_relocations a.relocations
  buffers_at =
      let e : 6 + 12 * n ≡ 6 + length (save_table table) =
        omega (arith, length-save_table table, length-entries a.buffers (6 + 12 * n)) in
      rw e (drop_past (save a) 6 (save_table table) _ table_at)

  relocations_at : drop (6 + 12 * n + total a.buffers) (save a) ≡ save_relocations a.relocations
  relocations_at =
      rw (← length-contents a.buffers)
        (drop_past (save a) (6 + 12 * n) (contents a.buffers) _ buffers_at)

  table_read : read_table n 0 (save a) 6 ≡ ok table
  table_read = rw (length-entries a.buffers (6 + 12 * n)) at (
      read_table-save (save a) table 0 6 _
        (entries-EntryFits a.buffers (6 + 12 * n) s.small s.reachable) table_at)

  relocations_read :
      parse_relocations (save a) (6 + 12 * n + total a.buffers) strict ≡ ok a.relocations
  unfolding parse_relocations
  relocations_read =
      relocation_loop-save (save a) strict a.relocations [] (suc (length (save a))) _ s.places
        enough relocations_at
    where
      enough : length a.relocations < suc (length (save a))
      enough = omega (
        arith,
        length-save_relocations a.relocations,
        ap length relocations_at,
        length-drop (6 + 12 * n + total a.buffers) (save a),
      )

  tables_parsed :
      parse_tables 21 n (save a) strict
      ≡ ok (record { version = 21; buffers = a.buffers; relocations = a.relocations })
  unfolding parse_tables
  tables_parsed = rw (
    table_read,
    cut_buffers-entries (save a) a.buffers 0 (6 + 12 * n) _ buffers_at,
    reloc_start-entries a.buffers (6 + 12 * n),
    relocations_read,
  )

  header_fields : fields (1 ∷ 1 ∷ []) (drop 4 (save a)) ≡ 21 ∷ n ∷ []
  unfolding save
  header_fields = rw (s.current) (
      fields-pack (1 ∷ 1 ∷ []) (21 ∷ n ∷ [])
        (save_table table ++ (contents a.buffers ++ save_relocations a.relocations))
        (omega arith, (s.few, tt)))

  long_enough : leb 6 (length (save a)) ≡ true
  unfolding save
  long_enough = ground arith

  -- Parsing what the format's writer makes of an arena that the format can hold gives the arena
  -- back, strict or not.
  pub parse-save : parse (save a) strict ≡ ok a
  unfolding parse save
  parse-save =
      rw
        (
          long_enough,
          ap (λ vs. field_at vs 0) header_fields,
          ap (λ vs. field_at vs 1) header_fields,
        )
        (tables_parsed ∙ rw (s.current) refl)
