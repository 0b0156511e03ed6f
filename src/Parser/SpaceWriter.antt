-- ===== src/Parser/SpaceWriter.antt =====
-- The table of namespaces as YARA's compiler lays it out, and `parse_namespaces` against it.
use yaradec.Prelude.{
  All, map, refl, drop, length, leb, ◌++◌, ◌∷◌, [], List, some, true, ◌≢◌, ◌∙◌, ap, ◌≡◌, ◌<◌, ◌^◌,
  ◌*◌, ◌+◌, suc, ℕ, arith,
}
use yaradec.Prelude.Text.{Text, codes}
use yaradec.Result.{guard, ◌>>◌, arena_error, namespaces_truncated, Result, ok, map_ok, ◌>>=◌}
use yaradec.Bytes.{Bytes, pack, unpack_from}
use yaradec.Bytes.Laws.{Fit}
use yaradec.Arena.{Arena, Ref}
use yaradec.Arena.Access.{cstring}
use yaradec.Parser.Metas.{or_default, ref_of}
use yaradec.Parser.Records.{or_default_nonempty, Ref32, record_inside, record_next, record_read}
use yaradec.Parser.Rules.{namespaces_loop}

pub record Space : Type 0 where
  pub place : Ref
  pub name : Text
  pub number : ℕ

abbrev pub IsSpace : Arena → Space → Type 0
IsSpace a s =
    Ref32 s.place × (s.number < 2 ^ 64) × (cstring a s.place ≡ ok (some s.name)) × (s.name ≢ [])

abbrev space_format : List ℕ
space_format = 4 ∷ 4 ∷ 8 ∷ []

abbrev space_fields : Space → List ℕ
space_fields s = s.place.buffer_id ∷ s.place.offset ∷ s.number ∷ []

abbrev pub write_namespaces : List Space → Bytes
write_namespaces [] = []
write_namespaces (s ∷ ss) = pack space_format (space_fields s) ++ write_namespaces ss

module _ (a : Arena) where
  space-Fit : (s : Space) → IsSpace a s → Fit space_format (space_fields s)
  space-Fit s ((b, o), n, named, nonempty) = (omega arith, (omega arith, (omega arith, tt)))

  pub namespaces_loop-write :
      (buf : Bytes) (i : ℕ) (ss : List Space) (rest : Bytes)
      → All (IsSpace a) ss
      → drop (i * 16) buf ≡ write_namespaces ss ++ rest
      → namespaces_loop a buf i (length ss) ≡ ok (map (λ (s : Space). s.name) ss)
  unfolding namespaces_loop
  namespaces_loop-write buf i [] rest h e = refl
  namespaces_loop-write buf i (s ∷ ss) rest (h, hs) e =
      let (place, number, named, nonempty) = h in
      let fits : Fit space_format (space_fields s) = space-Fit s h in
      let inside : leb (i * 16 + 16) (length buf) ≡ true =
        record_inside space_format (space_fields s) buf i 16 (write_namespaces ss) rest fits refl
          (omega arith) e in
      let there : drop (suc i * 16) buf ≡ write_namespaces ss ++ rest =
        record_next space_format (space_fields s) buf i 16 (write_namespaces ss) rest fits refl
          (omega arith) e in
      let more : Result (List Text) = namespaces_loop a buf (suc i) (length ss) in
      ap
        (λ b.
          guard b (arena_error (namespaces_truncated i))
          >> (unpack_from space_format buf (i * 16) >>= λ vals.
              cstring a (ref_of vals 0) >>= λ name.
              map_ok (λ names. or_default (codes "default") name ∷ names) more))
        inside
      ∙ ap
          (λ u. u >>= λ vals. cstring a (ref_of vals 0) >>= λ name.
            map_ok (λ names. or_default (codes "default") name ∷ names) more)
          (record_read space_format (space_fields s) buf i 16 (write_namespaces ss) rest fits refl
            (omega arith) e)
      ∙ rw named (
          rw
            (
              or_default_nonempty (codes "default") s.name nonempty,
              namespaces_loop-write buf (suc i) ss rest hs there,
            )
            refl)
