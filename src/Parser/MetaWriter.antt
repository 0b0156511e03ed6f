-- ===== src/Parser/MetaWriter.antt =====
-- A rule's metas as YARA's compiler lays them out, and `parse_metas` against it.
use yaradec.Prelude.{
  length-append, All, drop, length, if◌then◌else◌, leb, ltb, map, Bool, ◌∙◌, ap, sym, ◌≤◌, ◌+◌, suc,
  zero, ◌++◌, ◌∷◌, [], List, some, false, true, refl, ◌≡◌, ◌<◌, ◌^◌, ℕ, arith,
}
use mathlib.Core.List.{append_assoc}
use yaradec.Prelude.Int.{unsigned, FitsSigned, signed-unsigned, unsigned-lt}
use yaradec.Prelude.Text.{Text}
use yaradec.Result.{Result, ok, map_ok, ◌>>=◌}
use yaradec.Bytes.{Bytes, pack, unpack_from}
use yaradec.Bytes.Laws.{Fit, unpack_from_at, length_at, drop_past, length-pack}
use yaradec.Arena.{Arena, Ref, is_null}
use yaradec.Arena.Access.{buffer, cstring}
use yaradec.Constants.{meta_integer, meta_string, meta_boolean}
use yaradec.Parser.Records.{Ref32}
use yaradec.Parser.Structs.{Meta, MetaValue, string_value, boolean_value, integer_value}
use yaradec.Parser.Metas.{
  or_default, meta_format, meta_value, after_value, meta_round, metas_loop, parse_metas,
}

-- A meta, where its identifier stands, and where its text does, if it is one.
pub record Row : Type 0 where
  pub name : Ref
  pub text : Ref
  pub meta : Meta

abbrev type_of : MetaValue → ℕ
type_of (string_value t) = meta_string
type_of (boolean_value b) = meta_boolean
type_of (integer_value i) = meta_integer

abbrev integer_of : MetaValue → ℕ
integer_of (string_value t) = 0
integer_of (boolean_value true) = 1
integer_of (boolean_value false) = 0
integer_of (integer_value i) = unsigned (2 ^ 63) i

abbrev row_fields : ℕ → Row → List ℕ
row_fields flags r =
    r.name.buffer_id
    ∷ r.name.offset
    ∷ r.text.buffer_id
    ∷ r.text.offset
    ∷ integer_of r.meta.value
    ∷ type_of r.meta.value
    ∷ flags
    ∷ []

abbrev row_bytes : ℕ → Row → Bytes
row_bytes flags r = pack meta_format (row_fields flags r)

-- The rows one after the other, the last of them marked.
abbrev pub write_metas : Row → List Row → Bytes
write_metas r [] = row_bytes 1 r
write_metas r (next ∷ rows) = row_bytes 0 r ++ write_metas next rows

-- A text stands where the row says, and an integer fits in 64 bits.
abbrev HasValue : Arena → Ref → MetaValue → Type 0
HasValue a ref (string_value t) = cstring a ref ≡ ok (some t)
HasValue a ref (boolean_value b) = Unit
HasValue a ref (integer_value i) = FitsSigned (2 ^ 63) i

abbrev pub IsRow : Arena → Row → Type 0
IsRow a r =
    Ref32 r.name
    × Ref32 r.text
    × (cstring a r.name ≡ ok (some r.meta.identifier))
    × HasValue a r.text r.meta.value

or_default_text : (t : Text) → or_default [] (some t) ≡ t
or_default_text [] = refl
or_default_text (c ∷ t) = refl

module _ (a : Arena) where
  integer_of-lt : (ref : Ref) (v : MetaValue) → HasValue a ref v → integer_of v < 256 ^ 8
  integer_of-lt ref (string_value t) h = omega arith
  integer_of-lt ref (boolean_value true) h = omega arith
  integer_of-lt ref (boolean_value false) h = omega arith
  integer_of-lt ref (integer_value i) h = omega (arith, unsigned-lt (2 ^ 63) i h)

  type_of-lt : (v : MetaValue) → type_of v < 256 ^ 4
  type_of-lt (string_value t) = omega arith
  type_of-lt (boolean_value b) = omega arith
  type_of-lt (integer_value i) = omega arith

  meta_value_lem :
      (ref : Ref) (v : MetaValue)
      → HasValue a ref v
      → meta_value a (type_of v) ref (integer_of v) ≡ ok (some v)
  unfolding meta_value
  meta_value_lem ref (string_value t) h = rw h (rw (or_default_text t) refl)
  meta_value_lem ref (boolean_value true) h = refl
  meta_value_lem ref (boolean_value false) h = refl
  meta_value_lem ref (integer_value i) h = rw (signed-unsigned (2 ^ 63) i h) refl

  row-Fit : (flags : ℕ) (r : Row) → flags < 256 → IsRow a r → Fit meta_format (row_fields flags r)
  row-Fit flags r small ((n1, n2), (t1, t2), named, valued) = (
    omega arith,
    (
      omega arith,
      (
        omega arith,
        (
          omega arith,
          (integer_of-lt r.text r.meta.value valued, (type_of-lt r.meta.value, (omega arith, tt))),
        ),
      ),
    ),
  )

  meta_round_lem :
      (count flags : ℕ) (r : Row) (rest : Result (List Meta))
      → IsRow a r
      → meta_round a count (row_fields flags r) rest
        ≡ after_value r.meta.identifier flags count (some r.meta.value) rest
  unfolding meta_round
  meta_round_lem count flags r rest (n, t, named, valued) =
      rw named (
        rw (meta_value_lem r.text r.meta.value valued)
          (rw (or_default_text r.meta.identifier) refl))

  length-write_metas :
      (r : Row) (rows : List Row)
      → IsRow a r
      → All (IsRow a) rows
      → length rows ≤ length (write_metas r rows)
  length-write_metas r [] is_row are = omega arith
  length-write_metas r (next ∷ rows) is_row (is_next, are) = omega (
    arith,
    length-append (row_bytes 0 r) (write_metas next rows),
    length-pack meta_format (row_fields 0 r) (row-Fit 0 r (omega arith) is_row),
    length-write_metas next rows is_next are,
  )

  module _ (buf : Bytes) where
    -- A row that stands at `off` is read, and the loop goes on behind it.
    metas_loop-row :
        (fuel off count flags : ℕ) (r : Row) (rest : Bytes)
        → flags < 256
        → IsRow a r
        → drop off buf ≡ row_bytes flags r ++ rest
        → metas_loop (suc fuel) a buf off count
          ≡ after_value r.meta.identifier flags count
              (some r.meta.value)
              (metas_loop fuel a buf (off + 32) (count + 1))
    unfolding metas_loop
    metas_loop-row fuel off count flags r rest small is_row e =
        let fits : Fit meta_format (row_fields flags r) = row-Fit flags r small is_row in
        let width : length (row_bytes flags r) ≡ 32 =
          length-pack meta_format (row_fields flags r) fits in
        let inside : leb (off + 32) (length buf) ≡ true =
          ground (arith, length_at buf off (row_bytes flags r) rest e) in
        let more : Result (List Meta) = metas_loop fuel a buf (off + 32) (count + 1) in
        test inside (unpack_from meta_format buf off >>= λ vals. meta_round a count vals more)
        ∙ ap (λ u. u >>= λ vals. meta_round a count vals more)
            (unpack_from_at meta_format (row_fields flags r) buf off rest fits (omega arith) e)
        ∙ meta_round_lem count flags r more is_row
      where
        test : {b : Bool} → b ≡ true → (x : Result (List Meta)) → (if b then x else ok []) ≡ x
        test h x = rw h refl

    metas_loop-write :
        (fuel off count : ℕ) (r : Row) (rows : List Row) (rest : Bytes)
        → IsRow a r
        → All (IsRow a) rows
        → length rows < fuel
        → count + length rows ≤ 4096
        → drop off buf ≡ write_metas r rows ++ rest
        → metas_loop fuel a buf off count ≡ ok (map (λ (q : Row). q.meta) (r ∷ rows))
    metas_loop-write zero off count r rows rest is_row are enough few e = absurd (omega arith)
    metas_loop-write (suc fuel) off count r [] rest is_row are enough few e =
        metas_loop-row fuel off count 1 r rest (omega arith) is_row e
    metas_loop-write (suc fuel) off count r (next ∷ rows) rest is_row (is_next, are) enough few e =
        let behind : drop off buf ≡ row_bytes 0 r ++ (write_metas next rows ++ rest) =
          e ∙ append_assoc (row_bytes 0 r) (write_metas next rows) rest in
        let fits : Fit meta_format (row_fields 0 r) = row-Fit 0 r (omega arith) is_row in
        let width : length (row_bytes 0 r) ≡ 32 = length-pack meta_format (row_fields 0 r) fits in
        let there : drop (off + 32) buf ≡ write_metas next rows ++ rest =
          ap (λ n. drop (off + n) buf) (sym width)
          ∙ drop_past buf off (row_bytes 0 r) (write_metas next rows ++ rest) behind in
        let short : ltb 4096 (count + 1) ≡ false = ground arith in
        metas_loop-row fuel off count 0 r (write_metas next rows ++ rest) (omega arith) is_row
          behind
        ∙ rw short (
            ap (map_ok (λ more. r.meta ∷ more)) (
              metas_loop-write fuel (off + 32) (count + 1) next rows rest is_next are (omega arith)
                (omega arith) there))

-- From one to 4097 metas that were written at a reference that is not null, their fields fitting and
-- their identifiers and texts standing where the rows say, are read back in order, whatever follows
-- the last of them.
pub parse_metas-write :
    (a : Arena) (start : Ref) (buf : Bytes) (r : Row) (rows : List Row) (rest : Bytes)
    → is_null start ≡ false
    → buffer a start.buffer_id ≡ ok buf
    → IsRow a r
    → All (IsRow a) rows
    → length rows ≤ 4096
    → drop start.offset buf ≡ write_metas r rows ++ rest
    → parse_metas a start ≡ ok (map (λ (q : Row). q.meta) (r ∷ rows))
unfolding parse_metas
parse_metas-write a start buf r rows rest real read is_row are few e = rw real (
    rw read (
      metas_loop-write a buf (suc (length buf)) start.offset 0 r rows rest is_row are
        (omega (
          arith,
          length_at buf start.offset (write_metas r rows) rest e,
          length-write_metas a r rows is_row are,
        ))
        (omega arith) e))
