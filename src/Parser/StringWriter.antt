-- ===== src/Parser/StringWriter.antt =====
-- The table of strings as YARA's compiler lays it out, and `parse_strings` against it.
use yaradec.Prelude.{
  All, drop, leb, map, ◌∙◌, ◌+◌, suc, ap, length, if◌then◌else◌, ◌++◌, ◌∷◌, [], List, some, none,
  Option, false, true, ◌≢◌, refl, ◌≡◌, ◌<◌, ◌^◌, ◌*◌, ℕ, arith,
}
use yaradec.Prelude.Int.{ℤ, pos, unsigned, FitsSigned, signed-unsigned, unsigned-lt}
use yaradec.Prelude.Text.{Text, codes, show_dec}
use yaradec.Result.{guard, ◌>>◌, arena_error, strings_truncated, Result, ok, map_ok, ◌>>=◌}
use yaradec.Bytes.{Bytes, pack, unpack_from}
use yaradec.Bytes.Laws.{Fit}
use yaradec.Arena.{Arena, Ref, is_null, null_id}
use yaradec.Arena.Access.{buffer, cstring}
use yaradec.Arena.Reads.{StandsAt, read-StandsAt}
use yaradec.Constants.{has}
use yaradec.Constants.Section
use yaradec.Constants.StringFlags
use yaradec.Parser.Records.{or_default_nonempty, Ref32, record_inside, record_next, record_read}
use yaradec.Parser.Structs.{YrString}
use yaradec.Parser.Strings.{
  string_format, string_content, chain_target, string_of, strings_loop, parse_strings,
}

-- Where a pattern stands: its bytes, or its program. The reference of a pattern that is no literal
-- is null, as YARA's compiler writes it, or one to a program.
pub data Pattern : Type 0 where
  literal_at : Ref → Bytes → Pattern
  program_at : Ref → Pattern
  unlinked : Pattern

pub record Row : Type 0 where
  pub index : ℕ
  pub name : Ref
  pub identifier : Text
  pub flags : ℕ
  pub rule_index : ℕ
  pub width : ℤ
  pub pattern : Pattern
  pub offset : ℤ
  pub chained_to : Option ℕ
  pub gap_min : ℤ
  pub gap_max : ℤ

abbrev null_ref : Ref
null_ref = record { buffer_id = null_id; offset = null_id }

abbrev pattern_ref : Pattern → Ref
pattern_ref (literal_at ref bs) = ref
pattern_ref (program_at ref) = ref
pattern_ref unlinked = null_ref

abbrev content_of : Pattern → Bytes
content_of (literal_at ref bs) = bs
content_of (program_at ref) = []
content_of unlinked = []

abbrev code_of : Pattern → Option Ref
code_of (literal_at ref bs) = none
code_of (program_at ref) = some ref
code_of unlinked = none

abbrev chain_ref : Option ℕ → Ref
chain_ref none = null_ref
chain_ref (some i) = record { buffer_id = Section.strings_table; offset = 56 * i }

-- The string of a row.
abbrev pub string_at : Row → YrString
string_at r = record {
  index = r.index;
  identifier = r.identifier;
  flags = r.flags;
  rule_index = r.rule_index;
  length = r.width;
  content = content_of r.pattern;
  fixed_offset = if has r.flags StringFlags.fixed_offset then some r.offset else none;
  chained_to = r.chained_to;
  chain_gap_min = r.gap_min;
  chain_gap_max = r.gap_max;
  re_code_ref = code_of r.pattern;
  rendered = none;
}

abbrev row_fields : Row → List ℕ
row_fields r =
    r.flags
    ∷ r.index
    ∷ unsigned (2 ^ 63) r.offset
    ∷ r.rule_index
    ∷ unsigned (2 ^ 31) r.width
    ∷ (pattern_ref r.pattern).buffer_id
    ∷ (pattern_ref r.pattern).offset
    ∷ (chain_ref r.chained_to).buffer_id
    ∷ (chain_ref r.chained_to).offset
    ∷ unsigned (2 ^ 31) r.gap_min
    ∷ unsigned (2 ^ 31) r.gap_max
    ∷ r.name.buffer_id
    ∷ r.name.offset
    ∷ []

abbrev pub write_strings : List Row → Bytes
write_strings [] = []
write_strings (r ∷ rows) = pack string_format (row_fields r) ++ write_strings rows

abbrev HasPattern : Arena → ℕ → ℤ → Pattern → Type 0
HasPattern a flags width (literal_at ref bs) =
    (has flags StringFlags.literal ≡ true)
    × (width ≡ pos (length bs))
    × ((rest : Bytes) × StandsAt a ref bs rest)
HasPattern a flags width (program_at ref) =
    (has flags StringFlags.literal ≡ false) × (is_null ref ≡ false)
HasPattern a flags width unlinked = has flags StringFlags.literal ≡ false

abbrev InTable : Option ℕ → Type 0
InTable none = Unit
InTable (some i) = 56 * i < 2 ^ 32

-- The fields fit, and what the row refers to is there.
pub record IsRow (a : Arena) (r : Row) : Type 0 where
  pub words : (r.flags < 2 ^ 32) × (r.index < 2 ^ 32) × (r.rule_index < 2 ^ 32)
  pub fixed : FitsSigned (2 ^ 63) r.offset
  pub numbers :
      FitsSigned (2 ^ 31) r.width × FitsSigned (2 ^ 31) r.gap_min × FitsSigned (2 ^ 31) r.gap_max
  pub name : Ref32 r.name
  pub ref : Ref32 (pattern_ref r.pattern)
  pub pattern : HasPattern a r.flags r.width r.pattern
  pub chained : InTable r.chained_to
  pub named : cstring a r.name ≡ ok (some r.identifier)
  pub some_name : r.identifier ≢ []

string_content_lem :
    (a : Arena) (flags : ℕ) (width : ℤ) (p : Pattern)
    → HasPattern a flags width p
    → string_content a flags (pattern_ref p) width ≡ (content_of p, code_of p)
unfolding string_content
string_content_lem a flags width (literal_at ref bs) (literal, same, (rest, there)) =
    rw (there.not_null, literal) (rw same (rw (read-StandsAt a ref bs rest there) refl))
string_content_lem a flags width (program_at ref) (code, real) = rw (real, code) refl
string_content_lem a flags width unlinked code = refl

chain_target_lem : (c : Option ℕ) → chain_target (chain_ref c) ≡ c
unfolding chain_target
chain_target_lem none = refl
chain_target_lem (some i) = ap some (omega arith)

module _ (a : Arena) where
  chain_ref-lt : (c : Option ℕ) → InTable c → Ref32 (chain_ref c)
  chain_ref-lt none h = (omega arith, omega arith)
  chain_ref-lt (some i) h = (omega arith, omega arith)

  row-Fit : (r : Row) → IsRow a r → Fit string_format (row_fields r)
  row-Fit r h =
      let (w1, w2, w3) = h.words in
      let (n1, n2, n3) = h.numbers in
      let (c1, c2) = chain_ref-lt r.chained_to h.chained in
      let (p1, p2) = h.ref in
      let (m1, m2) = h.name in
      let u0 : unsigned (2 ^ 63) r.offset < 256 ^ 8 =
        omega (arith, unsigned-lt (2 ^ 63) r.offset h.fixed) in
      let u1 : unsigned (2 ^ 31) r.width < 256 ^ 4 =
        omega (arith, unsigned-lt (2 ^ 31) r.width n1) in
      let u2 : unsigned (2 ^ 31) r.gap_min < 256 ^ 4 =
        omega (arith, unsigned-lt (2 ^ 31) r.gap_min n2) in
      let u3 : unsigned (2 ^ 31) r.gap_max < 256 ^ 4 =
        omega (arith, unsigned-lt (2 ^ 31) r.gap_max n3) in
      (
        omega arith,
        (
          omega arith,
          (
            u0,
            (
              omega arith,
              (
                u1,
                (
                  omega arith,
                  (
                    omega arith,
                    (omega arith, (omega arith, (u2, (u3, (omega arith, (omega arith, tt)))))),
                  ),
                ),
              ),
            ),
          ),
        ),
      )

  string_of_lem : (i : ℕ) (r : Row) → IsRow a r → string_of a i (row_fields r) ≡ ok (string_at r)
  unfolding string_of
  string_of_lem i r h =
      let (n1, n2, n3) = h.numbers in
      rw h.named (
        rw
          (
            or_default_nonempty (codes "$__" ++ show_dec i) r.identifier h.some_name,
            signed-unsigned (2 ^ 63) r.offset h.fixed,
            signed-unsigned (2 ^ 31) r.width n1,
            signed-unsigned (2 ^ 31) r.gap_min n2,
            signed-unsigned (2 ^ 31) r.gap_max n3,
            string_content_lem a r.flags r.width r.pattern h.pattern,
            chain_target_lem r.chained_to,
          )
          refl)

  strings_loop-write :
      (buf : Bytes) (i : ℕ) (rows : List Row) (rest : Bytes)
      → All (IsRow a) rows
      → drop (i * 56) buf ≡ write_strings rows ++ rest
      → strings_loop a buf i (length rows) ≡ ok (map string_at rows)
  unfolding strings_loop
  strings_loop-write buf i [] rest h e = refl
  strings_loop-write buf i (r ∷ rows) rest (h, hs) e =
      let fits : Fit string_format (row_fields r) = row-Fit r h in
      let inside : leb (i * 56 + 56) (length buf) ≡ true =
        record_inside string_format (row_fields r) buf i 56 (write_strings rows) rest fits refl
          (omega arith) e in
      let there : drop (suc i * 56) buf ≡ write_strings rows ++ rest =
        record_next string_format (row_fields r) buf i 56 (write_strings rows) rest fits refl
          (omega arith) e in
      let more : Result (List YrString) = strings_loop a buf (suc i) (length rows) in
      ap
        (λ b.
          guard b (arena_error (strings_truncated i))
          >> (unpack_from string_format buf (i * 56) >>= λ vals.
              string_of a i vals >>= λ s. map_ok (λ ss. s ∷ ss) more))
        inside
      ∙ ap (λ u. u >>= λ vals. string_of a i vals >>= λ s. map_ok (λ ss. s ∷ ss) more)
          (record_read string_format (row_fields r) buf i 56 (write_strings rows) rest fits refl
            (omega arith) e)
      ∙ rw (string_of_lem i r h, strings_loop-write buf (suc i) rows rest hs there) refl

-- A table of strings that was written at the start of its buffer is read back string by string:
-- literals with the bytes that stand at their references, the other patterns with the place of their
-- program, and chained strings with the number of the string that they are chained to.
pub parse_strings-write :
    (a : Arena) (rows : List Row) (rest : Bytes)
    → buffer a Section.strings_table ≡ ok (write_strings rows ++ rest)
    → All (IsRow a) rows
    → parse_strings a (length rows) ≡ ok (map string_at rows)
unfolding parse_strings
parse_strings-write a rows rest read h =
    rw read (strings_loop-write a (write_strings rows ++ rest) 0 rows rest h refl)
