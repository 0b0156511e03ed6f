-- ===== src/Parser/Metas.antt =====
-- `RulesParser.parse_metas`.
use yaradec.Prelude.{
  length, if◌then◌else◌, ◌==◌, leb, ltb, ◌∷◌, [], List, some, none, Option, not, ◌^◌, ◌+◌, suc,
  zero, ℕ,
}
use yaradec.Prelude.Text.{Text}
use yaradec.Prelude.Int.{signed}
use yaradec.Result.{Result, ok, err, map_ok, ◌>>=◌, arena_error, metas_unterminated, out_of_fuel}
use yaradec.Bytes.{Bytes, unpack_from, field_at}
use yaradec.Arena.{Arena, Ref, is_null}
use yaradec.Arena.Access.{buffer, cstring}
use yaradec.Constants.{
  has, sizeof_meta, meta_flags_last_in_rule, meta_integer, meta_string, meta_boolean,
}
use yaradec.Parser.Structs.{Meta, MetaValue, string_value, boolean_value, integer_value}

-- `text or default`, where an empty text counts as none.
abbrev pub or_default : Text → Option Text → Text
or_default default none = default
or_default default (some []) = default
or_default default (some (c ∷ t)) = c ∷ t

-- `self._ref(values, i)`
abbrev pub ref_of : List ℕ → ℕ → Ref
ref_of vals i = record { buffer_id = field_at vals i; offset = field_at vals (i + 1) }

-- `_META_FMT`
abbrev pub meta_format : List ℕ
meta_format = 4 ∷ 4 ∷ 4 ∷ 4 ∷ 8 ∷ 4 ∷ 4 ∷ []

-- The value of a meta of type `mtype`; `none` for an unknown type.
unfoldable pub meta_value : Arena → ℕ → Ref → ℕ → Result (Option MetaValue)
meta_value a mtype str_ref integer =
    if mtype == meta_string
    then map_ok (λ t. some (string_value (or_default [] t))) (cstring a str_ref)
    else if mtype == meta_boolean
    then ok (some (boolean_value (not (integer == 0))))
    else if mtype == meta_integer
    then ok (some (integer_value (signed (2 ^ 63) integer)))
    else ok none

-- What follows the value: the end at an unknown type, at the last meta, and at too long a list.
abbrev pub after_value : Text → ℕ → ℕ → Option MetaValue → Result (List Meta) → Result (List Meta)
after_value identifier flags count none rest = ok []
after_value identifier flags count (some value) rest =
    let meta : Meta = record { identifier = identifier; value = value } in
    if has flags meta_flags_last_in_rule
    then ok (meta ∷ [])
    else if ltb 4096 (count + 1)
    then err (arena_error metas_unterminated)
    else map_ok (λ more. meta ∷ more) rest

-- One round at the unpacked fields; `count` is `len(out)`.
unfoldable pub meta_round : Arena → ℕ → List ℕ → Result (List Meta) → Result (List Meta)
meta_round a count vals rest = cstring a (ref_of vals 0) >>= λ identifier.
    meta_value a (field_at vals 5) (ref_of vals 2) (field_at vals 4) >>= λ value.
    after_value (or_default [] identifier) (field_at vals 6) count value rest

-- The `while` loop; a round takes 32 bytes, so the buffer's length is fuel enough.
unfoldable pub metas_loop : ℕ → Arena → Bytes → ℕ → ℕ → Result (List Meta)
metas_loop zero a buf off count = err out_of_fuel
metas_loop (suc fuel) a buf off count =
    let rest = metas_loop fuel a buf (off + sizeof_meta) (count + 1) in
    if leb (off + sizeof_meta) (length buf)
    then (unpack_from meta_format buf off >>= λ vals. meta_round a count vals rest)
    else ok []

unfoldable pub parse_metas : Arena → Ref → Result (List Meta)
parse_metas a start =
    if is_null start
    then ok []
    else buffer a start.buffer_id >>= λ buf. metas_loop (suc (length buf)) a buf start.offset 0
