-- ===== src/Code/Condition/Operands.antt =====
-- `_string_name`, `_sz`, `_push_operand` and `_regex_literal`.
use yaradec.Prelude.{
  if◌then◌else◌, ◌==◌, ◌++◌, ◌∷◌, [], List, some, none, Option, not, false, true, Bool, ◌%◌, ◌/◌,
  ◌+◌, ℕ,
}
use yaradec.Prelude.Text.{Text, codes}
use yaradec.Result.{Result, ok, err, map_ok}
use yaradec.Bytes.{Bytes, unpack_from, field_at}
use yaradec.Arena.{Arena, Ref}
use yaradec.Arena.Access.{buffer, cstring, sized_string}
use yaradec.Constants.{has, sizeof_string, re_flags_no_case, re_flags_dot_all}
use yaradec.Constants.Section
use yaradec.RePattern.Decode.{ReInstr}
use yaradec.RePattern.Programs.{disassemble_program}
use yaradec.RePattern.Regex.{render_regex}
use yaradec.Code.Decode.{unpack_ref}
use yaradec.Code.Bodies.{dict_get}
use yaradec.Code.Expr.{Expr, atom}
use yaradec.Code.Literals.{int_literal, escape_bytes, undefined_value}
use yaradec.Code.Condition.Monad.{
  undecompiled_regexp, partial_regexp, Exec, pure, raise, note, ◌>>=◌, ◌>>◌,
}

-- The attributes that no method changes, `repr` of the double with given bits, and the depth at
-- which Python's recursion limit stops the regexp renderer.
pub record Context : Type 0 where
  pub arena : Arena
  pub string_names : List (ℕ × Text)
  pub rule_names : List (ℕ × Text)
  pub rule_strings : List Text
  pub double_repr : ℕ → Text
  pub regex_limit : ℕ

unfoldable pub string_name : Context → Ref → Option Text
string_name c ref =
    if not (ref.buffer_id == Section.strings_table)
    then none
    else if not (ref.offset % sizeof_string == 0)
    then none
    else dict_get c.string_names (ref.offset / sizeof_string)

abbrev or_none : Result (Option Text) → Option Text
or_none (ok t) = t
or_none (err e) = none

unfoldable pub sz : Context → Ref → Option Text
sz c ref = if not (ref.buffer_id == Section.sz_pool) then none else or_none (cstring c.arena ref)

abbrev regex_suffix : ℕ → Text
regex_suffix flags =
    (if has flags re_flags_no_case then codes "i" else [])
    ++ (if has flags re_flags_dot_all then codes "s" else [])

abbrev slashed : ℕ → Text → Text
slashed flags text = b'/' ∷ (text ++ (b'/' ∷ regex_suffix flags))

abbrev finish_regex : ℕ → Result (Text × Bool) → Exec Text
finish_regex flags (err e) = raise e
finish_regex flags (ok (text, true)) = pure (slashed flags text)
finish_regex flags (ok (text, false)) = do note partial_regexp; pure (slashed flags text)

-- The `try` of `_regex_literal`: the flags word, then the program behind it.
abbrev read_regex : Bytes → Ref → Result (ℕ × List ReInstr)
read_regex code ref = elim (unpack_from (4 ∷ []) code ref.offset) [
  | err e ↦ err e
  | ok vals ↦
      map_ok (λ instrs. (field_at vals 0, instrs)) (disassemble_program code (ref.offset + 4))
]

abbrev regex_of : Context → Ref → Result (ℕ × List ReInstr) → Exec Text
regex_of c ref (err e) = do
  note (undecompiled_regexp ref.buffer_id ref.offset)
  pure (codes "/<unrecovered>/")
regex_of c ref (ok (flags, instrs)) = finish_regex flags (render_regex c.regex_limit instrs)

abbrev with_buffer : Context → Ref → Result Bytes → Exec Text
with_buffer c ref (err e) = raise e
with_buffer c ref (ok code) = regex_of c ref (read_regex code ref)

-- Fetching the buffer stands before the `try`, so its `ArenaError` escapes.
unfoldable pub regex_literal : Context → Ref → Exec Text
regex_literal c ref = with_buffer c ref (buffer c.arena Section.re_code_section)

abbrev quoted : Bytes → Text
quoted content = b'"' ∷ (escape_bytes content ++ codes "\"")

unfoldable pub int_operand : ℕ → Expr
int_operand v = record (atom (int_literal v)) { raw = some v }

abbrev sized_or_int : ℕ → Option (Bytes × ℕ) → Expr
sized_or_int v none = int_operand v
sized_or_int v (some (content, flags)) = atom (quoted content)

-- `_push_operand` behind the string table.
unfoldable pub pool_operand : Context → ℕ → Exec Expr
pool_operand c v =
    if (unpack_ref v).buffer_id == Section.re_code_section
    then (do text ← regex_literal c (unpack_ref v); pure (atom text))
    else if (unpack_ref v).buffer_id == Section.sz_pool
    then pure (sized_or_int v (sized_string c.arena (unpack_ref v)))
    else pure (int_operand v)

abbrev pub named_or_pool : Context → ℕ → Option Text → Exec Expr
named_or_pool c v none = pool_operand c v
named_or_pool c v (some name) = pure (atom name)

unfoldable pub push_operand : Context → ℕ → Exec Expr
push_operand c v =
    if v == undefined_value
    then pure (record (atom (codes "undefined")) { raw = some v })
    else named_or_pool c v (string_name c (unpack_ref v))

-- `_as_double`
unfoldable pub as_double : Context → Expr → Expr
as_double c e = elim e.raw [
  | none ↦ e
  | some v ↦ record { text = c.double_repr v; prec = e.prec; raw = none }
]
