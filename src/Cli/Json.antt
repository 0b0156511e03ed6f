-- ===== src/Cli/Json.antt =====
-- What `_to_json` of cli.py hands to `json.dumps`: a dictionary with fixed keys is a record.
use yaradec.Prelude.{if◌then◌else◌, ◌∷◌, [], List, some, none, Option, ◌||◌, not, Bool, ℕ, map}
use yaradec.Prelude.Text.{Text, codes}
use yaradec.Bytes.Utf8.{decode_utf8}
use yaradec.Constants.{has}
use yaradec.Constants.StringFlags
use yaradec.Parser.Structs.{
  Meta, MetaValue, string_value, boolean_value, integer_value, YrString, Rule, is_private,
  is_global,
}
use yaradec.Emit.Rules.{is_none}
use yaradec.Emit.Warnings.{Warning}
use yaradec.Decompile.Pipeline.{Decompiled}

pub record MetaPayload : Type 0 where
  pub identifier : Text
  pub type_name : Text
  pub value : MetaValue

pub record StringPayload : Type 0 where
  pub identifier : Text
  pub recovered : Option Text
  pub exact : Bool
  pub flags : List Text

pub record RulePayload : Type 0 where
  pub identifier : Text
  pub namespace : Option Text
  pub private : Bool
  pub global : Bool
  pub tags : List Text
  pub meta : List MetaPayload
  pub strings : List StringPayload
  pub condition : Option Text
  pub condition_recovered : Bool

pub record Payload : Type 0 where
  pub arena_version : ℕ
  pub imports : List Text
  pub namespaces : List Text
  pub warnings : List Warning
  pub rules : List RulePayload

-- `MetaType(m.type).name.lower()`
abbrev pub type_name : MetaValue → Text
type_name (string_value t) = codes "string"
type_name (boolean_value b) = codes "boolean"
type_name (integer_value i) = codes "integer"

abbrev pub meta_payload : Meta → MetaPayload
meta_payload m = record {
  identifier = m.identifier;
  type_name = type_name m.value;
  value = m.value;
}

-- The members of `StringFlags`, in the order of the class.
abbrev pub flag_names : List (ℕ × Text)
flag_names =
    (StringFlags.referenced, codes "REFERENCED")
    ∷ (StringFlags.hexadecimal, codes "HEXADECIMAL")
    ∷ (StringFlags.no_case, codes "NO_CASE")
    ∷ (StringFlags.ascii, codes "ASCII")
    ∷ (StringFlags.wide, codes "WIDE")
    ∷ (StringFlags.regexp, codes "REGEXP")
    ∷ (StringFlags.fast_regexp, codes "FAST_REGEXP")
    ∷ (StringFlags.full_word, codes "FULL_WORD")
    ∷ (StringFlags.anonymous, codes "ANONYMOUS")
    ∷ (StringFlags.single_match, codes "SINGLE_MATCH")
    ∷ (StringFlags.literal, codes "LITERAL")
    ∷ (StringFlags.fits_in_atom, codes "FITS_IN_ATOM")
    ∷ (StringFlags.last_in_rule, codes "LAST_IN_RULE")
    ∷ (StringFlags.chain_part, codes "CHAIN_PART")
    ∷ (StringFlags.chain_tail, codes "CHAIN_TAIL")
    ∷ (StringFlags.fixed_offset, codes "FIXED_OFFSET")
    ∷ (StringFlags.greedy_regexp, codes "GREEDY_REGEXP")
    ∷ (StringFlags.dot_all, codes "DOT_ALL")
    ∷ (StringFlags.disabled, codes "DISABLED")
    ∷ (StringFlags.xor, codes "XOR")
    ∷ (StringFlags.private, codes "PRIVATE")
    ∷ (StringFlags.base64, codes "BASE64")
    ∷ (StringFlags.base64_wide, codes "BASE64_WIDE")
    ∷ []

abbrev pub names_of : List (ℕ × Text) → ℕ → List Text
names_of [] flags = []
names_of ((flag, name) ∷ rows) flags =
    let rest = names_of rows flags in if has flags flag then name ∷ rest else rest

-- A literal's bytes stand for it where no text was rendered; an empty text counts as none.
abbrev pub recovered_text : YrString → Option Text → Option Text
recovered_text s (some (c ∷ t)) = some (c ∷ t)
recovered_text s _ = if has s.flags StringFlags.literal then some (decode_utf8 s.content) else none

unfoldable pub string_payload : YrString → StringPayload
string_payload s = record {
  identifier = s.identifier;
  recovered = recovered_text s s.rendered;
  exact = has s.flags StringFlags.literal || not (is_none s.rendered);
  flags = names_of flag_names s.flags;
}

unfoldable pub rule_payload : Rule → RulePayload
rule_payload r = record {
  identifier = r.identifier;
  namespace = r.namespace;
  private = is_private r;
  global = is_global r;
  tags = r.tags;
  meta = map meta_payload r.metas;
  strings = map string_payload r.strings;
  condition = r.condition;
  condition_recovered = not (is_none r.condition);
}

unfoldable pub payload : Decompiled → Payload
payload d = record {
  arena_version = d.compiled.arena.version;
  imports = d.compiled.imports;
  namespaces = d.compiled.namespaces;
  warnings = d.warnings;
  rules = map rule_payload d.compiled.rules;
}
