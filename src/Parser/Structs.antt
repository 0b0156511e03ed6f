-- ===== src/Parser/Structs.antt =====
-- The dataclasses of parser.py. A record of the file that a dataclass copies out stays a number where
-- the source wraps it in an enumeration of flags.
use yaradec.Prelude.{List, Option, Bool, ℕ}
use yaradec.Prelude.Int.{ℤ}
use yaradec.Prelude.Text.{Text}
use yaradec.Bytes.{Bytes}
use yaradec.Arena.{Arena, Ref}
use yaradec.Constants.{has}
use yaradec.Constants.StringFlags
use yaradec.Constants.RuleFlags

-- `type` and `value` of a meta.
pub data MetaValue : Type 0 where
  string_value : Text → MetaValue
  boolean_value : Bool → MetaValue
  integer_value : ℤ → MetaValue

pub record Meta : Type 0 where
  pub identifier : Text
  pub value : MetaValue

pub record YrString : Type 0 where
  pub index : ℕ
  pub identifier : Text
  pub flags : ℕ
  pub rule_index : ℕ
  pub length : ℤ
  -- `data`
  pub content : Bytes
  pub fixed_offset : Option ℤ
  pub chained_to : Option ℕ
  pub chain_gap_min : ℤ
  pub chain_gap_max : ℤ
  pub re_code_ref : Option Ref
  pub rendered : Option Text

abbrev pub is_anonymous : YrString → Bool
is_anonymous s = has s.flags StringFlags.anonymous

abbrev pub is_chain_part : YrString → Bool
is_chain_part s = has s.flags StringFlags.chain_part

pub record Rule : Type 0 where
  pub index : ℕ
  pub identifier : Text
  pub namespace : Option Text
  pub flags : ℕ
  pub tags : List Text
  pub metas : List Meta
  pub strings : List YrString
  pub num_atoms : ℤ
  pub required_strings : ℕ
  pub condition : Option Text

abbrev pub is_private : Rule → Bool
is_private r = has r.flags RuleFlags.private

abbrev pub is_global : Rule → Bool
is_global r = has r.flags RuleFlags.global

pub record Summary : Type 0 where
  pub num_rules : ℕ
  pub num_strings : ℕ
  pub num_namespaces : ℕ

pub record CompiledRules : Type 0 where
  pub arena : Arena
  pub summary : Summary
  pub namespaces : List Text
  pub rules : List Rule
  pub strings : List YrString
  pub imports : List Text
