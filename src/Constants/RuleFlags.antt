-- ===== src/Constants/RuleFlags.antt =====
-- `class RuleFlags` of constants.py.
use yaradec.Prelude.{ℕ}

abbrev pub private : ℕ
private = 0x1

abbrev pub global : ℕ
global = 0x2

abbrev pub null : ℕ
null = 0x4

abbrev pub disabled : ℕ
disabled = 0x8
