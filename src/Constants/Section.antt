-- ===== src/Constants/Section.antt =====
-- `class Section` of constants.py: the arena's buffer ids.
use yaradec.Prelude.{ℕ}

abbrev pub namespaces_table : ℕ
namespaces_table = 0

abbrev pub rules_table : ℕ
rules_table = 1

abbrev pub metas_table : ℕ
metas_table = 2

abbrev pub strings_table : ℕ
strings_table = 3

abbrev pub external_variables_table : ℕ
external_variables_table = 4

abbrev pub sz_pool : ℕ
sz_pool = 5

abbrev pub code_section : ℕ
code_section = 6

abbrev pub re_code_section : ℕ
re_code_section = 7

abbrev pub ac_transition_table : ℕ
ac_transition_table = 8

abbrev pub ac_state_matches_table : ℕ
ac_state_matches_table = 9

abbrev pub ac_state_matches_pool : ℕ
ac_state_matches_pool = 10

abbrev pub summary_section : ℕ
summary_section = 11
