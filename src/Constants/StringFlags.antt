-- ===== src/Constants/StringFlags.antt =====
-- `class StringFlags` of constants.py.
use yaradec.Prelude.{ℕ}

abbrev pub referenced : ℕ
referenced = 0x1

abbrev pub hexadecimal : ℕ
hexadecimal = 0x2

abbrev pub no_case : ℕ
no_case = 0x4

abbrev pub ascii : ℕ
ascii = 0x8

abbrev pub wide : ℕ
wide = 0x10

abbrev pub regexp : ℕ
regexp = 0x20

abbrev pub fast_regexp : ℕ
fast_regexp = 0x40

abbrev pub full_word : ℕ
full_word = 0x80

abbrev pub anonymous : ℕ
anonymous = 0x100

abbrev pub single_match : ℕ
single_match = 0x200

abbrev pub literal : ℕ
literal = 0x400

abbrev pub fits_in_atom : ℕ
fits_in_atom = 0x800

abbrev pub last_in_rule : ℕ
last_in_rule = 0x1000

abbrev pub chain_part : ℕ
chain_part = 0x2000

abbrev pub chain_tail : ℕ
chain_tail = 0x4000

abbrev pub fixed_offset : ℕ
fixed_offset = 0x8000

abbrev pub greedy_regexp : ℕ
greedy_regexp = 0x10000

abbrev pub dot_all : ℕ
dot_all = 0x20000

abbrev pub disabled : ℕ
disabled = 0x40000

abbrev pub xor : ℕ
xor = 0x80000

abbrev pub private : ℕ
private = 0x100000

abbrev pub base64 : ℕ
base64 = 0x200000

abbrev pub base64_wide : ℕ
base64_wide = 0x400000
