-- ===== src/Constants.antt =====
-- yaradec/constants.py: sections, struct sizes, flags, and the two instruction sets.
pub mod Op
pub mod ReOp
pub mod Codes
pub mod Section
pub mod StringFlags
pub mod RuleFlags
use Prim.Native.Nat.{bit_and}
use yaradec.Prelude.{ℕ, Bool, not, ◌==◌}

abbrev pub sizeof_rule : ℕ
sizeof_rule = 56

abbrev pub sizeof_string : ℕ
sizeof_string = 56

abbrev pub sizeof_meta : ℕ
sizeof_meta = 32

abbrev pub sizeof_namespace : ℕ
sizeof_namespace = 16

-- `bool(flags & flag)`
abbrev pub has : ℕ → ℕ → Bool
has flags flag = not (bit_and flags flag == 0)

abbrev pub meta_flags_last_in_rule : ℕ
meta_flags_last_in_rule = 1

-- `class MetaType`
abbrev pub meta_integer : ℕ
meta_integer = 1

abbrev pub meta_string : ℕ
meta_string = 2

abbrev pub meta_boolean : ℕ
meta_boolean = 3

abbrev pub re_flags_no_case : ℕ
re_flags_no_case = 0x20

abbrev pub re_flags_dot_all : ℕ
re_flags_dot_all = 0x80
