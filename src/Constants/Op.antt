-- ===== src/Constants/Op.antt =====
-- The VM opcodes of constants.py (`class Op`) and their operand encodings.
use yaradec.Prelude.{ℕ, Bool, Option, none, some, List, [], ◌∷◌, ◌==◌, if◌then◌else◌}
use yaradec.Prelude.Text.{Text, codes}

pub data Op : Type 0 where
  error and or not bitwise_not bitwise_and bitwise_or bitwise_xor shl shr modulo int_to_dbl : Op
  str_to_bool push pop call obj_load obj_value obj_field index_array count length found : Op
  found_at found_in offset of push_rule init_rule match_rule incr_m clear_m add_m pop_m : Op
  push_m set_m swapundef filesize entrypoint unused matches import lookup_dict jundef : Op
  jundef_p jnundef jnundef_p jfalse jfalse_p jtrue jtrue_p jl_p jle_p iter_next : Op
  iter_start_array iter_start_dict iter_start_int_range iter_start_int_enum : Op
  iter_start_string_set iter_condition iter_end jz jz_p push_8 push_16 push_32 push_u : Op
  contains startswith endswith icontains istartswith iendswith iequals of_percent : Op
  of_found_in count_in defined iter_start_text_string_set of_found_at int_eq int_neq int_lt : Op
  int_gt int_le int_ge int_add int_sub int_mul int_div int_minus dbl_eq dbl_neq dbl_lt : Op
  dbl_gt dbl_le dbl_ge dbl_add dbl_sub dbl_mul dbl_div dbl_minus str_eq str_neq str_lt : Op
  str_gt str_le str_ge int8 int16 int32 uint8 uint16 uint32 int8be int16be int32be uint8be : Op
  uint16be uint32be nop halt : Op

unfoldable pub value : Op → ℕ
value Op.error = 0
value Op.and = 1
value Op.or = 2
value Op.not = 3
value Op.bitwise_not = 4
value Op.bitwise_and = 5
value Op.bitwise_or = 6
value Op.bitwise_xor = 7
value Op.shl = 8
value Op.shr = 9
value Op.modulo = 10
value Op.int_to_dbl = 11
value Op.str_to_bool = 12
value Op.push = 13
value Op.pop = 14
value Op.call = 15
value Op.obj_load = 16
value Op.obj_value = 17
value Op.obj_field = 18
value Op.index_array = 19
value Op.count = 20
value Op.length = 21
value Op.found = 22
value Op.found_at = 23
value Op.found_in = 24
value Op.offset = 25
value Op.of = 26
value Op.push_rule = 27
value Op.init_rule = 28
value Op.match_rule = 29
value Op.incr_m = 30
value Op.clear_m = 31
value Op.add_m = 32
value Op.pop_m = 33
value Op.push_m = 34
value Op.set_m = 35
value Op.swapundef = 36
value Op.filesize = 37
value Op.entrypoint = 38
value Op.unused = 39
value Op.matches = 40
value Op.import = 41
value Op.lookup_dict = 42
value Op.jundef = 43
value Op.jundef_p = 44
value Op.jnundef = 45
value Op.jnundef_p = 46
value Op.jfalse = 47
value Op.jfalse_p = 48
value Op.jtrue = 49
value Op.jtrue_p = 50
value Op.jl_p = 51
value Op.jle_p = 52
value Op.iter_next = 53
value Op.iter_start_array = 54
value Op.iter_start_dict = 55
value Op.iter_start_int_range = 56
value Op.iter_start_int_enum = 57
value Op.iter_start_string_set = 58
value Op.iter_condition = 59
value Op.iter_end = 60
value Op.jz = 61
value Op.jz_p = 62
value Op.push_8 = 63
value Op.push_16 = 64
value Op.push_32 = 65
value Op.push_u = 66
value Op.contains = 67
value Op.startswith = 68
value Op.endswith = 69
value Op.icontains = 70
value Op.istartswith = 71
value Op.iendswith = 72
value Op.iequals = 73
value Op.of_percent = 74
value Op.of_found_in = 75
value Op.count_in = 76
value Op.defined = 77
value Op.iter_start_text_string_set = 78
value Op.of_found_at = 79
value Op.int_eq = 100
value Op.int_neq = 101
value Op.int_lt = 102
value Op.int_gt = 103
value Op.int_le = 104
value Op.int_ge = 105
value Op.int_add = 106
value Op.int_sub = 107
value Op.int_mul = 108
value Op.int_div = 109
value Op.int_minus = 110
value Op.dbl_eq = 120
value Op.dbl_neq = 121
value Op.dbl_lt = 122
value Op.dbl_gt = 123
value Op.dbl_le = 124
value Op.dbl_ge = 125
value Op.dbl_add = 126
value Op.dbl_sub = 127
value Op.dbl_mul = 128
value Op.dbl_div = 129
value Op.dbl_minus = 130
value Op.str_eq = 140
value Op.str_neq = 141
value Op.str_lt = 142
value Op.str_gt = 143
value Op.str_le = 144
value Op.str_ge = 145
value Op.int8 = 240
value Op.int16 = 241
value Op.int32 = 242
value Op.uint8 = 243
value Op.uint16 = 244
value Op.uint32 = 245
value Op.int8be = 246
value Op.int16be = 247
value Op.int32be = 248
value Op.uint8be = 249
value Op.uint16be = 250
value Op.uint32be = 251
value Op.nop = 254
value Op.halt = 255

-- Every member of the enumeration.
abbrev pub members : List Op
members =
    Op.error ∷ Op.and ∷ Op.or ∷ Op.not ∷ Op.bitwise_not ∷ Op.bitwise_and ∷ Op.bitwise_or
    ∷ Op.bitwise_xor ∷ Op.shl ∷ Op.shr ∷ Op.modulo ∷ Op.int_to_dbl ∷ Op.str_to_bool ∷ Op.push
    ∷ Op.pop ∷ Op.call ∷ Op.obj_load ∷ Op.obj_value ∷ Op.obj_field ∷ Op.index_array ∷ Op.count
    ∷ Op.length ∷ Op.found ∷ Op.found_at ∷ Op.found_in ∷ Op.offset ∷ Op.of ∷ Op.push_rule
    ∷ Op.init_rule ∷ Op.match_rule ∷ Op.incr_m ∷ Op.clear_m ∷ Op.add_m ∷ Op.pop_m ∷ Op.push_m
    ∷ Op.set_m ∷ Op.swapundef ∷ Op.filesize ∷ Op.entrypoint ∷ Op.unused ∷ Op.matches ∷ Op.import
    ∷ Op.lookup_dict ∷ Op.jundef ∷ Op.jundef_p ∷ Op.jnundef ∷ Op.jnundef_p ∷ Op.jfalse ∷ Op.jfalse_p
    ∷ Op.jtrue ∷ Op.jtrue_p ∷ Op.jl_p ∷ Op.jle_p ∷ Op.iter_next ∷ Op.iter_start_array
    ∷ Op.iter_start_dict ∷ Op.iter_start_int_range ∷ Op.iter_start_int_enum
    ∷ Op.iter_start_string_set ∷ Op.iter_condition ∷ Op.iter_end ∷ Op.jz ∷ Op.jz_p ∷ Op.push_8
    ∷ Op.push_16 ∷ Op.push_32 ∷ Op.push_u ∷ Op.contains ∷ Op.startswith ∷ Op.endswith ∷ Op.icontains
    ∷ Op.istartswith ∷ Op.iendswith ∷ Op.iequals ∷ Op.of_percent ∷ Op.of_found_in ∷ Op.count_in
    ∷ Op.defined ∷ Op.iter_start_text_string_set ∷ Op.of_found_at ∷ Op.int_eq ∷ Op.int_neq
    ∷ Op.int_lt ∷ Op.int_gt ∷ Op.int_le ∷ Op.int_ge ∷ Op.int_add ∷ Op.int_sub ∷ Op.int_mul
    ∷ Op.int_div ∷ Op.int_minus ∷ Op.dbl_eq ∷ Op.dbl_neq ∷ Op.dbl_lt ∷ Op.dbl_gt ∷ Op.dbl_le
    ∷ Op.dbl_ge ∷ Op.dbl_add ∷ Op.dbl_sub ∷ Op.dbl_mul ∷ Op.dbl_div ∷ Op.dbl_minus ∷ Op.str_eq
    ∷ Op.str_neq ∷ Op.str_lt ∷ Op.str_gt ∷ Op.str_le ∷ Op.str_ge ∷ Op.int8 ∷ Op.int16 ∷ Op.int32
    ∷ Op.uint8 ∷ Op.uint16 ∷ Op.uint32 ∷ Op.int8be ∷ Op.int16be ∷ Op.int32be ∷ Op.uint8be
    ∷ Op.uint16be ∷ Op.uint32be ∷ Op.nop ∷ Op.halt ∷ []

unfoldable pub find_value : ℕ → List Op → Option Op
unfolding value
find_value b [] = none
find_value b (o ∷ os) = let rest = find_value b os in if value o == b then some o else rest

-- `Op(b)`; `none` is its `ValueError`.
unfoldable pub of_byte : ℕ → Option Op
of_byte b = find_value b members

-- `a is b`
abbrev pub same : Op → Op → Bool
unfolding value
same a b = value a == value b

-- `op.name`
unfoldable pub name : Op → Text
name Op.error = codes "ERROR"
name Op.and = codes "AND"
name Op.or = codes "OR"
name Op.not = codes "NOT"
name Op.bitwise_not = codes "BITWISE_NOT"
name Op.bitwise_and = codes "BITWISE_AND"
name Op.bitwise_or = codes "BITWISE_OR"
name Op.bitwise_xor = codes "BITWISE_XOR"
name Op.shl = codes "SHL"
name Op.shr = codes "SHR"
name Op.modulo = codes "MOD"
name Op.int_to_dbl = codes "INT_TO_DBL"
name Op.str_to_bool = codes "STR_TO_BOOL"
name Op.push = codes "PUSH"
name Op.pop = codes "POP"
name Op.call = codes "CALL"
name Op.obj_load = codes "OBJ_LOAD"
name Op.obj_value = codes "OBJ_VALUE"
name Op.obj_field = codes "OBJ_FIELD"
name Op.index_array = codes "INDEX_ARRAY"
name Op.count = codes "COUNT"
name Op.length = codes "LENGTH"
name Op.found = codes "FOUND"
name Op.found_at = codes "FOUND_AT"
name Op.found_in = codes "FOUND_IN"
name Op.offset = codes "OFFSET"
name Op.of = codes "OF"
name Op.push_rule = codes "PUSH_RULE"
name Op.init_rule = codes "INIT_RULE"
name Op.match_rule = codes "MATCH_RULE"
name Op.incr_m = codes "INCR_M"
name Op.clear_m = codes "CLEAR_M"
name Op.add_m = codes "ADD_M"
name Op.pop_m = codes "POP_M"
name Op.push_m = codes "PUSH_M"
name Op.set_m = codes "SET_M"
name Op.swapundef = codes "SWAPUNDEF"
name Op.filesize = codes "FILESIZE"
name Op.entrypoint = codes "ENTRYPOINT"
name Op.unused = codes "UNUSED"
name Op.matches = codes "MATCHES"
name Op.import = codes "IMPORT"
name Op.lookup_dict = codes "LOOKUP_DICT"
name Op.jundef = codes "JUNDEF"
name Op.jundef_p = codes "JUNDEF_P"
name Op.jnundef = codes "JNUNDEF"
name Op.jnundef_p = codes "JNUNDEF_P"
name Op.jfalse = codes "JFALSE"
name Op.jfalse_p = codes "JFALSE_P"
name Op.jtrue = codes "JTRUE"
name Op.jtrue_p = codes "JTRUE_P"
name Op.jl_p = codes "JL_P"
name Op.jle_p = codes "JLE_P"
name Op.iter_next = codes "ITER_NEXT"
name Op.iter_start_array = codes "ITER_START_ARRAY"
name Op.iter_start_dict = codes "ITER_START_DICT"
name Op.iter_start_int_range = codes "ITER_START_INT_RANGE"
name Op.iter_start_int_enum = codes "ITER_START_INT_ENUM"
name Op.iter_start_string_set = codes "ITER_START_STRING_SET"
name Op.iter_condition = codes "ITER_CONDITION"
name Op.iter_end = codes "ITER_END"
name Op.jz = codes "JZ"
name Op.jz_p = codes "JZ_P"
name Op.push_8 = codes "PUSH_8"
name Op.push_16 = codes "PUSH_16"
name Op.push_32 = codes "PUSH_32"
name Op.push_u = codes "PUSH_U"
name Op.contains = codes "CONTAINS"
name Op.startswith = codes "STARTSWITH"
name Op.endswith = codes "ENDSWITH"
name Op.icontains = codes "ICONTAINS"
name Op.istartswith = codes "ISTARTSWITH"
name Op.iendswith = codes "IENDSWITH"
name Op.iequals = codes "IEQUALS"
name Op.of_percent = codes "OF_PERCENT"
name Op.of_found_in = codes "OF_FOUND_IN"
name Op.count_in = codes "COUNT_IN"
name Op.defined = codes "DEFINED"
name Op.iter_start_text_string_set = codes "ITER_START_TEXT_STRING_SET"
name Op.of_found_at = codes "OF_FOUND_AT"
name Op.int_eq = codes "INT_EQ"
name Op.int_neq = codes "INT_NEQ"
name Op.int_lt = codes "INT_LT"
name Op.int_gt = codes "INT_GT"
name Op.int_le = codes "INT_LE"
name Op.int_ge = codes "INT_GE"
name Op.int_add = codes "INT_ADD"
name Op.int_sub = codes "INT_SUB"
name Op.int_mul = codes "INT_MUL"
name Op.int_div = codes "INT_DIV"
name Op.int_minus = codes "INT_MINUS"
name Op.dbl_eq = codes "DBL_EQ"
name Op.dbl_neq = codes "DBL_NEQ"
name Op.dbl_lt = codes "DBL_LT"
name Op.dbl_gt = codes "DBL_GT"
name Op.dbl_le = codes "DBL_LE"
name Op.dbl_ge = codes "DBL_GE"
name Op.dbl_add = codes "DBL_ADD"
name Op.dbl_sub = codes "DBL_SUB"
name Op.dbl_mul = codes "DBL_MUL"
name Op.dbl_div = codes "DBL_DIV"
name Op.dbl_minus = codes "DBL_MINUS"
name Op.str_eq = codes "STR_EQ"
name Op.str_neq = codes "STR_NEQ"
name Op.str_lt = codes "STR_LT"
name Op.str_gt = codes "STR_GT"
name Op.str_le = codes "STR_LE"
name Op.str_ge = codes "STR_GE"
name Op.int8 = codes "INT8"
name Op.int16 = codes "INT16"
name Op.int32 = codes "INT32"
name Op.uint8 = codes "UINT8"
name Op.uint16 = codes "UINT16"
name Op.uint32 = codes "UINT32"
name Op.int8be = codes "INT8BE"
name Op.int16be = codes "INT16BE"
name Op.int32be = codes "INT32BE"
name Op.uint8be = codes "UINT8BE"
name Op.uint16be = codes "UINT16BE"
name Op.uint32be = codes "UINT32BE"
name Op.nop = codes "NOP"
name Op.halt = codes "HALT"

pub data OperandKind : Type 0 where
  u8 u16 u32 u64 jmp jmp_u32 : OperandKind

-- `OPERANDS.get(op)`
unfoldable pub operands : Op → Option OperandKind
operands Op.push = some u64
operands Op.push_8 = some u8
operands Op.push_16 = some u16
operands Op.push_32 = some u32
operands Op.clear_m = some u64
operands Op.add_m = some u64
operands Op.incr_m = some u64
operands Op.push_m = some u64
operands Op.pop_m = some u64
operands Op.set_m = some u64
operands Op.swapundef = some u64
operands Op.push_rule = some u64
operands Op.match_rule = some u64
operands Op.obj_load = some u64
operands Op.obj_field = some u64
operands Op.call = some u64
operands Op.import = some u64
operands Op.int_to_dbl = some u64
operands Op.of = some u64
operands Op.of_percent = some u64
operands Op.init_rule = some jmp_u32
operands Op.jnundef = some jmp
operands Op.jundef = some jmp
operands Op.jundef_p = some jmp
operands Op.jnundef_p = some jmp
operands Op.jl_p = some jmp
operands Op.jle_p = some jmp
operands Op.jtrue = some jmp
operands Op.jtrue_p = some jmp
operands Op.jfalse = some jmp
operands Op.jfalse_p = some jmp
operands Op.jz = some jmp
operands Op.jz_p = some jmp
operands _ = none

-- `OPERAND_WIDTH`
unfoldable pub operand_width : OperandKind → ℕ
operand_width u8 = 1
operand_width u16 = 2
operand_width u32 = 4
operand_width u64 = 8
operand_width jmp = 4
operand_width jmp_u32 = 8
