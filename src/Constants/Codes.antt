-- ===== src/Constants/Codes.antt =====
-- The two instruction sets as numberings.
use yaradec.Prelude.{some, refl, ◌≡◌}
use yaradec.Constants.Op
use yaradec.Constants.Op.{Op}
use yaradec.Constants.ReOp
use yaradec.Constants.ReOp.{ReOp}

-- Every opcode's number is read back as that opcode.
pub of_byte-value : (o : Op) → Op.of_byte (Op.value o) ≡ some o
unfolding Op.of_byte Op.find_value
of_byte-value Op.error = refl
of_byte-value _ = refl

-- The same for the opcodes of regexp programs.
pub re_of_byte-value : (o : ReOp) → ReOp.of_byte (ReOp.value o) ≡ some o
unfolding ReOp.of_byte ReOp.find_value
re_of_byte-value ReOp.any = refl
re_of_byte-value _ = refl
