-- ===== src/Tests/Conditions.antt =====
-- Condition bytecode, and what code.py makes of it.
use yaradec.Prelude.{
  ◌≢◌, map, none, Option, inr, ℕ, some, All, ◌++◌, ◌∷◌, [], List, false, ◌≡◌, refl, arith,
}
use yaradec.Prelude.Int.{pos, negsuc}
use yaradec.Result.{out_of_fuel, out_of_fuel, err, err, map_ok, ◌>>=◌, ok}
use yaradec.Constants.Op
use yaradec.Constants.Op.{Op}
use yaradec.Code.Decode.{Instr, decode, disassemble, is_halt}
use yaradec.Code.Compiled.{
  Cond, number, filesize, str_count, unary_op, binary_op, read, some_of, compile, show, Valid,
  IsNamed,
}
use yaradec.Code.Compiled.Correct.{recovered, run-compile, run-disassemble-write}
use yaradec.Code.Bodies.{dict_get}
use yaradec.Code.Literals.{int_literal}
use yaradec.Code.Condition.Sets.{covers_rule, sorted, insert, text_le, has_anonymous}
use yaradec.Code.Condition.Operands.{Context}
use yaradec.Code.Condition.Run.{run}
use yaradec.Prelude.Text.{Text, codes, show_dec, show_upper_hex, digits_of, lstrip_dollar}
use yaradec.Code.Unescape.{read_quoted-escape_bytes}
use yaradec.QuotedText.{plain, read_quoted}
use yaradec.Code.Literals.{escape_bytes}
use yaradec.Code.Blocks.{Block, New, stream, split_rule_bodies-stream}
use yaradec.Code.Bodies.{split_rule_bodies}
use yaradec.Prelude.Text.{backslash}
use yaradec.Code.Compiled.Program.{RuleCode, program, blocks, recover_all, recover_section-write}
use yaradec.Code.Termination.{disassemble-ne-out_of_fuel}
use yaradec.Code.Writer.{
  instrs, Code, nothing, immediate, jump, write, write_all, instr, halt, Fits, decode-write,
  disassemble-write,
}

-- A jump back by three bytes.
abbrev back : Code
back = record { op = Op.jtrue; arg = jump (negsuc 2) }

back-Fits : Fits back
unfolding Op.operands
back-Fits = omega arith

decode-write_example : decode (write back ++ (255 ∷ [])) 0 ≡ ok (instr 0 back)
decode-write_example = decode-write (write back ++ (255 ∷ [])) 0 back (255 ∷ []) back-Fits refl

-- `filesize > 255` with a jump in front.
abbrev listing : List Code
listing =
    back
    ∷ record { op = Op.filesize; arg = nothing }
    ∷ record { op = Op.push_8; arg = immediate 255 }
    ∷ record { op = Op.int_gt; arg = nothing }
    ∷ []

listing-Fits : All (λ c. Fits c × (is_halt c.op ≡ false)) listing
unfolding Op.operands
listing-Fits = ((omega arith, refl), ((tt, refl), ((omega arith, refl), ((tt, refl), tt))))

disassemble-write_example :
    disassemble (write_all listing ++ (write halt ++ (0 ∷ [])))
    ≡ ok (
        instr 0 back
        ∷ instr 5 (record { op = Op.filesize; arg = nothing })
        ∷ instr 6 (record { op = Op.push_8; arg = immediate 255 })
        ∷ instr 8 (record { op = Op.int_gt; arg = nothing })
        ∷ instr 9 halt
        ∷ [])
unfolding Op.operands
disassemble-write_example = disassemble-write listing (0 ∷ []) listing-Fits

abbrev names : List (ℕ × Text)
names = (0, codes "$a") ∷ (1, codes "$b") ∷ (2, codes "$c") ∷ []

abbrev context : Context
context = record {
  arena = record { version = 21; buffers = []; relocations = [] };
  string_names = names;
  rule_names = [];
  rule_strings = codes "$a" ∷ codes "$b" ∷ codes "$c" ∷ [];
  double_repr = λ _. [];
  regex_limit = 0;
}

-- A product of a sum, a comparison, a negated read, and sets of strings.
abbrev condition : Cond
condition =
    binary_op Op.or
      (binary_op Op.and
        (binary_op Op.int_gt
          (binary_op Op.int_mul (binary_op Op.int_add (str_count 0) (number 1)) (number 2))
          filesize)
        (unary_op Op.not (binary_op Op.int_eq (read Op.uint16 (number 0)) (number 23117))))
      (some_of (number 1) (2 ∷ 0 ∷ []))

condition_text :
    show context condition
    ≡ codes "(#a + 1) * 2 > filesize and not (uint16(0) == 0x5A4D) or 1 of ($c, $a)"
unfolding dict_get int_literal show_dec show_upper_hex digits_of lstrip_dollar covers_rule sorted
    insert text_le
condition_text = refl

a-IsNamed : IsNamed context 0
unfolding dict_get
a-IsNamed = (omega arith, (codes "$a", refl))

c-IsNamed : IsNamed context 2
unfolding dict_get
c-IsNamed = (omega arith, (codes "$c", refl))

condition-Valid : Valid context condition
unfolding dict_get int_literal show_dec digits_of covers_rule sorted insert text_le has_anonymous
condition-Valid = (
  (_, refl),
  (
    (_, refl),
    ((_, refl), ((_, refl), ((_, refl), a-IsNamed, omega arith), omega arith), tt),
    ((_, refl), ((_, refl), ((_, refl), omega arith), omega arith)),
  ),
  (refl, omega arith, ((c-IsNamed, (a-IsNamed, tt)), omega arith, inr refl)),
)

run-compile_example :
    run context (instrs 40 (compile condition)) ≡ ok (recovered context (show context condition))
run-compile_example = run-compile context condition 40 condition-Valid

condition-Fits : All Fits (compile condition)
unfolding Op.operands
condition-Fits = (
  omega arith,
  (
    tt,
    (
      omega arith,
      (
        tt,
        (
          omega arith,
          (
            tt,
            (
              tt,
              (
                tt,
                (
                  (omega arith, omega arith),
                  (
                    omega arith,
                    (
                      tt,
                      (
                        omega arith,
                        (
                          tt,
                          (
                            tt,
                            (
                              tt,
                              (
                                (omega arith, omega arith),
                                (
                                  omega arith,
                                  (tt, (omega arith, (omega arith, (omega arith, (tt, tt))))),
                                ),
                              ),
                            ),
                          ),
                        ),
                      ),
                    ),
                  ),
                ),
              ),
            ),
          ),
        ),
      ),
    ),
  ),
)

run-disassemble-write_example :
    (disassemble (write_all (compile condition) ++ (write halt ++ (0 ∷ []))) >>= λ is.
    run context is)
    ≡ ok (recovered context (show context condition))
run-disassemble-write_example =
    run-disassemble-write context condition (0 ∷ []) condition-Valid condition-Fits

-- One byte of each kind that `_escape_bytes` tells apart.
read_quoted-escape_bytes_example :
    read_quoted plain (escape_bytes (b'"' ∷ backslash ∷ b'a' ∷ 0 ∷ []) ++ codes "\" or true")
    ≡ some (b'"' ∷ backslash ∷ b'a' ∷ 0 ∷ [], codes " or true")
read_quoted-escape_bytes_example =
    read_quoted-escape_bytes (b'"' ∷ backslash ∷ b'a' ∷ 0 ∷ []) (codes " or true")
      (omega arith, (omega arith, (omega arith, (omega arith, tt))))

-- Two rules' blocks.
abbrev plain_instr : Op → Option ℕ → Instr
plain_instr op index = record {
  offset = 0;
  op = op;
  size = 1;
  operand = none;
  target = none;
  rule_index = index;
}

abbrev two_blocks : List Block
two_blocks =
    record {
      index = 3;
      opening = plain_instr Op.init_rule (some 3);
      body = plain_instr Op.filesize none ∷ [];
      closing = plain_instr Op.match_rule none;
    }
    ∷ record {
      index = 1;
      opening = plain_instr Op.init_rule (some 1);
      body = [];
      closing = plain_instr Op.match_rule none;
    }
    ∷ []

two_blocks-New : New [] two_blocks
unfolding dict_get
two_blocks-New = (refl, (refl, tt))

split_rule_bodies-stream_example :
    split_rule_bodies (stream two_blocks (plain_instr Op.halt none ∷ plain_instr Op.nop none ∷ []))
    ≡ (3, plain_instr Op.filesize none ∷ []) ∷ (1, []) ∷ []
split_rule_bodies-stream_example =
    split_rule_bodies-stream two_blocks (plain_instr Op.halt none) (plain_instr Op.nop none ∷ [])
      ((refl, refl, (refl, tt), refl), ((refl, refl, tt, refl), tt)) two_blocks-New refl

-- Two rules in one section.
abbrev rules : List RuleCode
rules =
    record { index = 4; skip = pos 20; condition = str_count 2 }
    ∷ record { index = 2; skip = pos 30; condition = binary_op Op.shl filesize (number 300) }
    ∷ []

rules-Valid : All (λ (r : RuleCode). Valid context r.condition) rules
rules-Valid = (c-IsNamed, (((_, refl), tt, omega arith), tt))

rules-New : New [] (blocks 0 rules)
unfolding dict_get
rules-New = (refl, (refl, tt))

rules-Fits : All Fits (program rules)
unfolding Op.operands
rules-Fits = (
  ((omega arith, omega arith), omega arith),
  (
    omega arith,
    (
      tt,
      (
        omega arith,
        (((omega arith, omega arith), omega arith), (tt, (omega arith, (tt, (omega arith, tt))))),
      ),
    ),
  ),
)

recover_section-write_example :
    map_ok
      (λ is. recover_all context (split_rule_bodies is))
      (disassemble (write_all (program rules) ++ (write halt ++ (9 ∷ []))))
    ≡ ok
        (map (λ (r : RuleCode). (r.index, ok (recovered context (show context r.condition)))) rules)
recover_section-write_example =
    recover_section-write context rules (9 ∷ []) rules-Valid rules-New rules-Fits

disassemble-ne-out_of_fuel_example : disassemble (1 ∷ 255 ∷ 16 ∷ []) ≢ err out_of_fuel
disassemble-ne-out_of_fuel_example = disassemble-ne-out_of_fuel (1 ∷ 255 ∷ 16 ∷ [])
