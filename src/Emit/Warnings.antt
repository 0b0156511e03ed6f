-- ===== src/Emit/Warnings.antt =====
-- What the warnings of emit.py and decompile.py say, by the message's form. The first text is the
-- identifier of the string or the rule.
use yaradec.Prelude.{ℕ}
use yaradec.Prelude.Text.{Text}
use yaradec.Result.{Error}
use yaradec.Code.Condition.Monad.{Note}

pub data Warning : Type 0 where
  -- emit.py
  pattern_lost xor_range_lost base64_alphabet_lost condition_lost : Text → Warning
  -- decompile.py
  no_match_entry outside_programs base64_unrecovered approximate : Text → Warning
  undecodable : Text → Error → Warning
  several_programs : Text → ℕ → Warning
  condition_note : Text → Note → Warning
