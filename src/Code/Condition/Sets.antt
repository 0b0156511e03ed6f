-- ===== src/Code/Condition/Sets.antt =====
-- `_pop_set`, `_recover_of` and `_recover_call`.
use yaradec.Result.{ok}
use yaradec.Prelude.{
  any, length, if◌then◌else◌, ◌==◌, ltb, map, ◌++◌, ◌∷◌, [], List, some, none, Option, ◌||◌, ◌&&◌,
  not, false, true, Bool, suc, ℕ,
}
use mathlib.Core.List.{reverse}
use yaradec.Prelude.Text.{Text, codes, text_eq, join}
use yaradec.Constants.Op.{Op}
use yaradec.Code.Decode.{Instr, unpack_ref}
use yaradec.Code.Expr.{Expr, atom, expr, paren, prec_cmp}
use yaradec.Code.Condition.Monad.{
  undelimited_set, anonymous_set, unreadable_signature, Item, value, undefined, Exec, pure, give_up,
  note, incomplete, pop, pop_many, ◌>>=◌, ◌>>◌,
}
use yaradec.Code.Condition.Operands.{Context, sz}

-- `items` is in the order of the pushes; what is left of the stack comes back with it.
unfoldable pub take_set : List Item → List Text → Option (List Text) × List Item
take_set [] items = (none, [])
take_set (undefined ∷ rest) items = (some items, rest)
take_set (value e ∷ rest) items =
    let more = take_set rest (e.text ∷ items) in
    if ltb 65536 (suc (length items)) then (none, rest) else more

abbrev pub after_set : Option (List Text) × List Item → Exec (Option (List Text))
after_set (none, rest) m = ok (some none, record m { stack = rest; complete = false })
after_set (some items, rest) m = ok (some (some items), record m { stack = rest })

unfoldable pub pop_set : Exec (Option (List Text))
pop_set m = after_set (take_set m.stack []) m

-- The order of Python's texts.
unfoldable pub text_le : Text → Text → Bool
text_le [] t = true
text_le (c ∷ s) [] = false
text_le (c ∷ s) (d ∷ t) = ltb c d || (c == d && text_le s t)

unfoldable pub insert : Text → List Text → List Text
insert t [] = t ∷ []
insert t (u ∷ us) = let rest = insert t us in if text_le t u then t ∷ u ∷ us else u ∷ rest

-- `sorted`
unfoldable pub sorted : List Text → List Text
sorted [] = []
sorted (t ∷ ts) = insert t (sorted ts)

abbrev texts_eq : List Text → List Text → Bool
texts_eq [] [] = true
texts_eq [] (u ∷ us) = false
texts_eq (t ∷ ts) [] = false
texts_eq (t ∷ ts) (u ∷ us) = text_eq t u && texts_eq ts us

abbrev is_empty {ℓ} : {A : Type ℓ} → List A → Bool
is_empty [] = true
is_empty (x ∷ xs) = false

-- `self.rule_strings and sorted(items) == sorted(self.rule_strings)`
unfoldable pub covers_rule : Context → List Text → Bool
covers_rule c items =
    not (is_empty c.rule_strings) && texts_eq (sorted items) (sorted c.rule_strings)

-- `any(i == "$" for i in items)`
unfoldable pub has_anonymous : List Text → Bool
has_anonymous items = any (λ i. text_eq i (codes "$")) items

abbrev pub comma : Text
comma = codes ", "

-- `"undefined"` stands for "all".
unfoldable pub all_or : Text → Text
all_or quantifier = if text_eq quantifier (codes "undefined") then codes "all" else quantifier

-- Where an OF is confined: nowhere, at an offset, or in a range.
pub data Extra : Type 0 where
  no_extra : Extra
  at : Expr → Extra
  within : Expr → Expr → Extra

unfoldable pub pop_extra : Op → Exec Extra
pop_extra Op.of_found_at = do e ← pop; pure (at e)
pop_extra Op.of_found_in = do hi ← pop; lo ← pop; pure (within lo hi)
pop_extra op = pure no_extra

abbrev pub extra_text : Extra → Text
extra_text no_extra = []
extra_text (at e) = codes " at " ++ paren e prec_cmp
extra_text (within lo hi) = codes " in (" ++ (lo.text ++ (codes ".." ++ (hi.text ++ codes ")")))

abbrev pub percent : Op → Text
percent Op.of_percent = codes "%"
percent op = []

abbrev pub of_text : Op → Text → Text → Extra → Expr
of_text op quantifier set extra =
    expr (all_or quantifier ++ (percent op ++ (codes " of " ++ (set ++ extra_text extra)))) prec_cmp

abbrev pub of_items : Context → Op → Instr → Extra → Option (List Text) → Exec Expr
of_items c op ins extra none = do note (undelimited_set ins.offset); give_up
of_items c op ins extra (some items) = do
  quantifier ← pop
  if covers_rule c items
      then pure (of_text op quantifier.text (codes "them") extra)
      else if has_anonymous items
      then (do note anonymous_set; incomplete; give_up)
      else pure (of_text op quantifier.text (b'(' ∷ (join comma items ++ codes ")")) extra)

unfoldable pub recover_of : Context → Op → Instr → Exec Expr
unfolding pop_extra
recover_of c op ins = do extra ← pop_extra op; items ← pop_set; of_items c op ins extra items

operand_of : Instr → ℕ
operand_of ins = elim ins.operand [ some v ↦ v | none ↦ 0 ]

abbrev call_with : Instr → Option Text → Exec Expr
call_with ins none = do note (unreadable_signature ins.offset); incomplete; give_up
call_with ins (some argfmt) = do
  args ← pop_many (length argfmt)
  func ← pop
  pure (
      atom (
        func.text
        ++ (b'(' ∷ (join comma (reverse (map (λ (e : Expr). e.text) args)) ++ codes ")"))))

unfoldable pub recover_call : Context → Instr → Exec Expr
unfolding operand_of
recover_call c ins = call_with ins (sz c (unpack_ref (operand_of ins)))
