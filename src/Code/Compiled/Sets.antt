-- ===== src/Code/Compiled/Sets.antt =====
-- OF on a set of strings that was pushed behind UNDEFINED.
use mathlib.Core.List.{append-nil}
use yaradec.Prelude.{
  if◌then◌else◌, Bool, length-map, length, length-append, ltb, map, ◌++◌, ◌∷◌, [], List, some,
  false, true, ◌⊎◌, inl, inr, ◌≡◌, refl, ◌∙◌, ap, arith, ◌<◌, ◌≤◌, ◌+◌, suc, ℕ,
}
use yaradec.Prelude.Text.{Text, codes, join}
use yaradec.Result.{ok}
use yaradec.Constants.Op.{Op}
use yaradec.Code.Decode.{Instr}
use yaradec.Code.Expr.{atom, expr, prec_cmp}
use yaradec.Code.Condition.Monad.{continue, expr_of, Item, value, undefined, Machine}
use yaradec.Code.Condition.Operands.{Context}
use yaradec.Code.Condition.Sets.{
  no_extra, take_set, pop_set, recover_of, of_items, pop_extra, covers_rule, has_anonymous, all_or,
  comma,
}
use yaradec.Code.Compiled.{name_of, set_text, IsListing}

module _ (c : Context) where
  -- The stack when a set has been pushed onto it.
  abbrev pub names_onto : List ℕ → List Item → List Item
  names_onto [] st = st
  names_onto (i ∷ is) st = names_onto is (value (atom (name_of c i)) ∷ st)

  take_set_names :
      (is : List ℕ) (st : List Item) (acc : List Text)
      → length is + length acc ≤ 65536
      → take_set (names_onto is st) acc ≡ take_set st (map (name_of c) is ++ acc)
  unfolding take_set
  take_set_names [] st acc h = refl
  take_set_names (i ∷ is) st acc h =
      let fits : ltb 65536 (suc (length (map (name_of c) is ++ acc))) ≡ false =
        ground (arith, length-append (map (name_of c) is) acc, length-map is (name_of c)) in
      take_set_names is (value (atom (name_of c i)) ∷ st) acc (omega arith) ∙ rw fits refl

  pub pop_set_names :
      (is : List ℕ) (m : Machine) (st : List Item)
      → length is < 65536
      → pop_set (record m { stack = names_onto is (undefined ∷ st) })
        ≡ ok (some (some (map (name_of c) is)), record m { stack = st })
  unfolding pop_set take_set
  pop_set_names is m st h =
      let all_names : map (name_of c) is ++ [] ≡ map (name_of c) is =
        append-nil (map (name_of c) is) in
      let taken : take_set (names_onto is (undefined ∷ st)) []
          ≡ (some (map (name_of c) is ++ []), st) =
        take_set_names is (undefined ∷ st) [] (omega arith) in
      rw taken (rw all_names refl)

  -- What is made of the set, by whether it is the rule's and whether it can be written.
  of_items_names :
      (ins : Instr) (items : List Text) (m : Machine) (q : Item) (st : List Item) (whole : Bool)
      → covers_rule c items ≡ whole
      → (whole ≡ true) ⊎ (has_anonymous items ≡ false)
      → of_items c Op.of ins no_extra (some items) (record m { stack = q ∷ st })
        ≡ ok (
          some (
              expr
                (all_or (expr_of q).text
                  ++ (codes " of "
                      ++ (if whole then codes "them" else b'(' ∷ (join comma items ++ codes ")"))))
                prec_cmp),
          record m { stack = st },
        )
  of_items_names ins items m q st true all_of_them h = rw all_of_them refl
  of_items_names ins items m q st false some_of_them (inl h) = cc
  of_items_names ins items m q st false some_of_them (inr h) =
      rw some_of_them (rw h (rw (append-nil (b'(' ∷ (join comma items ++ codes ")"))) refl))

  pub recover_of_names :
      (ins : Instr) (is : List ℕ) (m : Machine) (q : Item) (st : List Item)
      → IsListing c is
      → recover_of c Op.of ins (record m { stack = names_onto is (undefined ∷ q ∷ st) })
        ≡ ok (
          some (expr (all_or (expr_of q).text ++ (codes " of " ++ set_text c is)) prec_cmp),
          record m { stack = st },
        )
  unfolding recover_of pop_extra
  recover_of_names ins is m q st (named, short, writable) =
      ap (λ r. continue r (λ items. of_items c Op.of ins no_extra items))
        (pop_set_names is m (q ∷ st) short)
      ∙ of_items_names ins (map (name_of c) is) m q st (covers_rule c (map (name_of c) is)) refl
          writable
