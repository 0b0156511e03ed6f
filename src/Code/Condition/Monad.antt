-- ===== src/Code/Condition/Monad.antt =====
-- The state of one recovery, and methods over it. A method may raise, and `run` may be left by
-- `return None`; both keep what was noted before.
use yaradec.Prelude.{◌++◌, ◌∷◌, [], List, some, none, Option, false, Bool, suc, zero, ℕ}
use yaradec.Prelude.Text.{Text, codes}
use yaradec.Result.{Result, ok, err, Error}
use yaradec.Constants.Op.{Op}
use yaradec.Code.Expr.{Expr, atom}

-- What `self.notes` says, by the message's form.
pub data Note : Type 0 where
  -- a regexp that could not be decompiled, at a buffer and an offset
  undecompiled_regexp : ℕ → ℕ → Note
  partial_regexp : Note
  unbound_slot : ℕ → ℕ → Note
  unhandled : Op → ℕ → Note
  value_count : ℕ → Note
  bad_string_set bad_loop_body bad_iterable partial_loop_set : Note
  cardinality_mismatch : Text → ℕ → Note
  too_deep : Note
  undelimited_set : ℕ → Note
  anonymous_set : Note
  unreadable_signature : ℕ → Note

-- A stack entry: an expression or the `UNDEFINED` sentinel.
pub data Item : Type 0 where
  value : Expr → Item
  undefined : Item

pub record Machine : Type 0 where
  -- The top stands first.
  pub stack : List Item
  pub complete : Bool
  pub notes : List Note

-- `none` is a `return None` of `run`.
abbrev pub Exec : Type 0 → Type 0
Exec A = Machine → Result (Option A × Machine)

abbrev pub continue :
    {A B : Type 0} → Result (Option A × Machine) → (A → Exec B) → Result (Option B × Machine)
continue (err e) f = err e
continue (ok (none, m)) f = ok (none, m)
continue (ok (some a, m)) f = f a m

infixl 5 ◌>>=◌ ◌>>◌
abbrev pub ◌>>=◌ : {A B : Type 0} → Exec A → (A → Exec B) → Exec B
◌>>=◌ x f m = continue (x m) f

abbrev pub ◌>>◌ : {B : Type 0} → Exec (Unit {0}) → Exec B → Exec B
x >> y = x >>= λ _. y

abbrev pub pure : {A : Type 0} → A → Exec A
pure a m = ok (some a, m)

abbrev pub raise : {A : Type 0} → Error → Exec A
raise e m = err e

-- `return None`
abbrev pub give_up : {A : Type 0} → Exec A
give_up m = ok (none, m)

abbrev pub note : Note → Exec Unit
note n m = ok (some tt, record m { notes = m.notes ++ (n ∷ []) })

-- `self.complete = False`
abbrev pub incomplete : Exec Unit
incomplete m = ok (some tt, record m { complete = false })

abbrev pub push : Item → Exec Unit
push i m = ok (some tt, record m { stack = i ∷ m.stack })

abbrev pub underflow : Expr
underflow = atom (codes "<underflow>")

abbrev pub expr_of : Item → Expr
expr_of (value e) = e
expr_of undefined = atom (codes "undefined")

abbrev pub pop_from : List Item → Exec Expr
pop_from [] m = ok (some underflow, record m { complete = false })
pop_from (i ∷ rest) m = ok (some (expr_of i), record m { stack = rest })

abbrev pub pop : Exec Expr
pop m = pop_from m.stack m

-- `pop()` n times, in the order of the pops.
unfoldable pub pop_many : ℕ → Exec (List Expr)
pop_many zero = pure []
pop_many (suc n) = do e ← pop; es ← pop_many n; pure (e ∷ es)
