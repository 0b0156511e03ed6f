-- ===== src/Result.antt =====
-- Python's exceptions as values: every function that may raise returns a `Result`.
use yaradec.Prelude.{◌⊎◌, inl, inr, ℕ, ◌≡◌, refl, Bool, true, false, Option}
use yaradec.Prelude.Text.{Text}

-- The raise statements of arena.py and parser.py, with what their messages name.
pub data ArenaError : Type 0 where
  too_small bad_magic truncated_relocations null_dereference : ArenaError
  -- The release that wrote the version, where it is a known one.
  unsupported_version : ℕ → Option Text → ArenaError
  truncated_table : ℕ → ArenaError
  buffer_past_end : ℕ → ArenaError
  no_buffer : ℕ → ArenaError
  read_past_end : ℕ → ArenaError
  unterminated_string unterminated_tags : ArenaError
  summary_too_small metas_unterminated : ArenaError
  namespaces_truncated strings_truncated rules_truncated : ℕ → ArenaError

pub data Error : Type 0 where
  arena_error : ArenaError → Error
  -- `ReDecodeError` of repattern.py
  past_end unknown_re_opcode truncated_instr : ℕ → Error
  -- `CodeError` of code.py
  unknown_opcode : ℕ → Error
  -- Python's own
  struct_error index_error value_error key_error recursion_error : Error
  -- No exception of the program: a loop of the model was given too little fuel.
  out_of_fuel : Error

pub data Result {ℓ} (A : Type ℓ) : Type ℓ where
  err : Error → Result A
  ok : A → Result A

-- `except`: the first result, or the handler's.
abbrev pub catch {ℓ} : {A : Type ℓ} → Result A → (Error → Result A) → Result A
catch (err e) handler = handler e
catch (ok a) handler = ok a

abbrev pub map_ok {κ ℓ} : {A : Type κ} {B : Type ℓ} → (A → B) → Result A → Result B
map_ok f (err e) = err e
map_ok f (ok a) = ok (f a)

-- What follows a call, which an exception skips.
infixl 5 ◌>>=◌
abbrev pub ◌>>=◌ {κ ℓ} : {A : Type κ} {B : Type ℓ} → Result A → (A → Result B) → Result B
err e >>= next = err e
ok a >>= next = next a

infixl 5 ◌>>◌
abbrev pub ◌>>◌ {κ} : {B : Type κ} → Result (Unit {0}) → Result B → Result B
done >> next = done >>= λ _. next

-- `if not test: raise e`
abbrev pub guard : Bool → Error → Result (Unit {0})
guard false e = err e
guard true e = ok tt

pub Result-cases {ℓ} :
    {A : Type ℓ} (r : Result A) → ((a : A) × (r ≡ ok a)) ⊎ ((e : Error) × (r ≡ err e))
Result-cases (err e) = inr (e, refl)
Result-cases (ok a) = inl (a, refl)
