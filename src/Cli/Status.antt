-- ===== src/Cli/Status.antt =====
-- The exit statuses of `main`.
use yaradec.Bytes.{le_value, le_value, Bytes}
use yaradec.Prelude.{
  drop, take, length, not, true, Bool, ◌≢◌, ap, ◌≤◌, some, Option, inr, inl, ◌⊎◌, refl, ◌≡◌, ℕ,
}
use yaradec.Result.{Error, Result, ok, err, arena_error, ArenaError, unsupported_version}
use yaradec.Arena.{parse, arena_magic}
use yaradec.Arena.Errors.{OnlyArena, parse-OnlyArena, map_ok-OnlyArena}
use yaradec.Arena.Parsing.{parse_unsupported}
use yaradec.Decompile.Patterns.{Runtime}
use yaradec.Decompile.Pipeline.{decompile}
use yaradec.Cli.{
  Bytes, Arguments, Printers, json, Format, yara, json, disasm, info, run_format, cmd_info,
  cmd_disasm, status, exit_status, main,
}

-- The statuses of a reader's error.
abbrev pub IsStatus : Option ℕ → Type 0
IsStatus s = (s ≡ some 0) ⊎ ((s ≡ some 2) ⊎ (s ≡ some 3))

status-IsStatus : (e : ArenaError) → IsStatus (some (status e))
status-IsStatus (unsupported_version v release) = inr (inr refl)
status-IsStatus _ = inr (inl refl)

exit_status-IsStatus {ℓ} : {A : Type ℓ} (r : Result A) → OnlyArena r → IsStatus (exit_status r)
exit_status-IsStatus (ok a) h = inl refl
exit_status-IsStatus (err (arena_error e)) h = status-IsStatus e
exit_status-IsStatus (err _) h = absurd h

-- With `--format info`, `main` ends on every file with the status 0, 2 or 3: no exception escapes it.
pub main-IsStatus :
    (rt : Runtime) (out : Printers) (args : Arguments) (input : Bytes)
    → args.format ≡ info
    → IsStatus (main rt out args input)
unfolding main cmd_info
main-IsStatus rt out args input e = rw e (
    exit_status-IsStatus _
      (map_ok-OnlyArena _ _ (map_ok-OnlyArena _ (parse input true) (parse-OnlyArena input true))))

run_format-err :
    (rt : Runtime) (out : Printers) (args : Arguments) (format : Format) (input : Bytes) (e : Error)
    → ((strict : Bool) → parse input strict ≡ err e)
    → run_format rt out args format input ≡ err e
unfolding cmd_info cmd_disasm decompile
run_format-err rt out args info input e h = rw (h true) refl
run_format-err rt out args disasm input e h = rw (h true) refl
run_format-err rt out args json input e h = rw (h (not args.lenient)) refl
run_format-err rt out args yara input e h = rw (h (not args.lenient)) refl

-- On a file of at least six bytes with the magic and a version other than 21, `main` ends with the status 3, whichever of
-- the formats was asked for, lenient or not.
pub main_unsupported :
    (rt : Runtime) (out : Printers) (args : Arguments) (input : Bytes)
    → 6 ≤ length input
    → take 4 input ≡ arena_magic
    → le_value (take 1 (drop 4 input)) ≢ 21
    → main rt out args input ≡ some 3
unfolding main
main_unsupported rt out args input long magic other = ap exit_status (
    run_format-err rt out args args.format input _
      (λ strict. parse_unsupported input strict long magic other))
