-- ===== src/Parser/Records.antt =====
-- Records of a table that stand one after the other, and what their fields share.
use yaradec.Result.{ok}
use native.Mathlib.Nat.{suc-mul}
use mathlib.Core.List.{append_assoc}
use yaradec.Prelude.{
  ◌∷◌, [], some, ◌≢◌, refl, ◌^◌, drop, length, leb, ◌++◌, List, true, ◌∙◌, ap, sym, ◌≡◌, ◌<◌, ◌*◌,
  ◌+◌, suc, ℕ, arith,
}
use yaradec.Arena.{Ref}
use yaradec.Prelude.Text.{Text}
use yaradec.Parser.Metas.{or_default}
use yaradec.Bytes.{Bytes, pack, unpack_from, calcsize}
use yaradec.Bytes.Laws.{Fit, unpack_from_at, length_at, drop_past, length-pack}

-- The fields of a reference fit.
abbrev pub Ref32 : Ref → Type 0
Ref32 ref = (ref.buffer_id < 2 ^ 32) × (ref.offset < 2 ^ 32)

pub or_default_nonempty : (d t : Text) → t ≢ [] → or_default d (some t) ≡ t
or_default_nonempty d [] h = absurd (h refl)
or_default_nonempty d (c ∷ t) h = refl

-- A record of `width` bytes, the `i`-th of a table.
module _ (fmt vals : List ℕ) (buf : Bytes) (i width : ℕ) (more rest : Bytes) (fits : Fit fmt vals)
    (size : calcsize fmt ≡ width) (some_bytes : 0 < width)
    (e : drop (i * width) buf ≡ (pack fmt vals ++ more) ++ rest) where
  pub record_here : drop (i * width) buf ≡ pack fmt vals ++ (more ++ rest)
  record_here = e ∙ append_assoc (pack fmt vals) more rest

  pub record_width : length (pack fmt vals) ≡ width
  record_width = length-pack fmt vals fits ∙ size

  pub record_inside : leb (i * width + width) (length buf) ≡ true
  record_inside =
      ground
        (arith, length_at buf (i * width) (pack fmt vals) (more ++ rest) record_here, record_width)

  pub record_read : unpack_from fmt buf (i * width) ≡ ok vals
  record_read =
      unpack_from_at fmt vals buf (i * width) (more ++ rest) fits (omega arith) record_here

  pub record_next : drop (suc i * width) buf ≡ more ++ rest
  record_next =
      ap (λ n. drop n buf) (suc-mul i width ∙ ap (λ n. i * width + n) (sym record_width))
      ∙ drop_past buf (i * width) (pack fmt vals) (more ++ rest) record_here
