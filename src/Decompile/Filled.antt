-- ===== src/Decompile/Filled.antt =====
-- What the recovery of patterns changes: `rendered` of strings that are no literals, in the table of
-- strings and in the rules alike.
use yaradec.Prelude.{
  ◌∙◌, ◌==◌, leb, ◌++◌, ap, sym, ◌∷◌, [], List, some, none, Option, false, inr, inl, ◌⊎◌, refl, ◌≡◌,
  ℕ, Bool-cases,
}
use yaradec.Prelude.Text.{Text}
use yaradec.Result.{Result, ok, err, map_ok, ◌>>=◌, Result-cases}
use yaradec.Bytes.{Bytes}
use mathlib.Core.Path.{subst}
use yaradec.Arena.{Arena}
use yaradec.Arena.Access.{buffer}
use yaradec.Constants.{has}
use yaradec.Constants.Section
use yaradec.Constants.StringFlags
use yaradec.Code.Bodies.{dict_get}
use yaradec.RePattern.Programs.{segment_programs}
use yaradec.Acmatch.{CodeMap, collect_string_code}
use yaradec.Parser.Structs.{YrString}
use yaradec.Parser.Rules.{strings_of_rule, insert_string, sort_strings, rule_strings}
use yaradec.Emit.Strings.{is_base64}
use yaradec.Emit.Warnings.{Warning}
use yaradec.Decompile.Patterns.{
  Runtime, Rendering, choose, choose_base64, recover_plaintext, permutations, from_segments,
  from_offsets, render_programs, segments_of, sort_offsets, forward_of, recover_pattern,
  recover_each, with_re_code, recover_patterns,
}

-- The second string is the first with its `rendered` filled in, if at all, and the first itself if it is a literal.
abbrev pub Filled : YrString → YrString → Type 0
Filled s t =
    (t ≡ record s { rendered = t.rendered }) × ((has s.flags StringFlags.literal ≡ false) ⊎ (t ≡ s))

abbrev pub AreFilled : List YrString → List YrString → Type 0
AreFilled [] [] = Unit
AreFilled (s ∷ ss) (t ∷ ts) = Filled s t × AreFilled ss ts
AreFilled _ _ = ⊥

-- A result whose string is the given one with another `rendered`.
abbrev Renders : YrString → Result (YrString × List Warning) → Type 0
Renders s (err e) = Unit
Renders s (ok (t, warnings)) = t ≡ record s { rendered = t.rendered }

choose-Renders :
    (rt : Runtime) (re_code : Bytes) (segs : List (ℕ × ℕ)) (s : YrString) (r : Rendering)
    (texts : List Text)
    → Renders s (ok (choose rt re_code segs s r texts))
choose-Renders rt re_code segs s r [] = refl
choose-Renders rt re_code segs s r (text ∷ more) = elim (Bool-cases (is_base64 s.flags)) [
  | inr e ↦ rw e refl
  | inl e ↦ rw e (plaintext (recover_plaintext rt (permutations re_code segs)))
]
  where
    plaintext : (p : Option Bytes) → Renders s (ok (choose_base64 s text more r p))
    plaintext none = refl
    plaintext (some bs) = refl

from_segments-Renders :
    (rt : Runtime) (re_code : Bytes) (s : YrString) (segs : List (ℕ × ℕ))
    → Renders s (from_segments rt re_code s segs)
from_segments-Renders rt re_code s [] = refl
from_segments-Renders rt re_code s (seg ∷ segs) =
    rendered (render_programs rt.regex_limit re_code s (seg ∷ segs))
  where
    rendered :
        (r : Result Rendering)
        → Renders s (map_ok (λ (q : Rendering). choose rt re_code (seg ∷ segs) s q q.texts) r)
    rendered (err e) = tt
    rendered (ok r) = choose-Renders rt re_code (seg ∷ segs) s r r.texts

from_offsets-Renders :
    (rt : Runtime) (re_code : Bytes) (segments : List (ℕ × ℕ)) (s : YrString) (offs : List ℕ)
    → Renders s (from_offsets rt re_code segments s offs)
from_offsets-Renders rt re_code segments s [] = refl
from_offsets-Renders rt re_code segments s (off ∷ offs) =
    from_segments-Renders rt re_code s (segments_of segments (sort_offsets (off ∷ offs)) [])

Renders-inv :
    (s t : YrString) (w : List Warning) (r : Result (YrString × List Warning))
    → Renders s r
    → r ≡ ok (t, w)
    → t ≡ record s { rendered = t.rendered }
Renders-inv s t w r h e = subst (Renders s) e h

same_Filled : (s t : YrString) → t ≡ s → Filled s t
same_Filled s t e = (subst (λ u. u ≡ record s { rendered = u.rendered }) (sym e) refl, inr e)

recover_pattern-Filled :
    (rt : Runtime) (re_code : Bytes) (segments : List (ℕ × ℕ)) (code_map : CodeMap) (s t : YrString)
    (w : List Warning)
    → recover_pattern rt re_code segments code_map s ≡ ok (t, w)
    → Filled s t
unfolding recover_pattern
recover_pattern-Filled rt re_code segments code_map s t w h =
    elim (Bool-cases (has s.flags StringFlags.literal)) [
      | inl literal ↦
          let done : ◌≡◌ {A = Result (YrString × List Warning)} (ok (s, [])) (ok (t, w)) =
            rw literal at h in
          same_Filled s t cc
      | inr other ↦ (
        Renders-inv s t w
            (from_offsets rt re_code segments s (forward_of (dict_get code_map s.index)))
            (from_offsets-Renders rt re_code segments s (forward_of (dict_get code_map s.index)))
            (rw other at h),
        inl other,
      )
    ]

recover_each-AreFilled :
    (f : YrString → Result (YrString × List Warning))
    → ((s t : YrString) (w : List Warning) → f s ≡ ok (t, w) → Filled s t)
    → (ss ts : List YrString) (w : List Warning) → recover_each f ss ≡ ok (ts, w)
    → AreFilled ss ts
unfolding recover_each
recover_each-AreFilled f one [] [] w e = tt
recover_each-AreFilled f one [] (t ∷ ts) w e = cc
recover_each-AreFilled f one (s ∷ ss) ts w e =
    both (f s) (recover_each f ss) (one s) (recover_each-AreFilled f one ss) e
  where
    both :
        (r : Result (YrString × List Warning)) (m : Result (List YrString × List Warning))
        → ((t : YrString) (u : List Warning) → r ≡ ok (t, u) → Filled s t)
        → ((us : List YrString) (u : List Warning) → m ≡ ok (us, u) → AreFilled ss us)
        → ◌≡◌ {A = Result (List YrString × List Warning)}
            (r >>= λ (x : YrString × List Warning).
              map_ok (λ (more : List YrString × List Warning). (x.0 ∷ more.0, x.1 ++ more.1)) m)
            (ok (ts, w))
        → AreFilled (s ∷ ss) ts
    both (err x) m h k e = cc
    both (ok (t, u)) (err x) h k e = cc
    both (ok (t, u)) (ok (us, v)) h k e =
        let same : ◌≡◌ {A = List YrString} (t ∷ us) ts = cc in
        subst (AreFilled (s ∷ ss)) same (h t u refl, k us v refl)

AreFilled-refl : (ss : List YrString) → AreFilled ss ss
AreFilled-refl [] = tt
AreFilled-refl (s ∷ ss) = (same_Filled s s refl, AreFilled-refl ss)

with_re_code-AreFilled :
    (rt : Runtime) (a : Arena) (ss ts : List YrString) (re_code : Bytes) (w : List Warning)
    → with_re_code rt a ss re_code ≡ ok (ts, w)
    → AreFilled ss ts
with_re_code-AreFilled rt a ss ts [] w e =
    let same : ss ≡ ts = cc in subst (AreFilled ss) same (AreFilled-refl ss)
with_re_code-AreFilled rt a ss ts (b ∷ bs) w e = elim (Result-cases (collect_string_code a)) [
  | inr (x, failed) ↦
      let no : ◌≡◌ {A = Result (List YrString × List Warning)} (err x) (ok (ts, w)) =
        rw failed at e in
      cc
  | inl (code_map, found) ↦
      recover_each-AreFilled (recover_pattern rt (b ∷ bs) (segment_programs (b ∷ bs)) code_map)
        (recover_pattern-Filled rt (b ∷ bs) (segment_programs (b ∷ bs)) code_map) ss ts w
        (rw found at e)
]

-- The strings of a rule are chosen and sorted by fields that stay.
module _ (s t : YrString) (h : Filled s t) where
  same_rule_index : t.rule_index ≡ s.rule_index
  same_rule_index = ap (λ (u : YrString). u.rule_index) h.0

  same_index : t.index ≡ s.index
  same_index = ap (λ (u : YrString). u.index) h.0

strings_of_rule-AreFilled :
    (ss ts : List YrString) (i : ℕ)
    → AreFilled ss ts
    → AreFilled (strings_of_rule ss i) (strings_of_rule ts i)
unfolding strings_of_rule
strings_of_rule-AreFilled [] [] i h = tt
strings_of_rule-AreFilled [] (t ∷ ts) i h = elim h [ ]
strings_of_rule-AreFilled (s ∷ ss) [] i h = elim h [ ]
strings_of_rule-AreFilled (s ∷ ss) (t ∷ ts) i (h, hs) =
    let same : (t.rule_index == i) ≡ (s.rule_index == i) =
      ap (λ n. n == i) (same_rule_index s t h) in
    elim (Bool-cases (s.rule_index == i)) [
      | inl e ↦ rw (e, same ∙ e) (h, strings_of_rule-AreFilled ss ts i hs)
      | inr e ↦ rw (e, same ∙ e) (strings_of_rule-AreFilled ss ts i hs)
    ]

insert_string-AreFilled :
    (s t : YrString) (ss ts : List YrString)
    → Filled s t
    → AreFilled ss ts
    → AreFilled (insert_string s ss) (insert_string t ts)
unfolding insert_string
insert_string-AreFilled s t [] [] h hs = (h, tt)
insert_string-AreFilled s t [] (v ∷ ts) h hs = elim hs [ ]
insert_string-AreFilled s t (u ∷ ss) [] h hs = elim hs [ ]
insert_string-AreFilled s t (u ∷ ss) (v ∷ ts) h (k, hs) =
    let same : leb t.index v.index ≡ leb s.index u.index =
      ap (λ n. leb n v.index) (same_index s t h) ∙ ap (leb s.index) (same_index u v k) in
    elim (Bool-cases (leb s.index u.index)) [
      | inl e ↦ rw (e, same ∙ e) (h, (k, hs))
      | inr e ↦ rw (e, same ∙ e) (k, insert_string-AreFilled s t ss ts h hs)
    ]

sort_strings-AreFilled :
    (ss ts : List YrString) → AreFilled ss ts → AreFilled (sort_strings ss) (sort_strings ts)
unfolding sort_strings
sort_strings-AreFilled [] [] h = tt
sort_strings-AreFilled [] (t ∷ ts) h = elim h [ ]
sort_strings-AreFilled (s ∷ ss) [] h = elim h [ ]
sort_strings-AreFilled (s ∷ ss) (t ∷ ts) (h, hs) =
    insert_string-AreFilled s t (sort_strings ss) (sort_strings ts) h
      (sort_strings-AreFilled ss ts hs)

-- A recovery of patterns that succeeds keeps the strings, their order and every field but
-- `rendered`, and literals as they are; and so it is with the strings of each rule.
pub recover_patterns-AreFilled :
    (rt : Runtime) (a : Arena) (ss ts : List YrString) (w : List Warning) (i : ℕ)
    → recover_patterns rt a ss ≡ ok (ts, w)
    → AreFilled ss ts × AreFilled (rule_strings ss i) (rule_strings ts i)
unfolding recover_patterns rule_strings
recover_patterns-AreFilled rt a ss ts w i e =
    elim (Result-cases (buffer a Section.re_code_section)) [
      | inr (x, failed) ↦
          let no : ◌≡◌ {A = Result (List YrString × List Warning)} (err x) (ok (ts, w)) =
            rw failed at e in
          cc
      | inl (re_code, found) ↦
          let h : AreFilled ss ts = with_re_code-AreFilled rt a ss ts re_code w (rw found at e) in
          (
            h,
            sort_strings-AreFilled (strings_of_rule ss i) (strings_of_rule ts i)
                (strings_of_rule-AreFilled ss ts i h),
          )
    ]
