-- ===== src/Acmatch/Matches.antt =====
-- `collect_string_code` against the match entries of the pool.
use yaradec.Bytes.{fields, fields, Bytes}
use yaradec.Prelude.{
  if◌then◌else◌, not, ◌%◌, any, ◌/◌, drop-drop, drop, length, ◌==◌, leb, ◌++◌, ◌∷◌, [], List, some,
  none, Option, ◌||◌, ◌&&◌, false, true, Bool, inr, inl, ◌∙◌, ap, sym, refl, ◌≡◌, ◌<◌, ◌≤◌, ◌*◌,
  ◌+◌, suc, zero, ℕ, arith, Bool-cases, ==_iff,
}
use yaradec.Result.{ok}
use yaradec.Bytes.{field_at}
use yaradec.Arena.{is_null, Ref, Arena}
use yaradec.Arena.Access.{buffer}
use yaradec.Constants.Section
use yaradec.Code.Bodies.{dict_get}
use yaradec.Parser.Metas.{ref_of}
use yaradec.Acmatch.{
  Bytes, StringCode, CodeMap, ac_match_format, has_offset, add_offset, code_offset, add_code,
  update_entry, string_index, match_at, collect_match, collect_loop, collect_string_code,
}

-- The fields of the first `n` entries of 40 bytes.
abbrev pub matches : ℕ → Bytes → List (List ℕ)
matches zero pool = []
matches (suc n) pool = fields ac_match_format pool ∷ matches n (drop 40 pool)

abbrev collect_all : List (List ℕ) → CodeMap → CodeMap
collect_all [] out = out
collect_all (vals ∷ entries) out = collect_all entries (collect_match vals out)

-- The loop takes the entries of 40 bytes one by one, until fewer bytes are left.
collect_loop-matches :
    (n fuel : ℕ) (pool : Bytes) (off : ℕ) (out : CodeMap)
    → n < fuel
    → off + 40 * n ≤ length pool
    → length pool < off + 40 * n + 40
    → collect_loop fuel pool off out ≡ ok (collect_all (matches n (drop off pool)) out)
unfolding collect_loop
collect_loop-matches zero (suc fuel) pool off out enough inside last =
    let past : leb (off + 40) (length pool) ≡ false = ground arith in rw past refl
collect_loop-matches (suc n) (suc fuel) pool off out enough inside last =
    let here : leb (off + 40) (length pool) ≡ true = ground arith in
    rw here (
      collect_loop-matches n fuel pool (off + 40)
        (collect_match (fields ac_match_format (drop off pool)) out) (omega arith) (omega arith)
        (omega arith)
      ∙ ap
          (λ bs. ok (
            collect_all (matches n bs)
              (collect_match (fields ac_match_format (drop off pool)) out)))
          (sym (drop-drop off 40 pool)))
collect_loop-matches n zero pool off out enough inside last = absurd (omega arith)

abbrev names : ℕ → Option ℕ → Bool
names x none = false
names x (some y) = y == x

-- An entry links a string to a program: its first two words refer to record `idx` of the table of
-- strings, which has records of 56 bytes and stands in buffer 3, and its next two to the offset `x`
-- in the regexp code, which stands in buffer 7.
abbrev pub links : ℕ → ℕ → List ℕ → Bool
links idx x vals =
    field_at vals 0 == 3
    && field_at vals 1 == 56 * idx
    && (field_at vals 2 == 7 && field_at vals 3 == x)

abbrev forward_offsets : Option StringCode → List ℕ
forward_offsets none = []
forward_offsets (some entry) = entry.forward

-- The offset is one of the string's forward ones.
abbrev pub linked : CodeMap → ℕ → ℕ → Bool
linked out idx x = has_offset x (forward_offsets (dict_get out idx))

any-append :
    (x : ℕ) (xs ys : List ℕ) → has_offset x (xs ++ ys) ≡ (has_offset x xs || has_offset x ys)
any-append x [] ys = refl
any-append x (y ∷ xs) ys = elim (Bool-cases (y == x)) [
  | inl e ↦ rw e refl
  | inr e ↦ rw e (any-append x xs ys)
]

or_false : (b : Bool) → b ≡ (b || false)
or_false true = refl
or_false false = refl

or_true : (b : Bool) → (b || true) ≡ true
or_true true = refl
or_true false = refl

or_assoc : (a b c : Bool) → (a || b || c) ≡ (a || (b || c))
or_assoc true b c = refl
or_assoc false b c = refl

has_offset-add_offset :
    (x y : ℕ) (xs : List ℕ) → has_offset x (add_offset y xs) ≡ (has_offset x xs || y == x)
unfolding add_offset
has_offset-add_offset x y xs = elim (Bool-cases (has_offset y xs)) [
  | inr new ↦
      rw new (any-append x xs (y ∷ []) ∙ ap (λ b. has_offset x xs || b) (sym (or_false (y == x))))
  | inl old ↦ rw old (elim (Bool-cases (y == x)) [
    | inr other ↦ rw other (or_false (has_offset x xs))
    | inl same ↦
        let found : has_offset x xs ≡ true =
          ap (λ z. has_offset z xs) (sym ((==_iff y x).0 same)) ∙ old in
        rw (same, found) refl
  ])
]

has_offset-add_code :
    (x : ℕ) (f : Option ℕ) (xs : List ℕ)
    → has_offset x (add_code f xs) ≡ (has_offset x xs || names x f)
has_offset-add_code x none xs = or_false (has_offset x xs)
has_offset-add_code x (some y) xs = has_offset-add_offset x y xs

linked-update_entry :
    (out : CodeMap) (i : ℕ) (f b : Option ℕ) (idx x : ℕ)
    → linked (update_entry out i f b) idx x ≡ (linked out idx x || (i == idx && names x f))
unfolding update_entry dict_get
linked-update_entry [] i f b idx x = elim (Bool-cases (i == idx)) [
  | inl e ↦ rw e (has_offset-add_code x f [])
  | inr e ↦ rw e refl
]
linked-update_entry ((j, entry) ∷ out) i f b idx x = elim (Bool-cases (j == i)) [
  | inl e ↦
      let same : i ≡ j = sym ((==_iff j i).0 e) in
      rw e (
        rw same (elim (Bool-cases (j == idx)) [
          | inl here ↦ rw here (has_offset-add_code x f entry.forward)
          | inr there ↦ rw there (or_false (linked out idx x))
        ]))
  | inr e ↦ rw e (elim (Bool-cases (j == idx)) [
    | inl here ↦
        let other : (i == idx) ≡ false = ground arith in
        rw (here, other) (or_false (has_offset x entry.forward))
    | inr there ↦ rw there (linked-update_entry out i f b idx x)
  ])
]

-- What the tests of the source say of the two references.
abbrev reference : ℕ → ℕ → Ref
reference buffer_id offset = record { buffer_id = buffer_id; offset = offset }

real_buffer :
    (id n offset : ℕ) → (id == n) ≡ true → n < 0xFFFFFFFF → is_null (reference id offset) ≡ false
real_buffer id n offset e h = ground arith

whole_records :
    (n idx : ℕ) → names idx (if not (n % 56 == 0) then none else some (n / 56)) ≡ (n == 56 * idx)
whole_records n idx = elim (Bool-cases (n % 56 == 0)) [
  | inr other ↦ let differs : (n == 56 * idx) ≡ false = ground arith in rw (other, differs) refl
  | inl whole ↦ rw whole (elim (Bool-cases (n / 56 == idx)) [
    | inl e ↦ let same : (n == 56 * idx) ≡ true = ground arith in rw (e, same) refl
    | inr e ↦ let differs : (n == 56 * idx) ≡ false = ground arith in rw (e, differs) refl
  ])
]

names-string_index :
    (idx id offset : ℕ)
    → names idx (string_index (reference id offset)) ≡ (id == 3 && offset == 56 * idx)
names-string_index idx id offset = elim (Bool-cases (id == 3)) [
  | inl here ↦
      let real : is_null (reference id offset) ≡ false =
        real_buffer id 3 offset here (omega arith) in
      rw (real, here) (whole_records offset idx)
  | inr other ↦ elim (Bool-cases (is_null (reference id offset))) [
    | inl null ↦ rw (null, other) refl
    | inr real ↦ rw (real, other) refl
  ]
]

names-code_offset :
    (x id offset : ℕ) → names x (code_offset (reference id offset)) ≡ (id == 7 && offset == x)
names-code_offset x id offset = elim (Bool-cases (id == 7)) [
  | inl here ↦
      let real : is_null (reference id offset) ≡ false =
        real_buffer id 7 offset here (omega arith) in
      rw (real, here) refl
  | inr other ↦ elim (Bool-cases (is_null (reference id offset))) [
    | inl null ↦ rw (null, other) refl
    | inr real ↦ rw (real, other) refl
  ]
]

linked-collect_match :
    (vals : List ℕ) (out : CodeMap) (idx x : ℕ)
    → linked (collect_match vals out) idx x ≡ (linked out idx x || links idx x vals)
unfolding collect_match
linked-collect_match vals out idx x =
    at (string_index (ref_of vals 0))
    ∙ ap (λ b. linked out idx x || (b && names x (code_offset (ref_of vals 2))))
        (names-string_index idx (field_at vals 0) (field_at vals 1))
    ∙ ap (λ b. linked out idx x || (field_at vals 0 == 3 && field_at vals 1 == 56 * idx && b))
        (names-code_offset x (field_at vals 2) (field_at vals 3))
  where
    at :
        (s : Option ℕ)
        → linked (match_at s (code_offset (ref_of vals 2)) (code_offset (ref_of vals 4)) out) idx x
          ≡ (linked out idx x || (names idx s && names x (code_offset (ref_of vals 2))))
    at none = or_false (linked out idx x)
    at (some i) =
        linked-update_entry out i (code_offset (ref_of vals 2)) (code_offset (ref_of vals 4)) idx x

linked-collect_all :
    (entries : List (List ℕ)) (out : CodeMap) (idx x : ℕ)
    → linked (collect_all entries out) idx x ≡ (linked out idx x || any (links idx x) entries)
linked-collect_all [] out idx x = or_false (linked out idx x)
linked-collect_all (vals ∷ entries) out idx x =
    linked-collect_all entries (collect_match vals out) idx x
    ∙ ap (λ b. b || any (links idx x) entries) (linked-collect_match vals out idx x)
    ∙ or_assoc (linked out idx x) (links idx x vals) (any (links idx x) entries)

-- On every pool of matches the collection ends with a map, in which an offset is a string's forward
-- one exactly if some entry of 40 bytes refers to the string's record in the table of strings, which
-- is buffer 3, and to the offset in the regexp code, which is buffer 7.
pub linked-collect_string_code :
    (a : Arena) (pool : Bytes) (idx x : ℕ)
    → buffer a Section.ac_state_matches_pool ≡ ok pool
    → (out : CodeMap) × (collect_string_code a ≡ ok out)
      × (linked out idx x ≡ any (links idx x) (matches (length pool / 40) pool))
unfolding collect_string_code dict_get
linked-collect_string_code a pool idx x read =
    let n : ℕ = length pool / 40 in
    let out : CodeMap = collect_all (matches n pool) [] in
    (
      out,
      rw read (
          collect_loop-matches n (suc (length pool)) pool 0 [] (omega arith) (omega arith)
            (omega arith)),
      linked-collect_all (matches n pool) [] idx x,
    )
