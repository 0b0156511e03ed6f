-- ===== src/Arena/Reads.antt =====
-- What the accessors return, by where the bytes stand in their buffer.
use mathlib.Core.List.{append_assoc, append-nil}
use yaradec.Result.{ok}
use yaradec.Bytes.Laws.{
  get_elem?_at, drop_past, find_nul-inv, fields-pack, length_at, length-pack, slice_at, find_nul_at,
  NoNul, Fit,
}
use yaradec.Prelude.{
  ltb, ◌∙◌, refl, ◌^◌, take-append-drop, length-drop, length-take, length-append, All, take, ◌↔◌,
  sym, ◌<◌, ◌-◌, suc, zero, ◌+◌, drop, length, arith, ◌++◌, ◌∷◌, [], List, some, false, ap, ◌≡◌,
  ◌≤◌, ℕ,
}
use yaradec.Arena.{null_id, slice, ok, Bytes, Arena, Ref, is_null}
use yaradec.Arena.Access.{
  buffer, read, unpack, ref_at, cstring_bytes, cstring_list_bytes, tag_loop, sized_string,
}
use yaradec.Bytes.{find_nul, slice, pack, Bytes}

-- `bs` stands at `ref`, and more follows it.
pub record StandsAt (a : Arena) (ref : Ref) (bs rest : Bytes) : Type 0 where
  pub not_null : is_null ref ≡ false
  pub buf : Bytes
  pub there : buffer a ref.buffer_id ≡ ok buf
  pub at : drop ref.offset buf ≡ bs ++ rest
  pub inside : ref.offset ≤ length buf

module _ (a : Arena) (ref : Ref) where
  pub read-StandsAt : (bs rest : Bytes) → StandsAt a ref bs rest → read a ref (length bs) ≡ ok bs
  unfolding read
  read-StandsAt bs rest s =
      rw (s.not_null, s.there, slice_at s.buf ref.offset bs rest s.at)
        (ground (arith, length_at s.buf ref.offset bs rest s.at, s.inside))

  read_success :
      (size : ℕ) (bs : Bytes)
      → read a ref size ≡ ok bs
      → (buf : Bytes) × (is_null ref ≡ false)
        × (buffer a ref.buffer_id ≡ ok buf)
        × (ref.offset + size ≤ length buf)
        × (slice buf ref.offset (ref.offset + size) ≡ bs)
  unfolding read
  read_success size bs h = ground arith

  pub unpack-StandsAt :
      (ws vs : List ℕ) (rest : Bytes)
      → Fit ws vs
      → StandsAt a ref (pack ws vs) rest
      → unpack a ref ws ≡ ok vs
  unfolding unpack
  unpack-StandsAt ws vs rest fit s =
      rw (← length-pack ws vs fit, read-StandsAt (pack ws vs) rest s)
        (ap ok (rw (append-nil) at (fields-pack ws vs [] fit)))

  -- A NUL-terminated string without a NUL in it is read back whole.
  pub cstring_bytes-StandsAt :
      (s rest : Bytes) → NoNul s → StandsAt a ref s (0 ∷ rest) → cstring_bytes a ref ≡ ok (some s)
  unfolding cstring_bytes
  cstring_bytes-StandsAt s rest none_in st =
      rw (st.not_null, st.there, find_nul_at st.buf ref.offset s rest none_in st.at)
        (ap (λ x. ok (some x)) (slice_at st.buf ref.offset s (0 ∷ rest) st.at))

  found_string :
      (s : Bytes)
      → cstring_bytes a ref ≡ ok (some s)
      → (buf : Bytes) × (stop : ℕ) × (is_null ref ≡ false)
        × (buffer a ref.buffer_id ≡ ok buf)
        × (find_nul buf ref.offset ≡ some stop)
        × (slice buf ref.offset stop ≡ s)
  unfolding cstring_bytes
  found_string s h = ground arith

  -- A read that succeeds returns as many bytes as were asked for, and they stand at the reference.
  pub read_sound :
      (size : ℕ) (bs : Bytes)
      → read a ref size ≡ ok bs
      → (rest : Bytes) × (length bs ≡ size) × StandsAt a ref bs rest
  read_sound size bs h =
      let (buf, set, there, fits, cut) = read_success size bs h in
      let width : ref.offset + size - ref.offset ≡ size = omega arith in
      let front : take size (drop ref.offset buf) ≡ bs = rw width at cut in
      (
        drop size (drop ref.offset buf),
        omega (
          arith,
          ap length front,
          length-take size (drop ref.offset buf),
          length-drop ref.offset buf,
        ),
        record {
          not_null = set;
          buf = buf;
          there = there;
          at = rw (← front) (sym (take-append-drop size (drop ref.offset buf)));
          inside = omega arith;
        },
      )

  -- A string that is found has no NUL, and stands before one.
  pub cstring_bytes_sound :
      (s : Bytes)
      → cstring_bytes a ref ≡ ok (some s)
      → (rest : Bytes) × NoNul s × StandsAt a ref s (0 ∷ rest)
  cstring_bytes_sound s h =
      let (buf, stop, set, there, found, cut) = found_string s h in
      let (rest, none_in, split) = find_nul-inv buf ref.offset stop found in
      (
        rest,
        rw cut at none_in,
        record {
          not_null = set;
          buf = buf;
          there = there;
          at = rw cut at split;
          inside = omega (
            arith,
            ap length split,
            length-drop ref.offset buf,
            length-append (slice buf ref.offset stop) (0 ∷ rest),
          );
        },
      )

  -- A string is read exactly where it stands, NUL-terminated and with no NUL inside.
  pub cstring_bytes_iff :
      (s : Bytes)
      → (cstring_bytes a ref ≡ ok (some s))
        ↔ ((rest : Bytes) × NoNul s × StandsAt a ref s (0 ∷ rest))
  cstring_bytes_iff s = (cstring_bytes_sound s, λ t. cstring_bytes-StandsAt s t.0 t.1 t.2)

-- The bytes of a tag list: each tag and its NUL, then the empty string.
abbrev pub tag_bytes : List Bytes → Bytes
tag_bytes [] = []
tag_bytes (t ∷ ts) = t ++ (0 ∷ tag_bytes ts)

abbrev pub IsTag : Bytes → Type 0
IsTag t = NoNul t × (0 < length t)

tag_loop-tags :
    (ts : List Bytes) (fuel p : ℕ) (buf rest : Bytes)
    → All IsTag ts
    → length ts < fuel
    → drop p buf ≡ tag_bytes ts ++ (0 ∷ rest)
    → tag_loop fuel buf p ≡ ok ts
unfolding tag_loop
tag_loop-tags ts zero p buf rest tags enough h = absurd (omega arith)
tag_loop-tags [] (suc fuel) p buf rest tags enough h = rw (get_elem?_at buf p 0 rest h) refl
tag_loop-tags ([] ∷ ts) (suc fuel) p buf rest ((no_nul, some_bytes), tags) enough h =
    absurd (omega arith)
tag_loop-tags ((zero ∷ t) ∷ ts) (suc fuel) p buf rest ((no_nul, some_bytes), tags) enough h =
    absurd (omega arith)
tag_loop-tags ((suc c ∷ t) ∷ ts) (suc fuel) p buf rest ((no_nul, some_bytes), tags) enough h =
    let tag : Bytes = suc c ∷ t in
    let here : drop p buf ≡ tag ++ (0 ∷ (tag_bytes ts ++ (0 ∷ rest))) =
      h ∙ append_assoc tag (0 ∷ tag_bytes ts) (0 ∷ rest) in
    let past : drop (p + length tag + 1) buf ≡ tag_bytes ts ++ (0 ∷ rest) =
      drop_past buf (p + length tag) (0 ∷ []) _ (drop_past buf p tag _ here) in
    unfold tag_loop in
    rw (get_elem?_at buf p (suc c) _ here, find_nul_at buf p tag _ no_nul here)
      (rw
        (
          slice_at buf p tag _ here,
          tag_loop-tags ts fuel (p + length tag + 1) buf rest tags (omega arith) past,
        )
        refl)

length-tag_bytes : (ts : List Bytes) → length ts ≤ length (tag_bytes ts)
length-tag_bytes [] = omega arith
length-tag_bytes (t ∷ ts) = omega (arith, length-append t (0 ∷ tag_bytes ts), length-tag_bytes ts)

module _ (a : Arena) (ref : Ref) where
  -- A run of non-empty tags with no NUL in them, each ended by a NUL, behind which an empty string
  -- stands, is read back tag by tag.
  pub cstring_list_bytes-StandsAt :
      (ts : List Bytes) (rest : Bytes)
      → All IsTag ts
      → StandsAt a ref (tag_bytes ts) (0 ∷ rest)
      → cstring_list_bytes a ref ≡ ok ts
  unfolding cstring_list_bytes
  cstring_list_bytes-StandsAt ts rest tags s =
      rw (s.not_null, s.there)
        (tag_loop-tags ts (suc (length s.buf)) ref.offset s.buf rest tags
          (omega
            (arith, length-tag_bytes ts, length_at s.buf ref.offset (tag_bytes ts) (0 ∷ rest) s.at))
          s.at)

  -- A reference whose fields fit 32 bits and that stands packed at `ref` is read back.
  pub ref_at-StandsAt :
      (target : Ref) (rest : Bytes)
      → target.buffer_id < 2 ^ 32
      → target.offset < 2 ^ 32
      → StandsAt a ref (pack (4 ∷ 4 ∷ []) (target.buffer_id ∷ target.offset ∷ [])) rest
      → ref_at a ref ≡ ok target
  unfolding ref_at
  ref_at-StandsAt target rest hb ho s =
      rw
        (unpack-StandsAt a ref (4 ∷ 4 ∷ []) (target.buffer_id ∷ target.offset ∷ []) rest
          (omega arith) s)
        refl

  -- A SIZED_STRING of at most 16 MiB in a real buffer, with flags that fit 32 bits, is read back, NUL
  -- bytes included.
  pub sized_string-StandsAt :
      (content rest : Bytes) (flags : ℕ)
      → ref.buffer_id < null_id
      → length content ≤ 2 ^ 24
      → flags < 2 ^ 32
      → StandsAt a ref (pack (4 ∷ 4 ∷ []) (length content ∷ flags ∷ [])) (content ++ rest)
      → sized_string a ref ≡ some (content, flags)
  unfolding sized_string
  sized_string-StandsAt content rest flags real small hf s =
      let header : Bytes = pack (4 ∷ 4 ∷ []) (length content ∷ flags ∷ []) in
      let body : StandsAt a (record ref { offset = ref.offset + 8 }) content rest = record {
        not_null = ground arith;
        buf = s.buf;
        there = s.there;
        at = drop_past s.buf ref.offset header _ s.at;
        inside = omega (arith, length_at s.buf ref.offset header _ s.at, s.inside);
      } in
      let no_more : ltb (2 ^ 24) (length content) ≡ false = ground arith in
      rw
        (
          s.not_null,
          unpack-StandsAt a ref (4 ∷ 4 ∷ []) (length content ∷ flags ∷ []) _ (omega arith) s,
        )
        (rw (no_more, read-StandsAt a (record ref { offset = ref.offset + 8 }) content rest body)
          refl)
