-- ===== src/Bytes.antt =====
-- `bytes`, and the part of the `struct` module that the readers use: little-endian fields with no
-- padding. A byte is a number; what needs it below 256 says so.
pub mod Laws
pub mod Utf8
use yaradec.Prelude.{
  ℕ, zero, suc, ◌+◌, ◌-◌, ◌*◌, ◌/◌, ◌%◌, ◌<◌, Bool, true, false, Option, none, some, List, [], ◌∷◌,
  ◌++◌, leb, ◌==◌, if◌then◌else◌, length, take, drop, get_elem?, All,
}
use yaradec.Result.{Result, ok, err, struct_error, index_error}

abbrev pub Bytes : Type 0
Bytes = List ℕ

abbrev pub IsByte : ℕ → Type 0
IsByte b = b < 256

-- `buf[a:b]` for `a` and `b` that are not negative.
abbrev pub slice : Bytes → ℕ → ℕ → Bytes
slice buf a b = take (b - a) (drop a buf)

abbrev pub or_index_error : Option ℕ → Result ℕ
or_index_error (some b) = ok b
or_index_error none = err index_error

-- `buf[i]`
abbrev pub byte_at : Bytes → ℕ → Result ℕ
byte_at buf i = or_index_error (get_elem? buf i)

abbrev pub le_value : Bytes → ℕ
le_value [] = 0
le_value (b ∷ bs) = b + 256 * le_value bs

abbrev pub le_bytes : ℕ → ℕ → Bytes
le_bytes zero v = []
le_bytes (suc w) v = (v % 256) ∷ le_bytes w (v / 256)

-- A format is the list of its fields' widths: `B` is 1, `H` is 2, `I` and `i` are 4, `Q` and `q`
-- are 8. Fields are read unsigned; a signed one goes through `signed`.
abbrev pub calcsize : List ℕ → ℕ
calcsize [] = 0
calcsize (w ∷ ws) = w + calcsize ws

abbrev pub fields : List ℕ → Bytes → List ℕ
fields [] bs = []
fields (w ∷ ws) bs = le_value (take w bs) ∷ fields ws (drop w bs)

-- `struct.unpack_from(fmt, buf, off)`
abbrev pub unpack_from : List ℕ → Bytes → ℕ → Result (List ℕ)
unpack_from fmt buf off =
    if leb (off + calcsize fmt) (length buf)
    then ok (fields fmt (drop off buf))
    else err struct_error

-- `struct.pack(fmt, …)`
abbrev pub pack : List ℕ → List ℕ → Bytes
pack [] vs = []
pack (w ∷ ws) [] = []
pack (w ∷ ws) (v ∷ vs) = le_bytes w v ++ pack ws vs

-- `vals[i]` of an unpacked tuple, at an index that its format has.
abbrev pub field_at : List ℕ → ℕ → ℕ
field_at [] i = 0
field_at (v ∷ vs) zero = v
field_at (v ∷ vs) (suc i) = field_at vs i

find_nul_from : Bytes → ℕ → Option ℕ
find_nul_from [] i = none
find_nul_from (b ∷ bs) i = let rest = find_nul_from bs (suc i) in if b == 0 then some i else rest

-- `buf.find(b"\x00", start)`
unfoldable pub find_nul : Bytes → ℕ → Option ℕ
unfolding find_nul_from
find_nul buf start = find_nul_from (drop start buf) start
