-- ===== src/Dns/Wire.antt =====
-- dns/errors.go, and the reader and the writer of dns/wire.go. A byte is a number, and so is a Go
-- int that never falls below 0. An operation returns the changed reader or writer.
pub mod Written
use labyrinth.Prelude.{
  ◌≡◌, refl, ℕ, ◌+◌, ◌-◌, ◌*◌, ◌/◌, ◌%◌, List, [], ◌∷◌, ◌++◌, Option, none, some, Bytes,
  if◌then◌else◌, ltb, length, take, drop, get_or,
}
use labyrinth.Text.{equal}

-- The error values of dns/errors.go that the modelled code returns. `out_of_range` is none of them:
-- it stands for the panic of a slice out of range. Nor is `out_of_fuel`:
-- it stands for a loop of the model that was cut off.
pub data Error : Type 0 where
  truncated buffer_full name_too_long label_too_long pointer_loop pointer_forward : Error
  invalid_message out_of_range out_of_fuel : Error

pub data Result {ℓ} (A : Type ℓ) : Type ℓ where
  err : Error → Result A
  ok : A → Result A

infixl 5 ◌>>=◌
abbrev pub ◌>>=◌ {ℓ κ} : {A : Type ℓ} {B : Type κ} → Result A → (A → Result B) → Result B
err why >>= rest = err why
ok value >>= rest = rest value

-- `byte(v >> 8), byte(v)`: what `binary.BigEndian.PutUint16` stores of a uint16.
abbrev pub be16 : ℕ → Bytes
be16 v = (v / 256 % 256) ∷ (v % 256) ∷ []

-- What `binary.BigEndian.PutUint32` stores of a uint32.
abbrev pub be32 : ℕ → Bytes
be32 v = (v / 16777216 % 256) ∷ (v / 65536 % 256) ∷ (v / 256 % 256) ∷ (v % 256) ∷ []

-- `binary.BigEndian.Uint16` and `Uint32` of the bytes from `i` on.
abbrev pub uint16_at : Bytes → ℕ → ℕ
uint16_at b i = get_or b i 0 * 256 + get_or b (i + 1) 0

abbrev pub uint32_at : Bytes → ℕ → ℕ
uint32_at b i = uint16_at b i * 65536 + uint16_at b (i + 2)

pub record WireReader : Type 0 where
  pub buf : Bytes
  pub offset : ℕ

-- `if r.remaining() < n { return errTruncated }`, and the read otherwise. The comparison is that of
-- signed numbers, so it is written as `len(buf) < offset + n`.
abbrev need {ℓ} : {A : Type ℓ} → ℕ → WireReader → A → Result (A × WireReader)
need n r v =
    if ltb (length r.buf) (r.offset + n)
    then err truncated
    else ok (v, record r { offset = r.offset + n })

unfoldable pub read_uint16 : WireReader → Result (ℕ × WireReader)
read_uint16 r = need 2 r (uint16_at r.buf r.offset)

unfoldable pub read_uint32 : WireReader → Result (ℕ × WireReader)
read_uint32 r = need 4 r (uint32_at r.buf r.offset)

unfoldable pub read_bytes : ℕ → WireReader → Result (Bytes × WireReader)
read_bytes n r = need n r (take n (drop r.offset r.buf))

-- `compressed` is the map from a name to its offset: the latest write of a key comes first.
pub record WireWriter : Type 0 where
  pub buf : Bytes
  pub offset : ℕ
  pub compressed : List (Bytes × ℕ)

unfoldable pub new_wire_writer : Bytes → WireWriter
new_wire_writer buf = record { buf = buf; offset = 0; compressed = [] }

-- `copy(b[i:], s)` where `s` fits.
abbrev pub splice : Bytes → ℕ → Bytes → Bytes
splice b i s = take i b ++ (s ++ drop (i + length s) b)

-- The three write methods: the guard `len(w.buf)-w.offset < n` first.
unfoldable pub write_bytes : WireWriter → Bytes → Result WireWriter
write_bytes w b =
    if ltb (length w.buf) (w.offset + length b)
    then err buffer_full
    else ok (record w { buf = splice w.buf w.offset b; offset = w.offset + length b })

unfoldable pub write_uint16 : WireWriter → ℕ → Result WireWriter
write_uint16 w v = write_bytes w (be16 v)

unfoldable pub write_uint32 : WireWriter → ℕ → Result WireWriter
write_uint32 w v = write_bytes w (be32 v)

-- `w.bytes()`.
unfoldable pub bytes : WireWriter → Bytes
bytes w = take w.offset w.buf

-- `w.compressed[name]`.
unfoldable pub offset_of : Bytes → List (Bytes × ℕ) → Option ℕ
offset_of name [] = none
offset_of name ((key, o) ∷ m) = if equal key name then some o else offset_of name m

-- A chain that succeeds has a first part that does.
pub chain-ok {ℓ κ} :
    {A : Type ℓ} {B : Type κ} (first : Result A) (rest : A → Result B) {value : B}
    → first >>= rest ≡ ok value
    → (x : A) × (first ≡ ok x) × (rest x ≡ ok value)
chain-ok (err why) rest e = absurd cc
chain-ok (ok x) rest e = (x, refl, e)

-- `b[i:j]`.
unfoldable pub slice_at : Bytes → ℕ → ℕ → Result Bytes
slice_at b i j =
    if ltb j i
    then err out_of_range
    else if ltb (length b) j
    then err out_of_range
    else ok (take (j - i) (drop i b))
