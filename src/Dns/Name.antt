-- ===== src/Dns/Name.antt =====
-- dns/name.go: `DecodeName` and `EncodeName`.
pub mod Grammar
pub mod Decode
pub mod Complete
pub mod Table
pub mod Encode
pub mod RoundTrip
pub mod Room
use Prim.Native.Nat.{bit_and, bit_or}
use labyrinth.Prelude.{
  ℕ, zero, suc, ◌+◌, ◌*◌, ◌%◌, Bool, true, false, ◌||◌, List, [], ◌∷◌, ◌++◌, Option, none, some,
  Bytes, leb, ltb, ◌==◌, if◌then◌else◌, length, take, drop, get_or,
}
use labyrinth.Text.{equal, trim_suffix, split, join}
use labyrinth.Dns.Wire.{
  Result, ok, err, truncated, name_too_long, label_too_long, pointer_loop, pointer_forward,
  out_of_fuel, ◌>>=◌, WireWriter, write_bytes, write_uint16, offset_of,
}

abbrev pub max_name_length : ℕ
max_name_length = 255

abbrev pub max_label_length : ℕ
max_label_length = 63

abbrev pub max_pointer_depth : ℕ
max_pointer_depth = 128

-- `length&compressionMask == compressionMask`.
abbrev pub is_pointer : ℕ → Bool
is_pointer n = bit_and n 0xC0 == 0xC0

-- `(int(msg[offset])<<8 | int(msg[offset+1])) & pointerMask`.
abbrev pub pointer_target : ℕ → ℕ → ℕ
pointer_target a b = bit_and (bit_or (a * 256) b) 0x3FFF

-- The local variables of the loop of `DecodeName`, but for the offset.
pub record Cursor : Type 0 where
  pub name : Bytes
  pub jumped : Bool
  pub consumed_end : ℕ
  pub pointer_depth : ℕ

-- A dot stands before every label but the first.
abbrev pub append_label : Bytes → Bytes → Bytes
append_label name label = (if ltb 0 (length name) then name ++ b'.' ∷ [] else name) ++ label

abbrev pub label_at : Bytes → ℕ → Bytes
label_at msg offset = take (get_or msg offset 0) (drop (offset + 1) msg)

abbrev pub target_at : Bytes → ℕ → ℕ
target_at msg offset = pointer_target (get_or msg offset 0) (get_or msg (offset + 1) 0)

-- The variables after a jump; only the first jump fixes where the name ends.
abbrev pub after_pointer : ℕ → Cursor → Cursor
after_pointer offset s = record s {
  jumped = true;
  consumed_end = if s.jumped then s.consumed_end else offset + 2;
  pointer_depth = s.pointer_depth + 1;
}

-- The variables after a label.
abbrev pub after_label : Bytes → ℕ → Cursor → Cursor
after_label msg offset s = record s { name = append_label s.name (label_at msg offset) }

-- The loop. Every round but the last follows a pointer or adds a label.
unfoldable pub decode_loop : ℕ → Bytes → ℕ → Cursor → Result (Bytes × ℕ)
decode_loop zero msg offset s = err out_of_fuel
decode_loop (suc fuel) msg offset s =
    let n = get_or msg offset 0 in
    let follow = decode_loop fuel msg (target_at msg offset) (after_pointer offset s) in
    let next = decode_loop fuel msg (offset + 1 + n) (after_label msg offset s) in
    if leb (length msg) offset
    then err truncated
    else if n == 0
    then ok (s.name, if s.jumped then s.consumed_end else offset + 1)
    else if is_pointer n
    then (if leb (length msg) (offset + 1)
        then err truncated
        else if leb offset (target_at msg offset)
        then err pointer_forward
        else if ltb max_pointer_depth (s.pointer_depth + 1)
        then err pointer_loop
        else follow)
    else if ltb max_label_length n
    then err label_too_long
    else if ltb (length msg) (offset + 1 + n)
    then err truncated
    else if ltb max_name_length (length (after_label msg offset s).name)
    then err name_too_long
    else next

-- At most 128 rounds follow a pointer, at most 255 add a label, and one is the last.
abbrev pub decode_fuel : ℕ
decode_fuel = 384

abbrev pub start : Cursor
start = record { name = []; jumped = false; consumed_end = 0; pointer_depth = 0 }

-- `DecodeName`.
unfoldable pub decode_name : Bytes → ℕ → Result (Bytes × ℕ)
decode_name msg offset = decode_loop decode_fuel msg offset start

-- `splitLabels`.
unfoldable pub split_labels : Bytes → List Bytes
split_labels name =
    let trimmed = trim_suffix name (b'.' ∷ []) in if equal trimmed [] then [] else split trimmed

-- `if offset, ok := w.compressed[name]; ok && offset < 0x3FFF`.
unfoldable pub usable_offset : WireWriter → Bytes → Option ℕ
usable_offset w name = elim (offset_of name w.compressed) [
  | none ↦ none
  | some o ↦ if ltb o 0x3FFF then some o else none
]

-- `uint16(0xC000) | uint16(offset)`.
abbrev pub pointer_word : ℕ → ℕ
pointer_word o = bit_or 0xC000 (o % 65536)

-- The loop of `EncodeName` over the labels that are left, and the terminating zero. An error
-- leaves no writer: every caller gives the message up.
unfoldable pub encode_labels : WireWriter → List Bytes → Result WireWriter
encode_labels w [] = write_bytes w (0 ∷ [])
encode_labels w (l ∷ ls) = elim (usable_offset w (join (l ∷ ls))) [
  | some o ↦ write_uint16 w (pointer_word o)
  | none ↦ if ltb max_label_length (length l) then err label_too_long else (do
    w1 ←
        write_bytes (record w { compressed = (join (l ∷ ls), w.offset) ∷ w.compressed })
          ((length l % 256) ∷ [])
    w2 ← write_bytes w1 l
    encode_labels w2 ls)
]

-- `EncodeName`.
unfoldable pub encode_name : WireWriter → Bytes → Result WireWriter
encode_name w name =
    if equal name [] || equal name (b'.' ∷ [])
    then write_bytes w (0 ∷ [])
    else elim (usable_offset w name) [
      | some o ↦ write_uint16 w (pointer_word o)
      | none ↦ encode_labels w (split_labels name)
    ]
