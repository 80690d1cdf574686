-- ===== src/Dns/Name/Room.antt =====
-- `EncodeName` of dns/name.go and the room in the buffer.
use labyrinth.Prelude.{
  ℕ, ◌+◌, ◌%◌, ◌≤◌, ◌<◌, ◌≡◌, ◌∙◌, List, [], ◌∷◌, arith, none, Bytes, length, length-append, inl,
  inr, Option-cases,
}
use labyrinth.Text.{equal, join}
use labyrinth.Text.Labels.{IsLabels}
use labyrinth.Dns.Wire.{ok, WireWriter, be16, write_uint16, write_bytes}
use labyrinth.Dns.Wire.Written.{write_bytes-ok, write_bytes-Appends}
use labyrinth.Dns.Name.{usable_offset, pointer_word, encode_labels, encode_name}
use labyrinth.Dns.Name.Encode.{encode_labels-hit, with_entry}
use labyrinth.Dns.Name.RoundTrip.{encode_name-encode_labels}

-- The labels have at most 63 bytes each.
abbrev pub AllShort : List Bytes → Type 0
AllShort [] = Unit {0}
AllShort (l ∷ ls) = (length l ≤ 63) × AllShort ls

-- The bytes of an uncompressed name on the wire.
abbrev pub wire_length : List Bytes → ℕ
wire_length [] = 1
wire_length (l ∷ ls) = 1 + length l + wire_length ls

encode_labels-step :
    (w : WireWriter) (l : Bytes) (ls : List Bytes) {w1 w2 w' : WireWriter}
    → usable_offset w (join (l ∷ ls)) ≡ none
    → length l ≤ 63
    → write_bytes (with_entry w (join (l ∷ ls))) ((length l % 256) ∷ []) ≡ ok w1
    → write_bytes w1 l ≡ ok w2
    → encode_labels w2 ls ≡ ok w'
    → encode_labels w (l ∷ ls) ≡ ok w'
unfolding encode_labels
encode_labels-step w l ls miss fits e1 e2 e = ground arith

write_uint16-ok :
    (w : WireWriter) (v : ℕ)
    → w.offset + 2 ≤ length w.buf
    → (w' : WireWriter) × (write_uint16 w v ≡ ok w')
unfolding write_uint16
write_uint16-ok w v room = write_bytes-ok w (be16 v) room

wire_length_pos : (ls : List Bytes) → 0 < wire_length ls
wire_length_pos [] = omega arith
wire_length_pos (l ∷ ls) = omega arith

encode_labels-ok :
    (ls : List Bytes) (w : WireWriter)
    → IsLabels ls
    → AllShort ls
    → w.offset + wire_length ls ≤ length w.buf
    → (w' : WireWriter) × (encode_labels w ls ≡ ok w')
encode_labels-ok [] w i s room = unfold encode_labels in write_bytes-ok w (0 ∷ []) room
encode_labels-ok (l ∷ ls) w i s room = elim (Option-cases (usable_offset w (join (l ∷ ls)))) [
  | inr (o, hit) ↦
      let (w', e) = write_uint16-ok w (pointer_word o) (omega (arith, wire_length_pos ls)) in
      (w', encode_labels-hit w l ls o hit ∙ e)
  | inl miss ↦
      let w0 = with_entry w (join (l ∷ ls)) in
      let (w1, e1) = write_bytes-ok w0 ((length l % 256) ∷ []) (omega arith) in
      let (a, _) = write_bytes-Appends w0 ((length l % 256) ∷ []) e1 in
      let (w2, e2) = write_bytes-ok w1 l (omega (arith, a.moved, a.capacity)) in
      let (b, _) = write_bytes-Appends w1 l e2 in
      let (w', e) =
        encode_labels-ok ls w2 i.2 s.1 (omega (arith, a.moved, a.capacity, b.moved, b.capacity)) in
      (w', encode_labels-step w l ls miss s.0 e1 e2 e)
]

wire_length-join : (l : Bytes) (ls : List Bytes) → wire_length (l ∷ ls) ≡ length (join (l ∷ ls)) + 2
unfolding join
wire_length-join l [] = omega arith
wire_length-join l (k ∷ ls) =
    omega (arith, wire_length-join k ls, length-append l (b'.' ∷ join (k ∷ ls)))

-- `EncodeName` succeeds on every name whose labels have 1 to 63 bytes, if the buffer has room for
-- two bytes more than the name.
pub encode_name-ok :
    (ls : List Bytes) (w : WireWriter)
    → IsLabels ls
    → AllShort ls
    → w.offset + length (join ls) + 2 ≤ length w.buf
    → (w' : WireWriter) × (encode_name w (join ls) ≡ ok w')
encode_name-ok [] w i s room =
    unfold encode_name join equal in write_bytes-ok w (0 ∷ []) (omega arith)
encode_name-ok (l ∷ ls) w i s room =
    let (w', e) = encode_labels-ok (l ∷ ls) w i s (omega (arith, wire_length-join l ls)) in
    (w', encode_name-encode_labels l ls w i ∙ e)
