-- ===== src/Tests/Names.antt =====
-- Runs of dns/name.go: names written to a buffer, with compression, and read back.
pub use labyrinth.Text.{text}
use labyrinth.Prelude.{ℕ, ◌≡◌, ◌≢◌, ◌++◌, ◌↔◌, refl, List, [], ◌∷◌, arith, Bytes, zero, suc}
use labyrinth.Text.{equal, join, split, has_suffix, trim_suffix}
use labyrinth.Dns.Wire.{
  ok, err, pointer_forward, out_of_fuel, WireWriter, new_wire_writer, write_bytes, write_uint16,
  bytes, offset_of,
}
use labyrinth.Dns.Name.{
  split_labels, usable_offset, encode_labels, encode_name, decode_loop, decode_name,
}
use labyrinth.Dns.Name.Decode.{decode_name-total}
use labyrinth.Dns.Name.Complete.{SpellsName, decode_name_iff}
use labyrinth.Dns.Name.RoundTrip.{IsValid, encode_name-IsValid, decode_name-encode_name}
use labyrinth.Dns.Name.Room.{encode_name-ok}

abbrev zeros : ℕ → List ℕ
zeros zero = []
zeros (suc n) = 0 ∷ zeros n

program : Unit {0}
unfolding equal join split has_suffix trim_suffix new_wire_writer write_bytes write_uint16 bytes
    offset_of split_labels usable_offset encode_labels encode_name decode_loop decode_name
program = tt

abbrev blank : WireWriter
blank = record { buf = zeros 40; offset = 0; compressed = [] }

abbrev example : List Bytes
example = text "example" ∷ text "com" ∷ []

abbrev www : List Bytes
www = text "www" ∷ example

-- The wire form of "example.com" in a buffer of 40 bytes.
abbrev written : WireWriter
written = record {
  buf = 7 ∷ (text "example" ++ (3 ∷ (text "com" ++ (0 ∷ zeros 27))));
  offset = 13;
  compressed = (text "com", 8) ∷ (text "example.com", 0) ∷ [];
}

encode_example : encode_name blank (text "example.com") ≡ ok written
unfolding program
encode_example = refl

-- "www.example.com" behind it is one label and a pointer to offset 0.
abbrev compressed : WireWriter
compressed = record {
  buf =
      7 ∷ (text "example" ++ (3 ∷ (text "com" ++ (0 ∷ 3 ∷ (text "www" ++ (0xC0 ∷ 0 ∷ zeros 21))))));
  offset = 19;
  compressed = (text "www.example.com", 13) ∷ (text "com", 8) ∷ (text "example.com", 0) ∷ [];
}

encode_www : encode_name written (text "www.example.com") ≡ ok compressed
unfolding program
encode_www = refl

decode_www : decode_name (bytes compressed) 13 ≡ ok (text "www.example.com", 19)
unfolding program
decode_www = refl

decode_loop_forward : decode_name (0xC0 ∷ 0 ∷ []) 0 ≡ err pointer_forward
unfolding program
decode_loop_forward = refl

blank-IsValid : IsValid blank
unfolding bytes
blank-IsValid = record { within = omega arith; table = tt }

decode_name-total_example : decode_name (0xC0 ∷ 0 ∷ []) 0 ≢ err out_of_fuel
decode_name-total_example = decode_name-total (0xC0 ∷ 0 ∷ []) 0

decode_name_iff_example :
    (decode_name (bytes compressed) 13 ≡ ok (text "www.example.com", 19))
    ↔ SpellsName (bytes compressed) 13 (text "www.example.com") 19
decode_name_iff_example = decode_name_iff (bytes compressed) 13 (text "www.example.com") 19

encode_name-IsValid_example : IsValid written
unfolding join
encode_name-IsValid_example =
    encode_name-IsValid example blank blank-IsValid (omega arith) encode_example

decode_name-encode_name_example :
    decode_name (bytes compressed) written.offset ≡ ok (join www, compressed.offset)
unfolding join
decode_name-encode_name_example =
    decode_name-encode_name www written encode_name-IsValid_example (omega arith) (omega arith)
      encode_www

encode_name-ok_example : (w' : WireWriter) × (encode_name blank (join example) ≡ ok w')
unfolding join
encode_name-ok_example = encode_name-ok example blank (omega arith) (omega arith) (omega arith)

-- One label with a dot inside reads as two.
decode_dotted : decode_name (3 ∷ b'a' ∷ b'.' ∷ b'b' ∷ 0 ∷ []) 0 ≡ ok (text "a.b", 5)
unfolding program
decode_dotted = refl
