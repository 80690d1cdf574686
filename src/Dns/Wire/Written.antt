-- ===== src/Dns/Wire/Written.antt =====
-- The bytes that the writer of dns/wire.go has written so far.
use labyrinth.Prelude.{
  ℕ, ◌+◌, ◌≤◌, ◌≡◌, refl, ◌++◌, arith, Bytes, length, take, drop, length-append, length-take,
  length-drop, take-append, append_assoc, subst,
}
use labyrinth.Dns.Wire.{WireWriter, ok, write_bytes, bytes, splice}

-- The offset lies in the buffer.
abbrev pub IsWithin : WireWriter → Type 0
IsWithin w = w.offset ≤ length w.buf

pub length-bytes : (w : WireWriter) → IsWithin w → length (bytes w) ≡ w.offset
unfolding bytes
length-bytes w h = omega (arith, length-take w.offset w.buf)

take-splice :
    (b : Bytes) (i : ℕ) (s rest : Bytes)
    → i ≤ length b
    → take (i + length s) (take i b ++ (s ++ rest)) ≡ take i b ++ s
take-splice b i s rest h =
    let e : length (take i b ++ s) ≡ i + length s =
      omega (arith, length-append {0} (take i b) s, length-take {0} i b) in
    rw (← append_assoc, ← e) (take-append (take i b ++ s) rest)

-- A write that succeeds appends its bytes, moves the offset behind them, and leaves the rest alone.
pub record Appends (w : WireWriter) (b : Bytes) (w' : WireWriter) : Type 0 where
  pub contents : bytes w' ≡ bytes w ++ b
  pub moved : w'.offset ≡ w.offset + length b
  pub within : IsWithin w'
  pub capacity : length w'.buf ≡ length w.buf

abbrev written : WireWriter → Bytes → WireWriter
written w b = record w { buf = splice w.buf w.offset b; offset = w.offset + length b }

written-Appends :
    (w : WireWriter) (b : Bytes) → w.offset + length b ≤ length w.buf → Appends w b (written w b)
unfolding bytes
written-Appends w b room = record {
  contents = take-splice w.buf w.offset b _ (omega arith);
  moved = refl;
  within = omega (arith, splice_length);
  capacity = splice_length;
}
  where
    splice_length : length (splice w.buf w.offset b) ≡ length w.buf
    splice_length = omega (
      arith,
      length-append {0} (take w.offset w.buf) (b ++ drop (w.offset + length b) w.buf),
      length-append {0} b (drop (w.offset + length b) w.buf),
      length-take {0} w.offset w.buf,
      length-drop {0} (w.offset + length b) w.buf,
    )

-- A write succeeds exactly when the buffer has room for it.
pub write_bytes-ok :
    (w : WireWriter) (b : Bytes)
    → w.offset + length b ≤ length w.buf
    → (w' : WireWriter) × (write_bytes w b ≡ ok w')
unfolding write_bytes
write_bytes-ok w b h = (written w b, ground arith)

pub write_bytes-Appends :
    (w : WireWriter) (b : Bytes) {w' : WireWriter}
    → write_bytes w b ≡ ok w'
    → Appends w b w' × (w'.compressed ≡ w.compressed)
unfolding write_bytes
write_bytes-Appends w b {w'} e =
    let room : w.offset + length b ≤ length w.buf = ground arith in
    let p : written w b ≡ w' = ground arith in
    subst (λ v. Appends w b v × (v.compressed ≡ w.compressed)) p (written-Appends w b room, refl)
