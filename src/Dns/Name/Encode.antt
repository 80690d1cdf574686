-- ===== src/Dns/Name/Encode.antt =====
-- The loop of `EncodeName` of dns/name.go, its table, and the grammar.
use labyrinth.Prelude.{
  ℕ, suc, ◌+◌, ◌*◌, ◌/◌, ◌%◌, ◌≤◌, ◌<◌, ◌≡◌, true, refl, ap, sym, ◌∙◌, List, [], ◌∷◌, ◌++◌, arith,
  some, none, Bytes, length, get_elem?, length-append, append_assoc, inl, inr, Option-cases,
  get_elem?-end, take-append, get_elem?-end_next, drop-end,
}
use labyrinth.Prelude.Bits.{pointer_mask, bit_and_14, bit_or_pointer, bit_or_bytes}
use labyrinth.Text.{join}
use labyrinth.Text.Labels.{IsLabels, join-injective, length-join-lt}
use labyrinth.Dns.Wire.{
  ok, ◌>>=◌, WireWriter, write_bytes, write_uint16, bytes, offset_of, be16, chain-ok,
}
use labyrinth.Dns.Wire.Written.{IsWithin, length-bytes, write_bytes-Appends}
use labyrinth.Dns.Name.{is_pointer, pointer_target, usable_offset, pointer_word, encode_labels}
use labyrinth.Dns.Name.Grammar.{Spells, root, label, pointer, Spells-append, Spells-within}
use labyrinth.Dns.Name.Table.{
  IsSpelled, AllSpelled-concat, AllSpelled, Pending, Pending-append, offset_of-Pending,
}

-- `w'` holds the bytes of `w` and behind them a name of these labels; its new entries are right.
pub record Encoded (w : WireWriter) (ls : List Bytes) (w' : WireWriter) : Type 0 where
  pub out : Bytes
  pub contents : bytes w' ≡ bytes w ++ out
  pub within : IsWithin w'
  pub news : List (Bytes × ℕ)
  pub table : w'.compressed ≡ news ++ w.compressed
  pub spelled : AllSpelled (bytes w') news
  pub pointers : ℕ
  pub spells : Spells (bytes w') w.offset ls w'.offset pointers
  pub few : pointers ≤ length ls

pub Encoded-root :
    (w : WireWriter) {w' : WireWriter}
    → IsWithin w
    → write_bytes w (0 ∷ []) ≡ ok w'
    → Encoded w [] w'
Encoded-root w {w'} h e =
    let (a, t) = write_bytes-Appends w (0 ∷ []) e in
    let at : get_elem? (bytes w') w.offset ≡ some 0 =
      rw a.contents (get_elem?-end (bytes w) [] 0 (sym (length-bytes w h))) in
    record {
      out = 0 ∷ [];
      contents = a.contents;
      within = a.within;
      news = [];
      table = t;
      spelled = tt;
      pointers = 0;
      spells = root at a.moved refl;
      few = omega arith;
    }

pointer_word_bytes :
    (o : ℕ)
    → o < 0x3FFF
    → (is_pointer (pointer_word o / 256 % 256) ≡ true)
      × (pointer_target (pointer_word o / 256 % 256) (pointer_word o % 256) ≡ o)
pointer_word_bytes o h =
    let v : pointer_word o ≡ 0xC000 + o = bit_or_pointer (o % 65536) (omega arith) ∙ omega arith in
    let hi : pointer_word o / 256 % 256 ≡ 192 + o / 256 = omega (arith, v) in
    let lo : pointer_word o % 256 ≡ o % 256 = omega (arith, v) in
    let p : is_pointer (192 + o / 256) ≡ true = ground (arith, pointer_mask (192 + o / 256)) in
    let j = bit_or_bytes (192 + o / 256) (o % 256) (omega arith) (omega arith) in
    let t : pointer_target (192 + o / 256) (o % 256) ≡ o =
      rw j (bit_and_14 ((192 + o / 256) * 256 + o % 256) (omega arith) ∙ omega arith) in
    (rw hi p, rw (hi, lo) t)

Encoded-pointer :
    (w : WireWriter) (ls : List Bytes) (o : ℕ) {w' : WireWriter}
    → IsWithin w
    → IsLabels ls
    → o < 0x3FFF
    → IsSpelled (bytes w) (join ls, o)
    → write_uint16 w (pointer_word o) ≡ ok w'
    → Encoded w ls w'
unfolding write_uint16
Encoded-pointer w ls o {w'} h ls-ok lt s e =
    let hi = pointer_word o / 256 % 256 in
    let lo = pointer_word o % 256 in
    let (a, t) = write_bytes-Appends w (be16 (pointer_word o)) e in
    let (is, back) = pointer_word_bytes o lt in
    let len = sym (length-bytes w h) in
    let same = join-injective ls s.labels ls-ok s.are_labels s.joined in
    record {
      out = be16 (pointer_word o);
      contents = a.contents;
      within = a.within;
      news = [];
      table = t;
      spelled = tt;
      pointers = suc s.pointers;
      spells =
          pointer hi lo s.finish s.pointers
            (rw a.contents (get_elem?-end (bytes w) (lo ∷ []) hi len))
            (rw a.contents (get_elem?-end_next (bytes w) [] hi lo len)) is
            (omega (arith, back, s.before))
            (rw (back, a.contents, same) (Spells-append (be16 (pointer_word o)) s.spells)) a.moved
            refl;
      few = omega (arith, s.fewer, ap length same);
    }

abbrev pub with_entry : WireWriter → Bytes → WireWriter
with_entry w name = record w { compressed = (name, w.offset) ∷ w.compressed }

bytes-with_entry : (w : WireWriter) (name : Bytes) → bytes (with_entry w name) ≡ bytes w
unfolding bytes
bytes-with_entry w name = refl

-- A label is written, and then the rest of the name.
Encoded-label :
    (w : WireWriter) (l : Bytes) (ls : List Bytes) {w1 w2 w' : WireWriter}
    → IsWithin w
    → IsLabels (l ∷ ls)
    → length l ≤ 63
    → write_bytes (with_entry w (join (l ∷ ls))) ((length l % 256) ∷ []) ≡ ok w1
    → write_bytes w1 l ≡ ok w2
    → Encoded w2 ls w'
    → Encoded w (l ∷ ls) w'
Encoded-label w l ls {w1} {w2} {w'} h (pos, dotless, rest) fits e1 e2 d =
    let (a, t) = write_bytes-Appends (with_entry w (join (l ∷ ls))) ((length l % 256) ∷ []) e1 in
    let (b, u) = write_bytes-Appends w1 l e2 in
    let small : length l % 256 ≡ length l = omega arith in
    let len : w.offset ≡ length (bytes w) = sym (length-bytes w h) in
    let all : bytes w' ≡ bytes w ++ (length l ∷ (l ++ d.out)) =
      d.contents ∙ rw (b.contents, a.contents, bytes-with_entry, small) (simp append_assoc) in
    let spells : Spells (bytes w') w.offset (l ∷ ls) w'.offset d.pointers =
      label {next = w2.offset} l (rw all (get_elem?-end (bytes w) (l ++ d.out) (length l) len)) pos
        fits (omega (arith, a.moved, b.moved)) (omega (arith, Spells-within d.spells))
        (rw (all, drop-end (bytes w) (l ++ d.out) (length l) len) (take-append l d.out)) d.spells in
    record {
      out = length l ∷ (l ++ d.out);
      contents = all;
      within = d.within;
      news = d.news ++ ((join (l ∷ ls), w.offset) ∷ []);
      table = d.table ∙ rw (u, t) (sym (append_assoc d.news _ w.compressed));
      spelled = AllSpelled-concat d.news d.spelled (record {
        labels = l ∷ ls;
        finish = w'.offset;
        pointers = d.pointers;
        are_labels = (pos, dotless, rest);
        joined = refl;
        spells = spells;
        fewer = omega (arith, d.few);
        before =
            omega (arith, ap length all, length-append {0} (bytes w) (length l ∷ (l ++ d.out)));
      });
      pointers = d.pointers;
      spells = spells;
      few = omega (arith, d.few);
    }

usable_offset-hit :
    (w : WireWriter) (name : Bytes) {o : ℕ}
    → usable_offset w name ≡ some o
    → (offset_of name w.compressed ≡ some o) × (o < 0x3FFF)
unfolding usable_offset
usable_offset-hit w name h = (ground arith, ground arith)

pub encode_labels-hit :
    (w : WireWriter) (l : Bytes) (ls : List Bytes) (o : ℕ)
    → usable_offset w (join (l ∷ ls)) ≡ some o
    → encode_labels w (l ∷ ls) ≡ write_uint16 w (pointer_word o)
unfolding encode_labels
encode_labels-hit w l ls o h = ground arith

-- What a label that is written out takes.
record Label (w : WireWriter) (l : Bytes) (ls : List Bytes) (w' : WireWriter) : Type 0 where
  w1 : WireWriter
  w2 : WireWriter
  fits : length l ≤ 63
  size : write_bytes (with_entry w (join (l ∷ ls))) ((length l % 256) ∷ []) ≡ ok w1
  text : write_bytes w1 l ≡ ok w2
  tail : encode_labels w2 ls ≡ ok w'

encode_labels-miss :
    (w : WireWriter) (l : Bytes) (ls : List Bytes) {w' : WireWriter}
    → usable_offset w (join (l ∷ ls)) ≡ none
    → encode_labels w (l ∷ ls) ≡ ok w'
    → Label w l ls w'
unfolding encode_labels
encode_labels-miss w l ls {w'} h e =
    let fits : length l ≤ 63 = ground arith in
    let chain : (write_bytes (with_entry w (join (l ∷ ls))) ((length l % 256) ∷ []) >>= λ w1.
    write_bytes w1 l >>= λ w2. encode_labels w2 ls)
        ≡ ok w' =
      ground arith in
    let (w1, a, r) = chain-ok _ _ chain in
    let (w2, b, t) = chain-ok _ _ r in
    record { w1 = w1; w2 = w2; fits = fits; size = a; text = b; tail = t }

-- Behind a label, only the entry for the name as a whole is unfinished, and it is longer.
Label-Pending :
    (w : WireWriter) (l : Bytes) (ls : List Bytes) {w' : WireWriter}
    → 0 < length l
    → Pending (length (join (l ∷ ls))) (bytes w) w.compressed
    → (m : Label w l ls w') → Pending (length (join ls)) (bytes m.w2) m.w2.compressed
Label-Pending w l ls pos p m =
    let (a, t) =
      write_bytes-Appends (with_entry w (join (l ∷ ls))) ((length l % 256) ∷ []) m.size in
    let (b, u) = write_bytes-Appends m.w1 l m.text in
    let lt : length (join ls) < length (join (l ∷ ls)) = length-join-lt l ls pos in
    rw (b.contents, a.contents, bytes-with_entry, append_assoc, u, t)
      (inl lt, Pending-append _ _ (bytes w) w.compressed _ (omega arith) p)

-- Entries at most as long as the name that is left are right; those are all that can be found.
pub encode_labels-Encoded :
    (ls : List Bytes) (w : WireWriter) {w' : WireWriter}
    → IsWithin w
    → IsLabels ls
    → Pending (length (join ls)) (bytes w) w.compressed
    → encode_labels w ls ≡ ok w'
    → Encoded w ls w'
encode_labels-Encoded [] w h i p e = Encoded-root w h (unfold encode_labels in e)
encode_labels-Encoded (l ∷ ls) w {w'} h i p e =
    elim (Option-cases (usable_offset w (join (l ∷ ls)))) [
      | inr (o, hit) ↦
          let (at, lt) = usable_offset-hit w (join (l ∷ ls)) hit in
          Encoded-pointer w (l ∷ ls) o h i lt
            (offset_of-Pending _ (bytes w) _ w.compressed (omega arith) p at)
            (sym (encode_labels-hit w l ls o hit) ∙ e)
      | inl miss ↦
          let m = encode_labels-miss w l ls miss e in
          let (a, t) =
            write_bytes-Appends (with_entry w (join (l ∷ ls))) ((length l % 256) ∷ []) m.size in
          let (b, u) = write_bytes-Appends m.w1 l m.text in
          Encoded-label w l ls h i m.fits m.size m.text
            (encode_labels-Encoded ls m.w2 b.within i.2 (Label-Pending w l ls i.0 p m) m.tail)
    ]
