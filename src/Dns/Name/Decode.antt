-- ===== src/Dns/Name/Decode.antt =====
-- The loop of `DecodeName` of dns/name.go, round by round, and the grammar.
use labyrinth.Prelude.{
  ℕ, zero, suc, ◌+◌, ◌-◌, ◌≤◌, ◌<◌, ◌≡◌, ◌≢◌, true, refl, ap, sym, List, [], ◌∷◌, ◌++◌, arith, some,
  Bytes, length, take, drop, get_or, get_elem?, length-append, length-slice, ◌∙◌, ◌==◌,
  if◌then◌else◌, Bool-cases, inl, inr, get_elem?-get_or,
}
use labyrinth.Dns.Wire.{ok, err, out_of_fuel}
use labyrinth.Dns.Name.{
  Cursor, append_label, is_pointer, target_at, label_at, after_pointer, after_label, decode_loop,
  decode_name, start,
}
use labyrinth.Dns.Name.Grammar.{Spells, root, label, pointer}

pub length-append_label : (name l : Bytes) → length name + length l ≤ length (append_label name l)
length-append_label name l = ground (
  arith,
  length-append {0} (name ++ b'.' ∷ []) l,
  length-append {0} name l,
  length-append {0} name (b'.' ∷ []),
)

decode_loop-total :
    (fuel : ℕ) (msg : Bytes) (offset : ℕ) (s : Cursor)
    → s.pointer_depth ≤ 128
    → length s.name ≤ 255
    → (128 - s.pointer_depth) + (255 - length s.name) < fuel
    → decode_loop fuel msg offset s ≢ err out_of_fuel
unfolding decode_loop
decode_loop-total zero msg offset s d l h = absurd (omega arith)
decode_loop-total (suc fuel) msg offset s d l h = ground (
  arith,
  length-slice {0} (offset + 1) (get_or msg offset 0) msg,
  length-append_label s.name (label_at msg offset),
  decode_loop-total fuel msg (target_at msg offset) (after_pointer offset s),
  decode_loop-total fuel msg (offset + 1 + get_or msg offset 0) (after_label msg offset s),
)

-- `DecodeName` ends on every input: the fuel of the model is never used up.
pub decode_name-total : (msg : Bytes) (offset : ℕ) → decode_name msg offset ≢ err out_of_fuel
unfolding decode_name
decode_name-total msg offset =
    decode_loop-total 384 msg offset start (omega arith) (omega arith) (omega arith)

-- What an accumulated name becomes when labels are added.
abbrev pub append_labels : Bytes → List Bytes → Bytes
append_labels name [] = name
append_labels name (l ∷ ls) = append_labels (append_label name l) ls

-- The three ways in which a round does not fail.
data Round (fuel : ℕ) (msg : Bytes) (offset : ℕ) (s : Cursor) (r : Bytes × ℕ) : Type 0 where
  ends :
      get_elem? msg offset ≡ some 0
      → r ≡ (s.name, if s.jumped then s.consumed_end else offset + 1)
      → Round fuel msg offset s r
  follows :
      offset + 1 < length msg
      → is_pointer (get_or msg offset 0) ≡ true
      → target_at msg offset < offset
      → s.pointer_depth < 128
      → decode_loop fuel msg (target_at msg offset) (after_pointer offset s) ≡ ok r
      → Round fuel msg offset s r
  adds :
      offset + 1 + get_or msg offset 0 ≤ length msg
      → 0 < get_or msg offset 0
      → get_or msg offset 0 ≤ 63
      → length (after_label msg offset s).name ≤ 255
      → decode_loop fuel msg (offset + 1 + get_or msg offset 0) (after_label msg offset s) ≡ ok r
      → Round fuel msg offset s r

decode_loop-Round :
    (fuel : ℕ) (msg : Bytes) (offset : ℕ) (s : Cursor) {r : Bytes × ℕ}
    → decode_loop (suc fuel) msg offset s ≡ ok r
    → Round fuel msg offset s r
unfolding decode_loop
decode_loop-Round fuel msg offset s e = elim (Bool-cases (get_or msg offset 0 == 0)) [
  | inl z ↦ ends (get_elem?-get_or msg offset 0 (ground arith) ∙ ground arith) (ground arith)
  | inr nz ↦ elim (Bool-cases (is_pointer (get_or msg offset 0))) [
    | inl p ↦ follows (ground arith) p (ground arith) (ground arith) (ground arith)
    | inr np ↦ adds (ground arith) (ground arith) (ground arith) (ground arith) (ground arith)
  ]
]

-- The loop has read these labels from `offset` on, within its limits.
pub record Decoded (msg : Bytes) (offset : ℕ) (s : Cursor) (r : Bytes × ℕ) : Type 0 where
  pub labels : List Bytes
  pub finish : ℕ
  pub pointers : ℕ
  pub spells : Spells msg offset labels finish pointers
  pub name_is : r.0 ≡ append_labels s.name labels
  pub end_is : r.1 ≡ (if s.jumped then s.consumed_end else finish)
  pub depth : pointers + s.pointer_depth ≤ 128
  pub size : length r.0 ≤ 255

Decoded-follows :
    (msg : Bytes) (offset : ℕ) (s : Cursor) {r : Bytes × ℕ}
    → offset + 1 < length msg
    → is_pointer (get_or msg offset 0) ≡ true
    → target_at msg offset < offset
    → Decoded msg (target_at msg offset) (after_pointer offset s) r
    → Decoded msg offset s r
Decoded-follows msg offset s inside p back d = record {
  labels = d.labels;
  finish = offset + 2;
  pointers = suc d.pointers;
  spells =
      pointer _ _ d.finish d.pointers (get_elem?-get_or msg offset 0 (omega arith))
        (get_elem?-get_or msg (offset + 1) 0 inside) p back d.spells refl refl;
  name_is = d.name_is;
  end_is = d.end_is;
  depth = omega (arith, d.depth);
  size = d.size;
}

Decoded-adds :
    (msg : Bytes) (offset : ℕ) (s : Cursor) {r : Bytes × ℕ}
    → offset + 1 + get_or msg offset 0 ≤ length msg
    → 0 < get_or msg offset 0
    → get_or msg offset 0 ≤ 63
    → Decoded msg (offset + 1 + get_or msg offset 0) (after_label msg offset s) r
    → Decoded msg offset s r
Decoded-adds msg offset s inside pos fits d =
    let l = label_at msg offset in
    let e : length l ≡ get_or msg offset 0 = length-slice (offset + 1) _ msg inside in
    record {
      labels = l ∷ d.labels;
      finish = d.finish;
      pointers = d.pointers;
      spells =
          label l (get_elem?-get_or msg offset 0 (omega arith) ∙ ap some (sym e)) (omega arith)
            (omega arith) (omega arith) inside (ap (λ n. take n (drop (offset + 1) msg)) e)
            d.spells;
      name_is = d.name_is;
      end_is = d.end_is;
      depth = d.depth;
      size = d.size;
    }

pub decode_loop-Decoded :
    (fuel : ℕ) (msg : Bytes) (offset : ℕ) (s : Cursor) {r : Bytes × ℕ}
    → s.pointer_depth ≤ 128
    → length s.name ≤ 255
    → decode_loop fuel msg offset s ≡ ok r
    → Decoded msg offset s r
decode_loop-Decoded zero msg offset s d l e = absurd (unfold decode_loop in cc)
decode_loop-Decoded (suc fuel) msg offset s d l e =
    by_round (decode_loop-Round fuel msg offset s e)
      (λ r. decode_loop-Decoded fuel msg (target_at msg offset) (after_pointer offset s) {r = r})
      (λ r.
        decode_loop-Decoded fuel msg (offset + 1 + get_or msg offset 0) (after_label msg offset s)
          {r = r})
  where
    by_round :
        {r : Bytes × ℕ}
        → Round fuel msg offset s r
        → ((r : Bytes × ℕ)
            → s.pointer_depth + 1 ≤ 128
            → length s.name ≤ 255
            → decode_loop fuel msg (target_at msg offset) (after_pointer offset s) ≡ ok r
            → Decoded msg (target_at msg offset) (after_pointer offset s) r)
        → ((r : Bytes × ℕ)
            → s.pointer_depth ≤ 128
            → length (after_label msg offset s).name ≤ 255
            → decode_loop fuel msg (offset + 1 + get_or msg offset 0) (after_label msg offset s)
              ≡ ok r
            → Decoded msg (offset + 1 + get_or msg offset 0) (after_label msg offset s) r)
        → Decoded msg offset s r
    by_round (ends z q) f g = record {
      labels = [];
      finish = offset + 1;
      pointers = 0;
      spells = root z refl refl;
      name_is = ap (λ t. t.0) q;
      end_is = ap (λ t. t.1) q;
      depth = omega arith;
      size = rw q l;
    }
    by_round {r} (follows i p b k q) f g =
        Decoded-follows msg offset s i p b (f r (omega arith) l q)
    by_round {r} (adds i p b k q) f g = Decoded-adds msg offset s i p b (g r d k q)
