-- ===== src/Dns/Name/Complete.antt =====
-- `DecodeName` against the grammar, in both directions.
use labyrinth.Prelude.{
  ℕ, zero, suc, ◌+◌, ◌-◌, ◌≤◌, ◌<◌, ◌≡◌, ◌↔◌, refl, ap, sym, ◌∙◌, List, [], ◌∷◌, ◌++◌, arith, Bytes,
  length, take, drop, append_assoc, lt→ltb, subst, if◌then◌else◌, get_or-get_elem?,
}
use labyrinth.Prelude.Bits.{pointer_mask}
use labyrinth.Text.{join}
use labyrinth.Dns.Wire.{ok}
use labyrinth.Dns.Name.{
  Cursor, append_label, label_at, after_pointer, decode_loop, decode_name, start,
}
use labyrinth.Dns.Name.Grammar.{Spells, root, label, pointer}
use labyrinth.Dns.Name.Decode.{append_labels, length-append_label, decode_loop-Decoded}

abbrev AllPositive : List Bytes → Type 0
AllPositive [] = Unit {0}
AllPositive (l ∷ ls) = (0 < length l) × AllPositive ls

Spells-AllPositive :
    {msg : Bytes} {off : ℕ} {ls : List Bytes} {e p : ℕ} → Spells msg off ls e p → AllPositive ls
Spells-AllPositive (root h q r) = tt
Spells-AllPositive (label l h pos fits n inside cut s) = (pos, Spells-AllPositive s)
Spells-AllPositive (pointer a b e' q h k m back s x y) = Spells-AllPositive s

append_label_dot : (name l : Bytes) → 0 < length name → append_label name l ≡ name ++ (b'.' ∷ l)
append_label_dot name l pos = rw (lt→ltb 0 (length name) pos) (append_assoc name (b'.' ∷ []) l)

append_labels-join_onto :
    (name l : Bytes) (ls : List Bytes)
    → 0 < length name
    → AllPositive ls
    → append_labels name (l ∷ ls) ≡ name ++ (b'.' ∷ join (l ∷ ls))
unfolding join
append_labels-join_onto name l [] pos h = append_label_dot name l pos
append_labels-join_onto name l (k ∷ ls) pos h =
    append_labels-join_onto (append_label name l) k ls (omega (arith, length-append_label name l))
      h.1
    ∙ ap (λ n. n ++ (b'.' ∷ join (k ∷ ls))) (append_label_dot name l pos)
    ∙ append_assoc name (b'.' ∷ l) (b'.' ∷ join (k ∷ ls))

-- Added to an empty name, the labels are joined by dots.
append_labels-join : (ls : List Bytes) → AllPositive ls → append_labels [] ls ≡ join ls
unfolding join
append_labels-join [] h = refl
append_labels-join (l ∷ []) h = refl
append_labels-join (l ∷ k ∷ ls) h = append_labels-join_onto l k ls h.0 h.1.1

length-append_labels :
    (name : Bytes) (ls : List Bytes) → length name ≤ length (append_labels name ls)
length-append_labels name [] = omega arith
length-append_labels name (l ∷ ls) =
    omega (arith, length-append_label name l, length-append_labels (append_label name l) ls)

decode_loop-Spells :
    {msg : Bytes} {off : ℕ} {ls : List Bytes} {e p : ℕ}
    → Spells msg off ls e p
    → (fuel : ℕ) (s : Cursor) → p + s.pointer_depth ≤ 128
    → length (append_labels s.name ls) ≤ 255
    → (128 - s.pointer_depth) + (255 - length s.name) < fuel
    → decode_loop fuel msg off s
      ≡ ok (append_labels s.name ls, if s.jumped then s.consumed_end else e)
unfolding decode_loop
decode_loop-Spells sp zero s d l h = absurd (omega arith)
decode_loop-Spells {msg} (root h q r) (suc fuel) s d l m =
    ground (arith, get_or-get_elem? msg _ 0 h)
decode_loop-Spells {msg} {off = off} (label {next = next} l {ls} h pos fits n inside cut sp)
      (suc fuel) s d k m =
    let (lt, g) = get_or-get_elem? msg off 0 h in
    let same : label_at msg off ≡ l = ap (λ n. take n (drop (off + 1) msg)) g ∙ cut in
    let ih =
      decode_loop-Spells {off = next} sp fuel (record s { name = append_label s.name l }) d k in
    ground (
      arith,
      pointer_mask (length l),
      length-append_labels (append_label s.name l) ls,
      length-append_label s.name l,
      ih,
    )
decode_loop-Spells {msg} {off = off} (pointer a b e' q h k m back sp x y) (suc fuel) s d l n =
    ground (
      arith,
      get_or-get_elem? msg off 0 h,
      get_or-get_elem? msg (off + 1) 0 k,
      decode_loop-Spells sp fuel (after_pointer off s),
    )

-- The message spells the name at the offset, within the limits of dns/name.go.
pub record SpellsName (msg : Bytes) (offset : ℕ) (name : Bytes) (e : ℕ) : Type 0 where
  pub labels : List Bytes
  pub pointers : ℕ
  pub spells : Spells msg offset labels e pointers
  pub joined : name ≡ join labels
  pub few_pointers : pointers ≤ 128
  pub short : length name ≤ 255

pub decode_name-SpellsName :
    {msg : Bytes} {offset : ℕ} {name : Bytes} {e : ℕ}
    → decode_name msg offset ≡ ok (name, e)
    → SpellsName msg offset name e
unfolding decode_name
decode_name-SpellsName {msg} {offset} h =
    let d = decode_loop-Decoded 384 msg offset start (omega arith) (omega arith) h in
    record {
      labels = d.labels;
      pointers = d.pointers;
      spells = subst (λ e. Spells msg offset d.labels e d.pointers) (sym d.end_is) d.spells;
      joined = d.name_is ∙ append_labels-join d.labels (Spells-AllPositive d.spells);
      few_pointers = omega (arith, d.depth);
      short = d.size;
    }

pub SpellsName-decode_name :
    {msg : Bytes} {offset : ℕ} {name : Bytes} {e : ℕ}
    → SpellsName msg offset name e
    → decode_name msg offset ≡ ok (name, e)
unfolding decode_name
SpellsName-decode_name {e = e} n =
    let j = append_labels-join n.labels (Spells-AllPositive n.spells) ∙ sym n.joined in
    decode_loop-Spells n.spells 384 start (omega (arith, n.few_pointers))
      (omega (arith, ap length j, n.short)) (omega arith)
    ∙ ap (λ s. ok (s, e)) j

-- `DecodeName` returns a name and the offset behind it exactly when the message spells that name
-- there with at most 128 backward pointers and the name has at most 255 bytes.
pub decode_name_iff :
    (msg : Bytes) (offset : ℕ) (name : Bytes) (e : ℕ)
    → (decode_name msg offset ≡ ok (name, e)) ↔ SpellsName msg offset name e
decode_name_iff msg offset name e = (decode_name-SpellsName, SpellsName-decode_name)
