-- ===== src/Dns/Name/RoundTrip.antt =====
-- `EncodeName` and `DecodeName` of dns/name.go together.
use labyrinth.Prelude.{
  ℕ, ◌≤◌, ◌≡◌, refl, sym, ◌∙◌, List, [], ◌∷◌, ◌++◌, arith, Bytes, length, subst,
}
use labyrinth.Text.{equal, join}
use labyrinth.Text.Suffix.{trim-join, join-ne-root}
use labyrinth.Text.Labels.{IsLabels, IsLabels-AllDotless, split-join, labels-le-length}
use labyrinth.Dns.Wire.{ok, WireWriter, bytes}
use labyrinth.Dns.Wire.Written.{IsWithin}
use labyrinth.Dns.Name.{split_labels, encode_labels, encode_name, decode_name}
use labyrinth.Dns.Name.Table.{AllSpelled, AllSpelled-append, AllSpelled-Pending}
use labyrinth.Dns.Name.Encode.{Encoded, Encoded-root, encode_labels-Encoded}
use labyrinth.Dns.Name.Complete.{SpellsName-decode_name}

-- The writer's offset is in its buffer, and every entry of its table names an offset at which the
-- bytes written so far spell the entry's name.
pub record IsValid (w : WireWriter) : Type 0 where
  pub within : IsWithin w
  pub table : AllSpelled (bytes w) w.compressed

split_labels-join :
    (l : Bytes) (ls : List Bytes) → IsLabels (l ∷ ls) → split_labels (join (l ∷ ls)) ≡ l ∷ ls
unfolding split_labels
split_labels-join l ls h =
    rw (trim-join l ls h, (join-ne-root l ls h).0)
      (split-join l ls (IsLabels-AllDotless (l ∷ ls) h))

-- The look-up of the whole name is that of the first suffix.
pub encode_name-encode_labels :
    (l : Bytes) (ls : List Bytes) (w : WireWriter)
    → IsLabels (l ∷ ls)
    → encode_name w (join (l ∷ ls)) ≡ encode_labels w (l ∷ ls)
unfolding encode_name encode_labels
encode_name-encode_labels l ls w h = ground (arith, join-ne-root l ls h, split_labels-join l ls h)

encode_name-Encoded :
    (ls : List Bytes) (w : WireWriter) {w' : WireWriter}
    → IsValid w
    → IsLabels ls
    → encode_name w (join ls) ≡ ok w'
    → Encoded w ls w'
encode_name-Encoded [] w v i e = Encoded-root w v.within (unfold encode_name join equal in e)
encode_name-Encoded (l ∷ ls) w v i e =
    encode_labels-Encoded (l ∷ ls) w v.within i
      (AllSpelled-Pending _ (bytes w) w.compressed v.table)
      (sym (encode_name-encode_labels l ls w i) ∙ e)

AllSpelled-append_list :
    (msg : Bytes) (xs ys : List (Bytes × ℕ))
    → AllSpelled msg xs
    → AllSpelled msg ys
    → AllSpelled msg (xs ++ ys)
AllSpelled-append_list msg [] ys h k = k
AllSpelled-append_list msg (x ∷ xs) ys (h, hs) k = (h, AllSpelled-append_list msg xs ys hs k)

-- `EncodeName` keeps the writer's invariant for a name whose labels are not empty and free of dots:
-- whatever offsets it adds to the table can be pointed at from later names.
pub encode_name-IsValid :
    (ls : List Bytes) (w : WireWriter) {w' : WireWriter}
    → IsValid w
    → IsLabels ls
    → encode_name w (join ls) ≡ ok w'
    → IsValid w'
encode_name-IsValid ls w {w'} v i e =
    let d = encode_name-Encoded ls w v i e in
    record {
      within = d.within;
      table =
          subst (λ t. AllSpelled (bytes w') t) (sym d.table)
            (AllSpelled-append_list (bytes w') d.news w.compressed d.spelled
              (rw d.contents (AllSpelled-append (bytes w) w.compressed d.out v.table)));
    }

-- On a valid writer, a name of at most 255 bytes, whose labels are not empty and free of dots, and
-- that `EncodeName` writes, with or without a compression pointer, is read back by `DecodeName` from
-- where it was written, and the reader ends where the writer stands.
pub decode_name-encode_name :
    (ls : List Bytes) (w : WireWriter) {w' : WireWriter}
    → IsValid w
    → IsLabels ls
    → length (join ls) ≤ 255
    → encode_name w (join ls) ≡ ok w'
    → decode_name (bytes w') w.offset ≡ ok (join ls, w'.offset)
decode_name-encode_name ls w v i short e =
    let d = encode_name-Encoded ls w v i e in
    SpellsName-decode_name (record {
      labels = ls;
      pointers = d.pointers;
      spells = d.spells;
      joined = refl;
      few_pointers = omega (arith, d.few, labels-le-length ls i);
      short = short;
    })
