-- ===== src/Dns/Record/Plain.antt =====
-- `encodePlainName` of dns/record.go and `DecodeName`.
use labyrinth.Prelude.{
  ℕ, ◌+◌, ◌%◌, ◌≤◌, List, [], ◌∷◌, ◌++◌, Bytes, ◌≡◌, some, length, take, arith, refl, ap, ◌∙◌,
  subst, append_assoc, length-append, get_elem?-end, drop-end, take-append,
}
use labyrinth.Text.{equal, join}
use labyrinth.Text.Labels.{IsLabels, IsLabels-AllDotless, split-join}
use labyrinth.Text.Suffix.{trim-join, join-ne-root}
use labyrinth.Dns.Wire.{ok}
use labyrinth.Dns.Name.{decode_name}
use labyrinth.Dns.Name.Grammar.{Spells, root, label}
use labyrinth.Dns.Name.Complete.{decode_name-SpellsName, SpellsName-decode_name}
use labyrinth.Dns.Name.Room.{AllShort}
use labyrinth.Dns.Message.{type_ns}
use labyrinth.Dns.Rdata.{parse_name}
use labyrinth.Dns.Record.{plain_labels, encode_plain_name, unpack_name_rdata, unpack_rdata}

plain_labels-Spells :
    (pre : Bytes) (ls : List Bytes) (off e : ℕ)
    → IsLabels ls
    → AllShort ls
    → off ≡ length pre
    → e ≡ off + length (plain_labels ls)
    → Spells (pre ++ plain_labels ls) off ls e 0
unfolding plain_labels
plain_labels-Spells pre [] off e h f o q = root (get_elem?-end pre [] 0 o) q refl
plain_labels-Spells pre (l ∷ ls) off e (pos, d, h) (fit, f) o q =
    let n = length l % 256 in
    let front = pre ++ (n ∷ l) in
    let whole : front ++ plain_labels ls ≡ pre ++ (n ∷ (l ++ plain_labels ls)) =
      append_assoc pre (n ∷ l) (plain_labels ls) in
    let size = length-append {0} pre (n ∷ (l ++ plain_labels ls)) in
    let size' = length-append {0} l (plain_labels ls) in
    let rest =
      plain_labels-Spells front ls (off + 1 + length l) e h f
        (omega (arith, o, length-append {0} pre (n ∷ l))) (omega (arith, q, size')) in
    label l (get_elem?-end pre (l ++ plain_labels ls) n o ∙ ap some (omega (arith, fit))) pos fit
      refl (omega (arith, o, size, size'))
      (ap (take (length l)) (drop-end pre (l ++ plain_labels ls) n o)
        ∙ take-append l (plain_labels ls))
      (subst (λ m. Spells m (off + 1 + length l) ls e 0) whole rest)

encode_plain_name-join :
    (ls : List Bytes) → IsLabels ls → encode_plain_name (join ls) ≡ plain_labels ls
unfolding encode_plain_name plain_labels join equal
encode_plain_name-join [] h = refl
encode_plain_name-join (l ∷ ls) h =
    let (a, b) = join-ne-root l ls h in
    let s = split-join l ls (IsLabels-AllDotless (l ∷ ls) h) in
    let t = trim-join l ls h in rw (a, b, t, s) refl

-- The plain form of a name of at most 255 bytes, whose labels are free of dots and have 1 to 63
-- bytes, reads back as the name, and nothing is left over.
pub decode_name-encode_plain_name :
    (ls : List Bytes)
    → IsLabels ls
    → AllShort ls
    → length (join ls) ≤ 255
    → decode_name (encode_plain_name (join ls)) 0
      ≡ ok (join ls, length (encode_plain_name (join ls)))
decode_name-encode_plain_name ls h f short =
    let p = encode_plain_name-join ls h in
    rw p (
      SpellsName-decode_name (record {
        labels = ls;
        pointers = 0;
        spells = plain_labels-Spells [] ls 0 (length (plain_labels ls)) h f refl (omega arith);
        joined = refl;
        few_pointers = omega arith;
        short = short;
      }))

parse_name-encode_plain_name :
    (ls : List Bytes)
    → IsLabels ls
    → AllShort ls
    → length (join ls) ≤ 255
    → parse_name (encode_plain_name (join ls)) 0 ≡ ok (join ls)
unfolding parse_name
parse_name-encode_plain_name ls h f short = rw (decode_name-encode_plain_name ls h f short) refl

-- The data of an NS record whose name the message spells, compressed or not, with labels that are
-- free of dots and have 1 to 63 bytes, is stored so that `ParseNS` of the stored data gives the name.
pub parse_name-unpack_rdata :
    (msg : Bytes) (start n e : ℕ) (ls : List Bytes)
    → decode_name msg start ≡ ok (join ls, e)
    → IsLabels ls
    → AllShort ls
    → (rdata : Bytes) × (unpack_rdata type_ns msg start n ≡ ok rdata)
      × (parse_name rdata 0 ≡ ok (join ls))
unfolding unpack_rdata unpack_name_rdata
parse_name-unpack_rdata msg start n e ls d h f = (
  encode_plain_name (join ls),
  ground (arith, d),
  parse_name-encode_plain_name ls h f (decode_name-SpellsName d).short,
)
