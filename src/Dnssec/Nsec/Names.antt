-- ===== src/Dnssec/Nsec/Names.antt =====
-- `canonicalCompareName` and `nsecCoversName` of dnssec/nsec.go.
use labyrinth.Prelude.{
  true, List, [], ◌∷◌, ◌++◌, Bytes, ◌≡◌, ◌≢◌, ◌↔◌, inl, inr, if◌then◌else◌, arith, refl, ap, sym,
  ◌∙◌, Bool-cases,
}
use labyrinth.Text.{equal, split, join}
use labyrinth.Text.Labels.{equal_iff, join-split}
use labyrinth.Dnssec.Nsec.{
  Ordering, less, same, greater, canonical_name, canonical_labels, from_last, compare_with,
  compare_label_bytes, canonical_compare_name, is_less, is_greater, nsec_covers_name,
}
use labyrinth.Dnssec.Nsec.Order.{
  opposite, IsOrder, compare_with-IsOrder, compare_label_bytes-IsOrder,
}

from_last-snoc : (ls : List Bytes) (l : Bytes) → from_last (ls ++ (l ∷ [])) ≡ l ∷ from_last ls
unfolding from_last
from_last-snoc [] l = refl
from_last-snoc (k ∷ ls) l = ap (λ t. t ++ (k ∷ [])) (from_last-snoc ls l)

from_last-from_last : (ls : List Bytes) → from_last (from_last ls) ≡ ls
unfolding from_last
from_last-from_last [] = refl
from_last-from_last (l ∷ ls) = from_last-snoc (from_last ls) l ∙ ap (◌∷◌ l) (from_last-from_last ls)

join-canonical_labels : (name : Bytes) → join (canonical_labels name) ≡ canonical_name name
unfolding canonical_labels join
join-canonical_labels name = elim (Bool-cases (equal (canonical_name name) [])) [
  | inl e ↦ rw e (sym ((equal_iff (canonical_name name) []).0 e))
  | inr n ↦ rw n (join-split (canonical_name name))
]

canonical_labels-same :
    (a b : Bytes) → canonical_name a ≡ canonical_name b → canonical_labels a ≡ canonical_labels b
unfolding canonical_labels
canonical_labels-same a b e = ap (λ n. if equal n [] then [] else split n) e

label-IsOrder : IsOrder (compare_with compare_label_bytes)
label-IsOrder = compare_with-IsOrder compare_label_bytes compare_label_bytes-IsOrder

compare-same :
    (a b : Bytes) → canonical_compare_name a b ≡ same → canonical_name a ≡ canonical_name b
unfolding canonical_compare_name
compare-same a b h =
    let e =
      label-IsOrder.same_eq (from_last (canonical_labels a)) (from_last (canonical_labels b)) h in
    let ls =
      sym (from_last-from_last (canonical_labels a))
      ∙ ap from_last e
      ∙ from_last-from_last (canonical_labels b) in
    sym (join-canonical_labels a) ∙ ap join ls ∙ join-canonical_labels b

same-compare :
    (a b : Bytes) → canonical_name a ≡ canonical_name b → canonical_compare_name a b ≡ same
unfolding canonical_compare_name
same-compare a b e =
    let ls = canonical_labels-same a b e in
    ap (λ t. compare_with compare_label_bytes (from_last t) (from_last (canonical_labels b))) ls
    ∙ label-IsOrder.same_refl (from_last (canonical_labels b))

compare-swapped : (a b : Bytes) → canonical_compare_name b a ≡ opposite (canonical_compare_name a b)
unfolding canonical_compare_name
compare-swapped a b =
    label-IsOrder.swapped (from_last (canonical_labels a)) (from_last (canonical_labels b))

compare_trans :
    (a b c : Bytes)
    → canonical_compare_name a b ≡ less
    → canonical_compare_name b c ≡ less
    → canonical_compare_name a c ≡ less
unfolding canonical_compare_name
compare_trans a b c =
    label-IsOrder.less_trans (from_last (canonical_labels a)) (from_last (canonical_labels b))
      (from_last (canonical_labels c))

-- `canonicalCompareName` is a total order of the names, up to case and a dot at the end: it answers
-- 0 exactly for equal names, the arguments may be swapped, and "less" is transitive.
pub canonical_compare_name-IsOrder :
    (a b c : Bytes)
    → ((canonical_compare_name a b ≡ same) ↔ (canonical_name a ≡ canonical_name b))
      × (canonical_compare_name b a ≡ opposite (canonical_compare_name a b))
      × (canonical_compare_name a b ≡ less
          → canonical_compare_name b c ≡ less
          → canonical_compare_name a c ≡ less)
canonical_compare_name-IsOrder a b c =
    ((compare-same a b, same-compare a b), compare-swapped a b, compare_trans a b c)

is_less-less : (r : Ordering) → is_less r ≡ true → r ≡ less
is_less-less less h = refl
is_less-less same h = absurd cc
is_less-less greater h = absurd cc

is_greater-less : (r : Ordering) → is_greater r ≡ true → opposite r ≡ less
is_greater-less less h = absurd cc
is_greater-less same h = absurd cc
is_greater-less greater h = refl

-- The name lies between the owner and the next name; where the owner is the last name of the zone,
-- behind the one or before the other.
pub data IsBetween (owner next qname : Bytes) : Type 0 where
  inside :
      canonical_compare_name owner qname ≡ less
      → canonical_compare_name qname next ≡ less
      → IsBetween owner next qname
  behind :
      canonical_compare_name owner next ≢ less
      → canonical_compare_name owner qname ≡ less
      → IsBetween owner next qname
  before :
      canonical_compare_name owner next ≢ less
      → canonical_compare_name qname next ≡ less
      → IsBetween owner next qname

behind_owner :
    (owner qname : Bytes)
    → is_greater (canonical_compare_name qname owner) ≡ true
    → canonical_compare_name owner qname ≡ less
behind_owner owner qname h = compare-swapped qname owner ∙ is_greater-less _ h

covers-IsBetween :
    (owner next qname : Bytes)
    → nsec_covers_name owner next qname ≡ true
    → IsBetween owner next qname
unfolding nsec_covers_name
covers-IsBetween owner next qname h =
    elim (Bool-cases (is_less (canonical_compare_name owner next))) [
      | inl l ↦ inside (behind_owner owner qname (ground arith)) (is_less-less _ (ground arith))
      | inr n ↦
          let ne : canonical_compare_name owner next ≢ less = λ e. cc (ap is_less e, n) in
          elim (Bool-cases (is_greater (canonical_compare_name qname owner))) [
            | inl g ↦ behind ne (behind_owner owner qname g)
            | inr m ↦ before ne (is_less-less _ (ground arith))
          ]
    ]

-- Names that are in order differ.
less-apart : (a b : Bytes) → canonical_compare_name a b ≡ less → canonical_name a ≢ canonical_name b
less-apart a b l e = cc (same-compare a b e, l)

-- Nothing is both before and behind, up to equality.
not_both :
    (a b c : Bytes)
    → canonical_compare_name a b ≢ less
    → canonical_compare_name a c ≡ less
    → canonical_name c ≢ canonical_name b
unfolding canonical_compare_name
not_both a b c n l e = n (
    ap (λ t. compare_with compare_label_bytes (from_last (canonical_labels a)) (from_last t))
      (sym (canonical_labels-same c b e))
    ∙ l)

not_both_left :
    (a b c : Bytes)
    → canonical_compare_name a b ≢ less
    → canonical_compare_name c b ≡ less
    → canonical_name c ≢ canonical_name a
unfolding canonical_compare_name
not_both_left a b c n l e = n (
    ap (λ t. compare_with compare_label_bytes (from_last t) (from_last (canonical_labels b)))
      (sym (canonical_labels-same c a e))
    ∙ l)

-- A name that `nsecCoversName` says is covered lies between the owner and the next name of the
-- record, in the order of the zone, and is neither of the two.
pub nsec_covers_name-IsBetween :
    (owner next qname : Bytes)
    → nsec_covers_name owner next qname ≡ true
    → IsBetween owner next qname
      × (canonical_name qname ≢ canonical_name owner)
      × (canonical_name qname ≢ canonical_name next)
nsec_covers_name-IsBetween owner next qname h =
    let b = covers-IsBetween owner next qname h in let (p, q) = apart b in (b, p, q)
  where
    apart :
        IsBetween owner next qname
        → (canonical_name qname ≢ canonical_name owner)
          × (canonical_name qname ≢ canonical_name next)
    apart (inside l m) = ((λ e. less-apart owner qname l (sym e)), less-apart qname next m)
    apart (behind n l) = ((λ e. less-apart owner qname l (sym e)), not_both owner next qname n l)
    apart (before n m) = (not_both_left owner next qname n m, less-apart qname next m)
