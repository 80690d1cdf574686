-- ===== src/Dnssec/Nsec.antt =====
-- dnssec/nsec.go: the order of names and the proofs of denial by NSEC records.
pub mod Order
pub mod Names
pub mod Denial
use labyrinth.Prelude.{
  ℕ, ◌+◌, ◌-◌, Bool, true, false, ◌||◌, ◌&&◌, not, List, [], ◌∷◌, ◌++◌, Option, none, some, Bytes,
  if◌then◌else◌, ltb, leb, ◌==◌, length, drop,
}
use labyrinth.Text.{equal, to_lower, trim_suffix, split, join}
use labyrinth.Dns.Message.{type_ns, type_cname, type_soa, type_dname, rcode_nx_domain}

-- -1, 0 and 1 as the result of a comparison.
pub data Ordering : Type 0 where
  less same greater : Ordering

-- `canonicalName`.
unfoldable pub canonical_name : Bytes → Bytes
canonical_name name = to_lower (trim_suffix name (b'.' ∷ []))

-- `canonicalLabels`.
unfoldable pub canonical_labels : Bytes → List Bytes
canonical_labels name = let n = canonical_name name in if equal n [] then [] else split n

-- The labels in the order in which the loops take them: the last one first.
unfoldable pub from_last : List Bytes → List Bytes
from_last [] = []
from_last (l ∷ ls) = from_last ls ++ (l ∷ [])

-- A comparison of sequences: the first difference decides, and the shorter one is first.
unfoldable pub compare_with : {A : Type 0} → (A → A → Ordering) → List A → List A → Ordering
compare_with cmp [] [] = same
compare_with cmp [] (y ∷ ys) = less
compare_with cmp (x ∷ xs) [] = greater
compare_with cmp (x ∷ xs) (y ∷ ys) = elim (cmp x y) [
  | less ↦ less
  | same ↦ compare_with cmp xs ys
  | greater ↦ greater
]

unfoldable pub compare_byte : ℕ → ℕ → Ordering
compare_byte x y = if ltb x y then less else if ltb y x then greater else same

-- `compareLabelBytes`.
unfoldable pub compare_label_bytes : Bytes → Bytes → Ordering
compare_label_bytes a b = compare_with compare_byte a b

-- `canonicalCompareName`.
unfoldable pub canonical_compare_name : Bytes → Bytes → Ordering
canonical_compare_name a b =
    compare_with compare_label_bytes (from_last (canonical_labels a))
      (from_last (canonical_labels b))

abbrev pub is_less : Ordering → Bool
is_less less = true
is_less same = false
is_less greater = false

abbrev pub is_greater : Ordering → Bool
is_greater less = false
is_greater same = false
is_greater greater = true

-- `nsecCoversName`.
unfoldable pub nsec_covers_name : Bytes → Bytes → Bytes → Bool
nsec_covers_name owner next qname =
    if is_less (canonical_compare_name owner next)
    then is_greater (canonical_compare_name qname owner)
      && is_less (canonical_compare_name qname next)
    else is_greater (canonical_compare_name qname owner)
      || is_less (canonical_compare_name qname next)

-- The loop of `commonAncestor`: how many labels agree, from the last on.
unfoldable pub count_matched : List Bytes → List Bytes → ℕ
count_matched [] ls = 0
count_matched (k ∷ ks) [] = 0
count_matched (k ∷ ks) (l ∷ ls) = let n = count_matched ks ls in if equal k l then n + 1 else 0

-- `commonAncestor`.
unfoldable pub common_ancestor : Bytes → Bytes → Bytes
common_ancestor a b =
    let matched = count_matched (from_last (canonical_labels a)) (from_last (canonical_labels b)) in
    if matched == 0
    then []
    else join (drop (length (canonical_labels a) - matched) (canonical_labels a))

-- `strings.Count(name, ".")`.
unfoldable pub count_dots : Bytes → ℕ
count_dots [] = 0
count_dots (c ∷ s) = let n = count_dots s in if c == b'.' then n + 1 else n

-- `labelCount`.
unfoldable pub label_count : Bytes → ℕ
label_count name = if equal name [] then 0 else count_dots name + 1

-- `closestEncloser`.
unfoldable pub closest_encloser : Bytes → Bytes → Bytes → Bytes
closest_encloser qname owner next =
    let a = common_ancestor qname owner in
    let b = common_ancestor qname next in if leb (label_count b) (label_count a) then a else b

-- `NSECRecordWithOwner`, with the fields of `NSECRecord`.
pub record NsecRecord : Type 0 where
  pub owner_name : Bytes
  pub next_domain_name : Bytes
  pub type_bit_maps : List ℕ

unfoldable pub contains_type : ℕ → List ℕ → Bool
contains_type t [] = false
contains_type t (u ∷ ts) = if u == t then true else contains_type t ts

-- `nsecHasType`.
abbrev pub nsec_has_type : NsecRecord → ℕ → Bool
nsec_has_type n t = contains_type t n.type_bit_maps

-- Whether a record passes the tests of the first two loops: `qname` owns it, it lacks two types, and
-- it is no record of the parent side of a delegation.
abbrev pub denies_at : Bytes → ℕ → ℕ → NsecRecord → Bool
denies_at qname t u n =
    if not (equal (canonical_name n.owner_name) qname)
    then false
    else if nsec_has_type n t
    then false
    else if nsec_has_type n u
    then false
    else not (nsec_has_type n type_ns && not (nsec_has_type n type_soa))

-- The two loops, which differ in the types: the type that is asked for and CNAME for NODATA, CNAME
-- and DNAME for the compact denial.
unfoldable pub any_denies_at : Bytes → ℕ → ℕ → List NsecRecord → Bool
any_denies_at qname t u [] = false
any_denies_at qname t u (n ∷ ns) =
    if denies_at qname t u n then true else any_denies_at qname t u ns

abbrev pub covers : Bytes → NsecRecord → Bool
covers qname n =
    nsec_covers_name (canonical_name n.owner_name) (canonical_name n.next_domain_name) qname

-- The loop for the first record that covers the name.
unfoldable pub first_covering : Bytes → List NsecRecord → Option NsecRecord
first_covering qname [] = none
first_covering qname (n ∷ ns) = if covers qname n then some n else first_covering qname ns

-- The last loop: the wildcard is covered, or it lacks the type.
unfoldable pub denies_wildcard : Bytes → ℕ → List NsecRecord → Bool
denies_wildcard wildcard qtype [] = false
denies_wildcard wildcard qtype (n ∷ ns) =
    if covers wildcard n
    then true
    else if equal (canonical_name n.owner_name) wildcard
        && not (nsec_has_type n qtype)
        && not (nsec_has_type n type_cname)
    then true
    else denies_wildcard wildcard qtype ns

abbrev pub star : Bytes
star = b'*' ∷ []

abbrev pub wildcard_of : Bytes → Bytes
wildcard_of ce = if equal ce [] then star else star ++ (b'.' ∷ ce)

-- The wildcard at the closest encloser that a covering record gives.
abbrev pub wildcard_for : Bytes → NsecRecord → Bytes
wildcard_for qname n =
    wildcard_of
      (closest_encloser qname (canonical_name n.owner_name) (canonical_name n.next_domain_name))

-- The last part of `VerifyNSECDenial`.
unfoldable pub denies_name : Bytes → ℕ → List NsecRecord → Bool
denies_name qname qtype records = elim (first_covering qname records) [
  | none ↦ false
  | some n ↦ denies_wildcard (wildcard_for qname n) qtype records
]

-- `VerifyNSECDenial`, of a name in its canonical form and one record at least.
abbrev pub denied : Bytes → ℕ → ℕ → List NsecRecord → Bool
denied qname qtype code records =
    if any_denies_at qname qtype type_cname records
    then true
    else if not (code == rcode_nx_domain)
    then false
    else if any_denies_at qname type_cname type_dname records
    then true
    else denies_name qname qtype records

-- `VerifyNSECDenial`; without records it is an error, which is `none`.
unfoldable pub verify_nsec_denial : Bytes → ℕ → ℕ → List NsecRecord → Option Bool
verify_nsec_denial qname qtype code [] = none
verify_nsec_denial qname qtype code (n ∷ ns) =
    some (denied (canonical_name qname) qtype code (n ∷ ns))
