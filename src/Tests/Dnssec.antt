-- ===== src/Tests/Dnssec.antt =====
-- Runs of the proofs of denial.
use labyrinth.Prelude.{◌≡◌, ◌↔◌, refl, true, false, [], ◌∷◌, some}
use labyrinth.Text.{equal, to_lower, has_suffix, trim_suffix, split, join}
use labyrinth.Dns.Message.{type_a, type_ns, type_soa}
use labyrinth.Dnssec.Nsec.{
  less, same, canonical_name, canonical_labels, from_last, compare_with, compare_byte,
  compare_label_bytes, canonical_compare_name, nsec_covers_name, count_matched, common_ancestor,
  count_dots, label_count, closest_encloser, NsecRecord, contains_type, any_denies_at,
  first_covering, denies_wildcard, denies_name, verify_nsec_denial,
}
use labyrinth.Dnssec.Nsec.Order.{opposite}
use labyrinth.Dnssec.Nsec.Names.{canonical_compare_name-IsOrder}
use labyrinth.Dnssec.Nsec.Denial.{IsDenied, verify_nsec_denial-IsDenied}
use labyrinth.Tests.Names.{text}

program : Unit {0}
unfolding equal to_lower has_suffix trim_suffix split join canonical_name canonical_labels from_last
    compare_with compare_byte compare_label_bytes canonical_compare_name nsec_covers_name
    count_matched common_ancestor count_dots label_count closest_encloser contains_type
    any_denies_at first_covering denies_wildcard denies_name verify_nsec_denial
program = tt

-- The order of RFC 4034, section 6.1.
ordered_run : canonical_compare_name (text "a.example") (text "yljkjljk.a.example") ≡ less
unfolding program
ordered_run = refl

case_run : canonical_compare_name (text "Z.a.example") (text "zABC.a.EXAMPLE.") ≡ less
unfolding program
case_run = refl

encloser_run :
    closest_encloser (text "x.y.example.com") (text "a.example.com") (text "com")
    ≡ text "example.com"
unfolding program
encloser_run = refl

-- A zone with the names "example.com" and "b.example.com".
abbrev apex : NsecRecord
apex = record {
  owner_name = text "example.com.";
  next_domain_name = text "b.example.com.";
  type_bit_maps = type_ns ∷ type_soa ∷ [];
}

abbrev last : NsecRecord
last = record {
  owner_name = text "b.example.com.";
  next_domain_name = text "example.com.";
  type_bit_maps = type_a ∷ [];
}

name_run : verify_nsec_denial (text "C.example.com") type_a 3 (last ∷ apex ∷ []) ≡ some true
unfolding program
name_run = refl

present_run : verify_nsec_denial (text "b.example.com") type_a 0 (last ∷ apex ∷ []) ≡ some false
unfolding program
present_run = refl

-- A record from above the delegation of "example.com" is taken for a name below it.
abbrev parent_side : NsecRecord
parent_side = record {
  owner_name = text "example.com";
  next_domain_name = text "example2.com";
  type_bit_maps = type_ns ∷ [];
}

parent_side_run :
    verify_nsec_denial (text "www.example.com") type_a 3 (parent_side ∷ []) ≡ some true
unfolding program
parent_side_run = refl

canonical_compare_name-IsOrder_example :
    ((canonical_compare_name (text "a") (text "B") ≡ same)
      ↔ (canonical_name (text "a") ≡ canonical_name (text "B")))
    × (canonical_compare_name (text "B") (text "a")
        ≡ opposite (canonical_compare_name (text "a") (text "B")))
    × (canonical_compare_name (text "a") (text "B") ≡ less
        → canonical_compare_name (text "B") (text "c.") ≡ less
        → canonical_compare_name (text "a") (text "c.") ≡ less)
canonical_compare_name-IsOrder_example =
    canonical_compare_name-IsOrder (text "a") (text "B") (text "c.")

covers_run :
    nsec_covers_name (text "b.example.com") (text "example.com") (text "c.example.com") ≡ true
unfolding program
covers_run = refl

verify_nsec_denial-IsDenied_example :
    IsDenied (canonical_name (text "C.example.com")) type_a 3 (last ∷ apex ∷ [])
verify_nsec_denial-IsDenied_example =
    verify_nsec_denial-IsDenied (text "C.example.com") type_a 3 (last ∷ apex ∷ []) name_run

-- With NXDOMAIN as the code, a record that has the type is taken for a proof that the name is not
-- there.
present_type_run : verify_nsec_denial (text "b.example.com") type_a 3 (last ∷ []) ≡ some true
unfolding program
present_type_run = refl
