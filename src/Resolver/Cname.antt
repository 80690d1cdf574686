-- ===== src/Resolver/Cname.antt =====
-- resolver/cname.go: aliases and renamings out of an answer section.
pub mod Target
pub mod Signed
use labyrinth.Prelude.{
  ℕ, ◌-◌, Bool, true, false, ◌||◌, ◌&&◌, not, List, [], ◌∷◌, ◌++◌, Bytes, if◌then◌else◌, ◌==◌,
  length, take,
}
use labyrinth.Text.{equal, to_lower, has_suffix}
use labyrinth.Dns.Wire.{Result, ok, err}
use labyrinth.Dns.Message.{ResourceRecord, Message, type_cname, type_dname, type_rrsig}
use labyrinth.Dns.Rdata.{parse_name, RrsigRecord, parse_rrsig}

-- A target that parses and is not empty, and what comes after the record otherwise.
abbrev pub or_next : Result Bytes → (Bytes → Bytes) → Bytes → Bytes
or_next (err e) use_it next = next
or_next (ok target) use_it next = if equal target [] then next else use_it (to_lower target)

-- The loop of `extractCNAMETarget`.
unfoldable pub cname_target_from : List ResourceRecord → Bytes → Bytes
cname_target_from [] qname = []
cname_target_from (rr ∷ rrs) qname =
    if rr.rtype == type_cname && equal (to_lower rr.name) qname
    then or_next (parse_name rr.rdata 0) (λ target. target) (cname_target_from rrs qname)
    else cname_target_from rrs qname

-- `extractCNAMETarget`; the empty text says that there is none.
abbrev pub extract_cname_target : Message → Bytes → Bytes
extract_cname_target msg qname = cname_target_from msg.answers qname

-- The name with the owner's suffix replaced.
abbrev pub substituted : Bytes → Bytes → Bytes → Bytes
substituted qname owner target = take (length qname - length owner - 1) qname ++ (b'.' ∷ target)

-- The loop of `extractDNAMETarget`.
unfoldable pub dname_target_from : List ResourceRecord → Bytes → Bytes
dname_target_from [] qname = []
dname_target_from (rr ∷ rrs) qname =
    if not (rr.rtype == type_dname)
    then dname_target_from rrs qname
    else if not (has_suffix qname (b'.' ∷ to_lower rr.name))
    then dname_target_from rrs qname
    else or_next (parse_name rr.rdata 0) (substituted qname (to_lower rr.name))
        (dname_target_from rrs qname)

-- `extractDNAMETarget`.
abbrev pub extract_dname_target : Message → Bytes → Bytes
extract_dname_target msg qname = dname_target_from msg.answers qname

-- `_, ok := keep[t]`.
unfoldable pub keeps : List ℕ → ℕ → Bool
keeps [] t = false
keeps (k ∷ ks) t = k == t || keeps ks t

-- An RRSIG record that parses and covers one of the types.
abbrev pub covers_kept : List ℕ → Result RrsigRecord → Bool
covers_kept keep (err e) = false
covers_kept keep (ok sig) = keeps keep sig.type_covered

-- The loop of `extractRRsForOwnerWithRRSIG`.
unfoldable pub rrs_for_owner_from : List ResourceRecord → Bytes → List ℕ → List ResourceRecord
rrs_for_owner_from [] qname keep = []
rrs_for_owner_from (rr ∷ rrs) qname keep =
    let rest = rrs_for_owner_from rrs qname keep in
    if not (equal (to_lower rr.name) qname)
    then rest
    else if keeps keep rr.rtype
    then rr ∷ rest
    else if rr.rtype == type_rrsig && covers_kept keep (parse_rrsig rr.rdata)
    then rr ∷ rest
    else rest

-- `extractRRsForOwnerWithRRSIG`.
abbrev pub extract_rrs_for_owner_with_rrsig : Message → Bytes → List ℕ → List ResourceRecord
extract_rrs_for_owner_with_rrsig msg qname keep = rrs_for_owner_from msg.answers qname keep

-- The loop of `extractCNAMERecords`.
unfoldable pub cname_records_from : List ResourceRecord → Bytes → List ResourceRecord
cname_records_from [] qname = []
cname_records_from (rr ∷ rrs) qname =
    let rest = cname_records_from rrs qname in
    if not (equal (to_lower rr.name) qname)
    then rest
    else if rr.rtype == type_cname
    then rr ∷ rest
    else if rr.rtype == type_rrsig && covers_kept (type_cname ∷ []) (parse_rrsig rr.rdata)
    then rr ∷ rest
    else rest

-- `extractCNAMERecords`.
abbrev pub extract_cname_records : Message → Bytes → List ResourceRecord
extract_cname_records msg qname = cname_records_from msg.answers qname
