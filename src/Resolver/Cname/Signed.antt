-- ===== src/Resolver/Cname/Signed.antt =====
-- The two functions of resolver/cname.go that pick records with their signatures.
use labyrinth.Prelude.{List, [], ◌∷◌, Bytes, ◌≡◌, arith, refl}
use labyrinth.Dns.Message.{ResourceRecord, Message, type_cname}
use labyrinth.Resolver.Cname.{
  keeps, rrs_for_owner_from, cname_records_from, extract_rrs_for_owner_with_rrsig,
  extract_cname_records,
}

cname_records_from-rrs_for_owner_from :
    (rrs : List ResourceRecord) (qname : Bytes)
    → cname_records_from rrs qname ≡ rrs_for_owner_from rrs qname (type_cname ∷ [])
unfolding cname_records_from rrs_for_owner_from keeps
cname_records_from-rrs_for_owner_from [] qname = refl
cname_records_from-rrs_for_owner_from (rr ∷ rrs) qname =
    ground (arith, cname_records_from-rrs_for_owner_from rrs qname)

-- The two functions that pick records together with their signatures agree: the one for aliases
-- picks what the general one picks when CNAME is the one type to keep.
pub extract_cname_records-extract_rrs_for_owner_with_rrsig :
    (msg : Message) (qname : Bytes)
    → extract_cname_records msg qname ≡ extract_rrs_for_owner_with_rrsig msg qname (type_cname ∷ [])
extract_cname_records-extract_rrs_for_owner_with_rrsig msg qname =
    cname_records_from-rrs_for_owner_from msg.answers qname
