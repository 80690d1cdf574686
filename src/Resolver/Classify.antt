-- ===== src/Resolver/Classify.antt =====
-- resolver/classify.go.
pub mod Scan
pub mod Sound
use labyrinth.Prelude.{
  ℕ, Bool, true, false, ◌||◌, ◌&&◌, not, List, [], ◌∷◌, Bytes, if◌then◌else◌, ltb, ◌==◌,
}
use labyrinth.Text.{equal, to_lower, has_suffix, trim_suffix}
use labyrinth.Dns.Message.{
  ResourceRecord, Message, is_aa, rcode, type_ns, type_cname, type_soa, type_dname, rcode_form_err,
  rcode_serv_fail, rcode_nx_domain, rcode_refused,
}

pub data ResponseType : Type 0 where
  answer cname dname referral nx_domain no_data serv_fail : ResponseType

-- `soaCoversName`.
unfoldable pub soa_covers_name : Bytes → Bytes → Bool
soa_covers_name soa_owner qname =
    let owner = to_lower (trim_suffix soa_owner (b'.' ∷ [])) in
    let name = to_lower (trim_suffix qname (b'.' ∷ [])) in
    if equal owner []
    then true
    else if equal owner name
    then true
    else has_suffix name (b'.' ∷ owner)

-- The flags that the loop over the answers sets.
pub record AnswerFlags : Type 0 where
  pub has_requested_type : Bool
  pub has_cname : Bool
  pub has_dname : Bool

unfoldable pub scan_answers : List ResourceRecord → Bytes → ℕ → AnswerFlags → AnswerFlags
scan_answers [] qname qtype f = f
scan_answers (rr ∷ rrs) qname qtype f =
    let rr_name = to_lower rr.name in
    scan_answers rrs qname qtype (record {
      has_requested_type = f.has_requested_type || equal rr_name qname && rr.rtype == qtype;
      has_cname = f.has_cname || equal rr_name qname && rr.rtype == type_cname;
      has_dname = f.has_dname || rr.rtype == type_dname && has_suffix qname (b'.' ∷ rr_name);
    })

abbrev pub no_flags : AnswerFlags
no_flags = record { has_requested_type = false; has_cname = false; has_dname = false }

-- The flags that the loop over the authority section sets.
pub record AuthorityFlags : Type 0 where
  pub has_ns : Bool
  pub has_soa : Bool

unfoldable pub scan_authority : List ResourceRecord → Bytes → AuthorityFlags → AuthorityFlags
scan_authority [] qname f = f
scan_authority (rr ∷ rrs) qname f = scan_authority rrs qname (record {
  has_ns = f.has_ns || rr.rtype == type_ns;
  has_soa = f.has_soa || rr.rtype == type_soa && soa_covers_name rr.name qname;
})

abbrev pub from_authority : AuthorityFlags → ResponseType
from_authority f =
    if f.has_ns && not f.has_soa then referral else if f.has_soa then no_data else serv_fail

-- What the answer section decides, with the authority section as the fall-through.
abbrev pub from_answers : Bool → AnswerFlags → ResponseType → ResponseType
from_answers aa f rest =
    if not aa && (f.has_requested_type || f.has_cname || f.has_dname)
    then serv_fail
    else if f.has_requested_type
    then answer
    else if f.has_cname
    then cname
    else if f.has_dname
    then dname
    else rest

-- `classifyResponse`.
unfoldable pub classify_response : Message → Bytes → ℕ → ResponseType
classify_response msg qname qtype =
    let code = rcode msg.header in
    let rest =
      from_authority
        (scan_authority msg.authority qname (record { has_ns = false; has_soa = false })) in
    if code == rcode_nx_domain
    then nx_domain
    else if code == rcode_serv_fail || code == rcode_refused || code == rcode_form_err
    then serv_fail
    else if ltb 0 msg.header.an_count
    then from_answers (is_aa msg.header) (scan_answers msg.answers qname qtype no_flags) rest
    else rest
