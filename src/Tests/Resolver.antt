-- ===== src/Tests/Resolver.antt =====
-- Runs of the classifier and of the minimized questions.
use labyrinth.Prelude.{◌≡◌, refl, ◌⊎◌, [], ◌∷◌, ◌↔◌, some, none}
use labyrinth.Text.{equal, to_lower, has_suffix, trim_suffix, split}
use labyrinth.Dns.Message.{Message, ResourceRecord, type_a, type_ns, type_dname, rcode_nx_domain}
use labyrinth.Resolver.Classify.{answer, serv_fail, scan_answers, scan_authority, classify_response}
use labyrinth.Resolver.Classify.Sound.{Classified, classify_response-Classified}
use labyrinth.Resolver.Qmin.{last_label, minimize_qname}
use labyrinth.Prelude.Select.{Member}
use labyrinth.Dns.Name.{decode_loop, decode_name}
use labyrinth.Dns.Rdata.{parse_name}
use labyrinth.Resolver.Cname.{dname_target_from, extract_dname_target}
use labyrinth.Resolver.Cname.Target.{IsRenamed, extract_dname_target-IsRenamed}
use labyrinth.Resolver.SpecialUse.{special_use_response}
use labyrinth.Resolver.SpecialUse.Reserved.{IsReserved, special_use_response_iff}
use labyrinth.Tests.Names.{text}
use labyrinth.Tests.Samples.{reply, header_of, record_of, host}

classify_run : classify_response reply (text "www.example.com") type_a ≡ answer
unfolding classify_response scan_answers scan_authority equal to_lower has_suffix
classify_run = refl

-- The same sections from a server that does not claim authority.
lame_run :
    classify_response (record reply { header = header_of 0x8000 2 }) (text "www.example.com") type_a
    ≡ serv_fail
unfolding classify_response scan_answers scan_authority equal to_lower has_suffix
lame_run = refl

classify_response-Classified_example :
    Classified reply
      (text "www.example.com")
      type_a
      (classify_response reply (text "www.example.com") type_a)
classify_response-Classified_example =
    classify_response-Classified reply (text "www.example.com") type_a

minimize_run :
    minimize_qname (text "a.b.example.com") type_a (text "com") ≡ (text "example.com", type_ns)
unfolding minimize_qname last_label split trim_suffix has_suffix equal
minimize_run = refl

-- "x.example.com" under a DNAME record of "example.com" that leads to "ns.example.com".
abbrev renamed : Message
renamed = record {
  header = header_of 0x8400 1;
  questions = [];
  answers = (record_of (text "Example.com") type_dname host) ∷ [];
  authority = [];
  additional = [];
  edns0 = none;
}

dname_run : extract_dname_target renamed (text "x.example.com") ≡ text "x.ns.example.com"
unfolding dname_target_from parse_name decode_name decode_loop equal to_lower has_suffix
dname_run = refl

extract_dname_target-IsRenamed_example :
    (extract_dname_target renamed (text "x.example.com") ≡ [])
    ⊎ ((rr : ResourceRecord) × Member rr renamed.answers
        × IsRenamed rr (text "x.example.com") (extract_dname_target renamed (text "x.example.com")))
extract_dname_target-IsRenamed_example =
    extract_dname_target-IsRenamed renamed (text "x.example.com")

onion_run : special_use_response (text "Foo.Onion.") ≡ some 3
unfolding special_use_response equal to_lower has_suffix trim_suffix
onion_run = refl

documentation_run : special_use_response (text "www.example.com") ≡ none
unfolding special_use_response equal to_lower has_suffix trim_suffix
documentation_run = refl

special_use_response_iff_example :
    (special_use_response (text "Foo.Onion.") ≡ some rcode_nx_domain)
    ↔ IsReserved (to_lower (trim_suffix (text "Foo.Onion.") (b'.' ∷ [])))
special_use_response_iff_example = special_use_response_iff (text "Foo.Onion.")
