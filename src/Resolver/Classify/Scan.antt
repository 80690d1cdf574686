-- ===== src/Resolver/Classify/Scan.antt =====
-- The loops of `classifyResponse` as searches for a record that passes a test.
use labyrinth.Prelude.{
  ℕ, Bool, true, false, ◌||◌, ◌&&◌, List, [], ◌∷◌, Bytes, ◌==◌, ◌≡◌, inl, inr, arith, refl,
  Bool-cases,
}
use labyrinth.Prelude.Select.{Member}
use labyrinth.Text.{equal, to_lower, has_suffix}
use labyrinth.Dns.Message.{ResourceRecord, type_ns, type_cname, type_soa, type_dname}
use labyrinth.Resolver.Classify.{
  soa_covers_name, AnswerFlags, scan_answers, AuthorityFlags, scan_authority,
}

-- Some record passes the test.
abbrev pub AnyRecord : (ResourceRecord → Bool) → List ResourceRecord → Type 0
AnyRecord test rrs = (rr : ResourceRecord) × Member rr rrs × (test rr ≡ true)

abbrev pub any : (ResourceRecord → Bool) → List ResourceRecord → Bool
any test [] = false
any test (rr ∷ rrs) = test rr || any test rrs

pub any-AnyRecord :
    (test : ResourceRecord → Bool) (rrs : List ResourceRecord)
    → any test rrs ≡ true
    → AnyRecord test rrs
any-AnyRecord test [] h = absurd cc
any-AnyRecord test (rr ∷ rrs) h = elim (Bool-cases (test rr)) [
  | inl t ↦ (rr, inl refl, t)
  | inr f ↦ let (k, m, t) = any-AnyRecord test rrs (ground arith) in (k, inr m, t)
]

AnyRecord-any :
    (test : ResourceRecord → Bool) (rrs : List ResourceRecord) (rr : ResourceRecord)
    → Member rr rrs
    → test rr ≡ true
    → any test rrs ≡ true
AnyRecord-any test [] rr m t = absurd m
AnyRecord-any test (k ∷ rrs) rr (inl e) t = let s : test k ≡ true = rw e t in ground (arith, s)
AnyRecord-any test (k ∷ rrs) rr (inr m) t = ground (arith, AnyRecord-any test rrs rr m t)

-- The tests of the loops, on one record.
abbrev pub is_requested : Bytes → ℕ → ResourceRecord → Bool
is_requested qname qtype rr = equal (to_lower rr.name) qname && rr.rtype == qtype

abbrev pub is_dname_for : Bytes → ResourceRecord → Bool
is_dname_for qname rr = rr.rtype == type_dname && has_suffix qname (b'.' ∷ to_lower rr.name)

abbrev pub is_ns : ResourceRecord → Bool
is_ns rr = rr.rtype == type_ns

abbrev pub is_covering_soa : Bytes → ResourceRecord → Bool
is_covering_soa qname rr = rr.rtype == type_soa && soa_covers_name rr.name qname

pub scan_answers-any :
    (rrs : List ResourceRecord) (qname : Bytes) (qtype : ℕ) (f : AnswerFlags)
    → scan_answers rrs qname qtype f ≡ record {
      has_requested_type = f.has_requested_type || any (is_requested qname qtype) rrs;
      has_cname = f.has_cname || any (is_requested qname type_cname) rrs;
      has_dname = f.has_dname || any (is_dname_for qname) rrs;
    }
unfolding scan_answers
scan_answers-any [] qname qtype f = ground arith
scan_answers-any (rr ∷ rrs) qname qtype f = rw (scan_answers-any rrs) (ground arith)

pub scan_authority-any :
    (rrs : List ResourceRecord) (qname : Bytes) (f : AuthorityFlags)
    → scan_authority rrs qname f ≡ record {
      has_ns = f.has_ns || any is_ns rrs;
      has_soa = f.has_soa || any (is_covering_soa qname) rrs;
    }
unfolding scan_authority
scan_authority-any [] qname f = ground arith
scan_authority-any (rr ∷ rrs) qname f = rw (scan_authority-any rrs) (ground arith)

-- `any` decides `AnyRecord`.
pub any-no :
    (test : ResourceRecord → Bool) (rrs : List ResourceRecord)
    → any test rrs ≡ false
    → ¬ AnyRecord test rrs
any-no test rrs h (rr, m, t) = cc (AnyRecord-any test rrs rr m t, h)
