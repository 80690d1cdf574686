-- ===== src/Resolver/Classify/Sound.antt =====
-- The grounds of each verdict of `classifyResponse` of resolver/classify.go.
use labyrinth.Prelude.{
  ℕ, ◌<◌, Bool, true, false, ◌||◌, Bytes, ltb, ◌==◌, ◌≡◌, ◌≢◌, ◌⊎◌, inl, inr, arith, refl,
  Bool-cases, ==_iff,
}
use labyrinth.Dns.Message.{Message, is_aa, rcode, type_cname}
use labyrinth.Resolver.Classify.{
  ResponseType, answer, cname, dname, referral, nx_domain, no_data, serv_fail, scan_authority,
  classify_response,
}
use labyrinth.Resolver.Classify.{from_authority, from_answers}
use labyrinth.Resolver.Classify.Scan.{
  AnyRecord, any, any-AnyRecord, any-no, is_requested, is_dname_for, is_ns, is_covering_soa,
  scan_answers-any, scan_authority-any,
}

module _ (msg : Message) (qname : Bytes) (qtype : ℕ) where
  -- None of the four response codes that end the classification.
  abbrev pub IsUsable : Type 0
  IsUsable =
      (rcode msg.header ≢ 3)
      × (rcode msg.header ≢ 2)
      × (rcode msg.header ≢ 5)
      × (rcode msg.header ≢ 1)

  -- An answer to the question; an alias of the name; a new name for a parent of it.
  abbrev pub Answers : Type 0
  Answers = AnyRecord (is_requested qname qtype) msg.answers

  abbrev pub Aliases : Type 0
  Aliases = AnyRecord (is_requested qname type_cname) msg.answers

  abbrev pub Renames : Type 0
  Renames = AnyRecord (is_dname_for qname) msg.answers

  -- The answer section is empty or has nothing to do with the question.
  abbrev pub IsIrrelevant : Type 0
  IsIrrelevant = (msg.header.an_count ≡ 0) ⊎ ((¬ Answers) × (¬ Aliases) × (¬ Renames))

  abbrev pub HasNs : Type 0
  HasNs = AnyRecord is_ns msg.authority

  -- An SOA record of a zone that holds the name.
  abbrev pub HasSoa : Type 0
  HasSoa = AnyRecord (is_covering_soa qname) msg.authority

  -- The verdicts, each with the whole of its grounds.
  pub data Classified : ResponseType → Type 0 where
    is_nx_domain : rcode msg.header ≡ 3 → Classified nx_domain
    is_refused :
        (rcode msg.header ≡ 2) ⊎ (rcode msg.header ≡ 5) ⊎ (rcode msg.header ≡ 1)
        → Classified serv_fail
    is_lame :
        IsUsable
        → 0 < msg.header.an_count
        → is_aa msg.header ≡ false
        → Answers ⊎ Aliases ⊎ Renames
        → Classified serv_fail
    is_answer :
        IsUsable → 0 < msg.header.an_count → is_aa msg.header ≡ true → Answers → Classified answer
    is_cname :
        IsUsable
        → 0 < msg.header.an_count
        → is_aa msg.header ≡ true
        → ¬ Answers
        → Aliases
        → Classified cname
    is_dname :
        IsUsable
        → 0 < msg.header.an_count
        → is_aa msg.header ≡ true
        → ¬ Answers
        → ¬ Aliases
        → Renames
        → Classified dname
    is_referral : IsUsable → IsIrrelevant → HasNs → ¬ HasSoa → Classified referral
    is_no_data : IsUsable → IsIrrelevant → HasSoa → Classified no_data
    is_useless : IsUsable → IsIrrelevant → ¬ HasNs → ¬ HasSoa → Classified serv_fail

  by_authority :
      IsUsable
      → IsIrrelevant
      → Classified (
          from_authority (record {
            has_ns = any is_ns msg.authority;
            has_soa = any (is_covering_soa qname) msg.authority;
          }))
  by_authority u i = elim (Bool-cases (any is_ns msg.authority)) [
    | inl n ↦ elim (Bool-cases (any (is_covering_soa qname) msg.authority)) [
      | inl s ↦ rw (n, s) (is_no_data u i (any-AnyRecord _ _ s))
      | inr s ↦ rw (n, s) (is_referral u i (any-AnyRecord _ _ n) (any-no _ _ s))
    ]
    | inr n ↦ elim (Bool-cases (any (is_covering_soa qname) msg.authority)) [
      | inl s ↦ rw (n, s) (is_no_data u i (any-AnyRecord _ _ s))
      | inr s ↦ rw (n, s) (is_useless u i (any-no _ _ n) (any-no _ _ s))
    ]
  ]

  by_answers :
      (aa : Bool) (rest : ResponseType)
      → is_aa msg.header ≡ aa
      → IsUsable
      → 0 < msg.header.an_count
      → (IsIrrelevant → Classified rest)
      → Classified (
          from_answers aa
            (record {
              has_requested_type = any (is_requested qname qtype) msg.answers;
              has_cname = any (is_requested qname type_cname) msg.answers;
              has_dname = any (is_dname_for qname) msg.answers;
            })
            rest)
  by_answers aa rest e u n k = by_flags aa _ _ _ e refl refl refl
    where
      by_flags :
          (aa r c d : Bool)
          → is_aa msg.header ≡ aa
          → any (is_requested qname qtype) msg.answers ≡ r
          → any (is_requested qname type_cname) msg.answers ≡ c
          → any (is_dname_for qname) msg.answers ≡ d
          → Classified (
              from_answers aa
                (record { has_requested_type = r; has_cname = c; has_dname = d })
                rest)
      by_flags false true c d e r s t = is_lame u n e (inl (any-AnyRecord _ _ r))
      by_flags false false true d e r s t = is_lame u n e (inr (inl (any-AnyRecord _ _ s)))
      by_flags false false false true e r s t = is_lame u n e (inr (inr (any-AnyRecord _ _ t)))
      by_flags true true c d e r s t = is_answer u n e (any-AnyRecord _ _ r)
      by_flags true false true d e r s t = is_cname u n e (any-no _ _ r) (any-AnyRecord _ _ s)
      by_flags true false false true e r s t =
          is_dname u n e (any-no _ _ r) (any-no _ _ s) (any-AnyRecord _ _ t)
      by_flags true false false false e r s t = k (inr (any-no _ _ r, any-no _ _ s, any-no _ _ t))
      by_flags false false false false e r s t = k (inr (any-no _ _ r, any-no _ _ s, any-no _ _ t))

  authority_verdict : ResponseType
  authority_verdict =
      from_authority
        (scan_authority msg.authority qname (record { has_ns = false; has_soa = false }))

  authority_verdict-Classified : IsUsable → IsIrrelevant → Classified authority_verdict
  unfolding authority_verdict
  authority_verdict-Classified u i = rw scan_authority-any (by_authority u i)

  -- `classifyResponse` gives each verdict on its whole grounds, in order: the response code; then
  -- an answer, an alias or a renaming, each from an authoritative server only; then, where the
  -- answers have nothing to do with the question, a referral or the SOA record of a zone that holds
  -- the name.
  pub classify_response-Classified : Classified (classify_response msg qname qtype)
  unfolding classify_response authority_verdict
  classify_response-Classified = elim (Bool-cases (rcode msg.header == 3)) [
    | inl c3 ↦ rw c3 (is_nx_domain ((==_iff _ _).0 c3))
    | inr n3 ↦
        elim (Bool-cases
          (rcode msg.header == 2 || rcode msg.header == 5 || rcode msg.header == 1)) [
            | inl f ↦ rw (n3, f) (is_refused (ground arith))
            | inr g ↦
                let u : IsUsable = ground arith in
                elim (Bool-cases (ltb 0 msg.header.an_count)) [
                  | inr z ↦ rw (n3, g, z) (authority_verdict-Classified u (inl (ground arith)))
                  | inl p ↦
                      rw (n3, g, p, scan_answers-any)
                        (by_answers (is_aa msg.header) authority_verdict refl u (ground arith)
                          (authority_verdict-Classified u))
                ]
          ]
  ]
