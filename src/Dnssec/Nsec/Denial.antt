-- ===== src/Dnssec/Nsec/Denial.antt =====
-- The grounds of `VerifyNSECDenial` of dnssec/nsec.go.
use labyrinth.Prelude.{
  ℕ, Bool, true, false, ◌&&◌, not, List, [], ◌∷◌, some, Bytes, ◌≡◌, ◌⊎◌, inl, inr, ◌==◌, ==_iff,
  arith, refl, Bool-cases, Option-cases,
}
use labyrinth.Prelude.Select.{Member}
use labyrinth.Text.{equal}
use labyrinth.Text.Labels.{equal_iff}
use labyrinth.Dns.Message.{type_ns, type_cname, type_soa, type_dname, rcode_nx_domain}
use labyrinth.Dnssec.Nsec.{
  NsecRecord, canonical_name, contains_type, nsec_has_type, denies_at, any_denies_at, covers,
  first_covering, denies_wildcard, wildcard_for, denies_name, denied, verify_nsec_denial,
}
use labyrinth.Dnssec.Nsec.Names.{IsBetween, nsec_covers_name-IsBetween}

-- The bit map of the record has the type.
abbrev pub HasType : NsecRecord → ℕ → Type 0
HasType n t = Member t n.type_bit_maps

Member-contains_type : (t : ℕ) (ts : List ℕ) → Member t ts → contains_type t ts ≡ true
unfolding contains_type
Member-contains_type t [] m = absurd m
Member-contains_type t (u ∷ ts) (inl e) = ground arith
Member-contains_type t (u ∷ ts) (inr m) = ground (arith, Member-contains_type t ts m)

contains_type-Member : (t : ℕ) (ts : List ℕ) → contains_type t ts ≡ true → Member t ts
unfolding contains_type
contains_type-Member t [] h = absurd cc
contains_type-Member t (u ∷ ts) h = elim (Bool-cases (u == t)) [
  | inl e ↦ inl ((==_iff u t).0 e)
  | inr n ↦ inr (contains_type-Member t ts (rw n at h))
]

lacks : (n : NsecRecord) (t : ℕ) → nsec_has_type n t ≡ false → ¬ HasType n t
lacks n t h m = cc (Member-contains_type t n.type_bit_maps m, h)

-- The record is the name's own, has neither type, and is not from above a delegation.
pub record DeniesAt (qname : Bytes) (t u : ℕ) (n : NsecRecord) : Type 0 where
  pub own : canonical_name n.owner_name ≡ qname
  pub no_first : ¬ HasType n t
  pub no_second : ¬ HasType n u
  pub child_side : HasType n type_ns → HasType n type_soa

denies_at-DeniesAt :
    (qname : Bytes) (t u : ℕ) (n : NsecRecord) → denies_at qname t u n ≡ true → DeniesAt qname t u n
denies_at-DeniesAt qname t u n h = record {
  own = (equal_iff (canonical_name n.owner_name) qname).0 (ground arith);
  no_first = lacks n t (ground arith);
  no_second = lacks n u (ground arith);
  child_side = λ m.
      contains_type-Member type_soa n.type_bit_maps
        (soa (Member-contains_type type_ns n.type_bit_maps m));
}
  where
    soa :
        contains_type type_ns n.type_bit_maps ≡ true → contains_type type_soa n.type_bit_maps ≡ true
    soa s = ground arith

any_denies_at-DeniesAt :
    (qname : Bytes) (t u : ℕ) (ns : List NsecRecord)
    → any_denies_at qname t u ns ≡ true
    → (n : NsecRecord) × Member n ns × DeniesAt qname t u n
unfolding any_denies_at
any_denies_at-DeniesAt qname t u [] h = absurd cc
any_denies_at-DeniesAt qname t u (n ∷ ns) h = elim (Bool-cases (denies_at qname t u n)) [
  | inl d ↦ (n, inl refl, denies_at-DeniesAt qname t u n d)
  | inr k ↦ let (m, p, d) = any_denies_at-DeniesAt qname t u ns (rw k at h) in (m, inr p, d)
]

-- The name lies between the record's owner and its next name.
abbrev pub Covers : Bytes → NsecRecord → Type 0
Covers qname n = IsBetween (canonical_name n.owner_name) (canonical_name n.next_domain_name) qname

covers-Covers : (qname : Bytes) (n : NsecRecord) → covers qname n ≡ true → Covers qname n
covers-Covers qname n h = (nsec_covers_name-IsBetween _ _ qname h).0

first_covering-Covers :
    (qname : Bytes) (ns : List NsecRecord) (n : NsecRecord)
    → first_covering qname ns ≡ some n
    → Member n ns × Covers qname n
unfolding first_covering
first_covering-Covers qname [] n h = absurd cc
first_covering-Covers qname (k ∷ ns) n h = elim (Bool-cases (covers qname k)) [
  | inl c ↦ let e : k ≡ n = ground arith in (inl e, rw (← e) (covers-Covers qname k c))
  | inr d ↦ let (m, c) = first_covering-Covers qname ns n (rw d at h) in (inr m, c)
]

-- The record shows that the wildcard is not there, or that it lacks the type.
abbrev pub DeniesWildcard : Bytes → ℕ → NsecRecord → Type 0
DeniesWildcard wildcard qtype n =
    Covers wildcard n
    ⊎ ((canonical_name n.owner_name ≡ wildcard) × (¬ HasType n qtype) × (¬ HasType n type_cname))

denies_wildcard-DeniesWildcard :
    (wildcard : Bytes) (qtype : ℕ) (ns : List NsecRecord)
    → denies_wildcard wildcard qtype ns ≡ true
    → (n : NsecRecord) × Member n ns × DeniesWildcard wildcard qtype n
unfolding denies_wildcard
denies_wildcard-DeniesWildcard wildcard qtype [] h = absurd cc
denies_wildcard-DeniesWildcard wildcard qtype (n ∷ ns) h = elim (Bool-cases (covers wildcard n)) [
  | inl c ↦ (n, inl refl, inl (covers-Covers wildcard n c))
  | inr d ↦
      elim (Bool-cases (
        equal (canonical_name n.owner_name) wildcard
        && not (nsec_has_type n qtype)
        && not (nsec_has_type n type_cname))) [
          | inl o ↦ (
            n,
            inl refl,
            inr (
              (equal_iff (canonical_name n.owner_name) wildcard).0 (ground arith),
              lacks n qtype (ground arith),
              lacks n type_cname (ground arith),
            ),
          )
          | inr p ↦
              let (m, q, w) = denies_wildcard-DeniesWildcard wildcard qtype ns (rw (d, p) at h) in
              (m, inr q, w)
        ]
]

-- The three proofs of denial, of a name in its canonical form.
pub data IsDenied (qname : Bytes) (qtype code : ℕ) (records : List NsecRecord) : Type 0 where
  no_data :
      (n : NsecRecord)
      → Member n records
      → DeniesAt qname qtype type_cname n
      → IsDenied qname qtype code records
  compact :
      (n : NsecRecord)
      → code ≡ rcode_nx_domain
      → Member n records
      → DeniesAt qname type_cname type_dname n
      → IsDenied qname qtype code records
  no_name :
      (n w : NsecRecord)
      → code ≡ rcode_nx_domain
      → Member n records
      → Covers qname n
      → Member w records
      → DeniesWildcard (wildcard_for qname n) qtype w
      → IsDenied qname qtype code records

denies_name-some :
    (qname : Bytes) (qtype : ℕ) (records : List NsecRecord)
    → denies_name qname qtype records ≡ true
    → (n : NsecRecord) × (first_covering qname records ≡ some n)
      × (denies_wildcard (wildcard_for qname n) qtype records ≡ true)
unfolding denies_name
denies_name-some qname qtype records h = elim (Option-cases (first_covering qname records)) [
  | inl z ↦ absurd (ground (arith, z))
  | inr (n, e) ↦ (n, e, ground (arith, e))
]

denied-IsDenied :
    (qname : Bytes) (qtype code : ℕ) (records : List NsecRecord)
    → denied qname qtype code records ≡ true
    → IsDenied qname qtype code records
denied-IsDenied qname qtype code records h =
    elim (Bool-cases (any_denies_at qname qtype type_cname records)) [
      | inl a ↦
          let (n, m, d) = any_denies_at-DeniesAt qname qtype type_cname records a in no_data n m d
      | inr a ↦
          let nx : code ≡ rcode_nx_domain = ground arith in
          elim (Bool-cases (any_denies_at qname type_cname type_dname records)) [
            | inl b ↦
                let (n, m, d) = any_denies_at-DeniesAt qname type_cname type_dname records b in
                compact n nx m d
            | inr b ↦
                let (n, f, e) = denies_name-some qname qtype records (ground arith) in
                let (m, c) = first_covering-Covers qname records n f in
                let (w, p, d) =
                  denies_wildcard-DeniesWildcard (wildcard_for qname n) qtype records e in
                no_name n w nx m c p d
          ]
    ]

-- `VerifyNSECDenial` accepts a denial only on one of three grounds: a record of the name itself that
-- has neither the type nor CNAME; for NXDOMAIN also one that has neither CNAME nor DNAME; and for
-- NXDOMAIN a record that covers the name, with one that covers the wildcard at the closest encloser
-- or is the wildcard's own without the type and CNAME. A record of the name itself with NS has SOA.
pub verify_nsec_denial-IsDenied :
    (qname : Bytes) (qtype code : ℕ) (records : List NsecRecord)
    → verify_nsec_denial qname qtype code records ≡ some true
    → IsDenied (canonical_name qname) qtype code records
unfolding verify_nsec_denial
verify_nsec_denial-IsDenied qname qtype code [] h = absurd cc
verify_nsec_denial-IsDenied qname qtype code (n ∷ ns) h =
    denied-IsDenied (canonical_name qname) qtype code (n ∷ ns) (option_value h)
  where
    option_value : {b : Bool} → some b ≡ some true → b ≡ true
    option_value e = cc e
