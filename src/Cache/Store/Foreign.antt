-- ===== src/Cache/Store/Foreign.antt =====
-- `StoreNegative` of cache/cache.go and the SOA records of other zones.
use labyrinth.Prelude.{
  ℕ, true, false, List, [], ◌∷◌, some, Bytes, ◌≡◌, ◌⊎◌, inl, inr, ◌==◌, ==_iff, arith, refl, sym,
  Bool-cases,
}
use labyrinth.Prelude.Select.{Member}
use labyrinth.Text.{equal, to_lower, trim_suffix}
use labyrinth.Text.Labels.{equal_iff}
use labyrinth.Text.Zone.{IsUnder, at_or_below, at_or_below_iff}
use labyrinth.Dns.Message.{ResourceRecord, type_soa}
use labyrinth.Cache.Entry.{NegativeType, has_any_soa, covers, covers_from, authority_covers_name}
use labyrinth.Cache.Store.{Cache, store_negative}

-- A name without its last dot, in lower case.
abbrev pub canonical_name : Bytes → Bytes
canonical_name name = to_lower (trim_suffix name (b'.' ∷ []))

-- The owner is the root, or the name is at or below it.
abbrev pub Owns : Bytes → Bytes → Type 0
Owns owner name = (owner ≡ []) ⊎ IsUnder name owner

covers-Owns : (q owner : Bytes) → covers q owner ≡ true → Owns owner q
covers-Owns q owner h = elim (Bool-cases (equal owner [])) [
  | inl r ↦ inl ((equal_iff owner []).0 r)
  | inr n ↦ inr ((at_or_below_iff q owner).0 (below (Bool-cases (equal owner q)) n))
]
  where
    below :
        (equal owner q ≡ true) ⊎ (equal owner q ≡ false)
        → equal owner [] ≡ false
        → at_or_below q owner ≡ true
    below (inl e) n = rw ((equal_iff q owner).1 (sym ((equal_iff owner q).0 e)))
    below (inr d) n = ground arith

abbrev IsSoa : ResourceRecord → Type 0
IsSoa rr = rr.rtype ≡ type_soa

no_owner :
    (q : Bytes) (rrs : List ResourceRecord)
    → ((rr : ResourceRecord) → Member rr rrs → IsSoa rr → ¬ Owns (canonical_name rr.name) q)
    → covers_from q rrs ≡ false
unfolding covers_from
no_owner q [] h = refl
no_owner q (rr ∷ rrs) h = elim (Bool-cases (rr.rtype == type_soa)) [
  | inr n ↦ rw n (no_owner q rrs (λ r m. h r (inr m)))
  | inl s ↦ elim (Bool-cases (covers q (canonical_name rr.name))) [
    | inl c ↦ absurd (h rr (inl refl) ((==_iff _ _).0 s) (covers-Owns q (canonical_name rr.name) c))
    | inr d ↦ rw (s, d) (no_owner q rrs (λ r m. h r (inr m)))
  ]
]

some_soa :
    (rrs : List ResourceRecord) (rr : ResourceRecord)
    → Member rr rrs
    → IsSoa rr
    → has_any_soa rrs ≡ true
unfolding has_any_soa
some_soa [] rr m s = absurd m
some_soa (r ∷ rrs) rr (inl e) s = let t : r.rtype ≡ type_soa = rw e s in rw t
some_soa (r ∷ rrs) rr (inr m) s = ground (arith, some_soa rrs rr m s)

-- A negative answer that carries SOA records, of which none is owned by the root, the name or a
-- parent of it, is not stored.
pub store_negative-foreign :
    (now : ℕ) (c : Cache) (name : Bytes) (qtype class : ℕ) (neg : NegativeType) (rcode : ℕ)
    (authority : List ResourceRecord) (soa : ResourceRecord)
    → Member soa authority
    → soa.rtype ≡ type_soa
    → ((rr : ResourceRecord)
        → Member rr authority
        → rr.rtype ≡ type_soa
        → ¬ Owns (canonical_name rr.name) (canonical_name name))
    → store_negative now c name qtype class neg rcode authority ≡ some c
unfolding store_negative authority_covers_name
store_negative-foreign now c name qtype class neg rcode authority soa m s foreign =
    rw (some_soa authority soa m s, no_owner (canonical_name name) authority foreign)
