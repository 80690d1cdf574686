-- ===== src/Resolver/Cname/Target.antt =====
-- The target of a DNAME record, `extractDNAMETarget` of resolver/cname.go.
use labyrinth.Prelude.{
  ◌-◌, true, List, [], ◌∷◌, ◌++◌, Bytes, ◌≡◌, ◌⊎◌, inl, inr, ◌==◌, ==_iff, length, take, arith,
  refl, ap, ◌∙◌, Bool-cases, length-append, take-append,
}
use labyrinth.Prelude.Select.{Member}
use labyrinth.Text.{equal, to_lower, has_suffix, split}
use labyrinth.Text.Zone.{has_suffix-front, split-append}
use labyrinth.Dns.Wire.{Result, ok, err}
use labyrinth.Dns.Message.{ResourceRecord, Message, type_dname}
use labyrinth.Dns.Rdata.{parse_name}
use labyrinth.Resolver.Cname.{or_next, substituted, dname_target_from, extract_dname_target}

-- Where a DNAME record takes a name: the labels before those of its owner stay.
pub record IsRenamed (rr : ResourceRecord) (qname target : Bytes) : Type 0 where
  pub is_dname : rr.rtype ≡ type_dname
  pub new_zone : Bytes
  pub parsed : parse_name rr.rdata 0 ≡ ok new_zone
  pub kept : List Bytes
  pub before : split qname ≡ kept ++ split (to_lower rr.name)
  pub after : split target ≡ kept ++ split (to_lower new_zone)

substituted-split :
    (qname owner target : Bytes)
    → has_suffix qname (b'.' ∷ owner) ≡ true
    → (kept : List Bytes) × (split qname ≡ kept ++ split owner)
      × (split (substituted qname owner target) ≡ kept ++ split target)
substituted-split qname owner target h =
    let (front, e) = has_suffix-front qname (b'.' ∷ owner) h in
    let n : length qname - length owner - 1 ≡ length front =
      omega (arith, ap length e, length-append {0} front (b'.' ∷ owner)) in
    let t : take (length qname - length owner - 1) qname ≡ front =
      ap (λ k. take k qname) n ∙ ap (take (length front)) e ∙ take-append front (b'.' ∷ owner) in
    (
      split front,
      ap split e ∙ split-append front owner,
      ap (λ p. split (p ++ (b'.' ∷ target))) t ∙ split-append front target,
    )

-- What one record gives: its own target, or what the others give.
or_next-cases :
    (r : Result Bytes) (use_it : Bytes → Bytes) (next : Bytes)
    → (or_next r use_it next ≡ next)
      ⊎ ((target : Bytes) × (r ≡ ok target) × (or_next r use_it next ≡ use_it (to_lower target)))
or_next-cases (err e) use_it next = inl refl
or_next-cases (ok target) use_it next = elim (Bool-cases (equal target [])) [
  | inl z ↦ inl (rw z)
  | inr n ↦ inr (target, refl, rw n)
]

abbrev RenamedBy : List ResourceRecord → Bytes → Bytes → Type 0
RenamedBy rrs qname target =
    (target ≡ []) ⊎ ((rr : ResourceRecord) × Member rr rrs × IsRenamed rr qname target)

one_more :
    (rr : ResourceRecord) (rrs : List ResourceRecord) (qname target : Bytes)
    → RenamedBy rrs qname target
    → RenamedBy (rr ∷ rrs) qname target
one_more rr rrs qname target (inl e) = inl e
one_more rr rrs qname target (inr (r, m, i)) = inr (r, inr m, i)

dname_target_from-RenamedBy :
    (rrs : List ResourceRecord) (qname : Bytes) → RenamedBy rrs qname (dname_target_from rrs qname)
unfolding dname_target_from
dname_target_from-RenamedBy [] qname = inl refl
dname_target_from-RenamedBy (rr ∷ rrs) qname = elim (Bool-cases (rr.rtype == type_dname)) [
  | inr n ↦ rw n (one_more rr rrs qname _ (dname_target_from-RenamedBy rrs qname))
  | inl d ↦ elim (Bool-cases (has_suffix qname (b'.' ∷ to_lower rr.name))) [
    | inr n ↦ rw (d, n) (one_more rr rrs qname _ (dname_target_from-RenamedBy rrs qname))
    | inl s ↦
        rw (d, s)
          (elim (or_next-cases (parse_name rr.rdata 0) (substituted qname (to_lower rr.name))
            (dname_target_from rrs qname)) [
              | inl e ↦ rw e (one_more rr rrs qname _ (dname_target_from-RenamedBy rrs qname))
              | inr (target, p, e) ↦
                  let (kept, b, a) =
                    substituted-split qname (to_lower rr.name) (to_lower target) s in
                  rw e (
                    inr (
                      rr,
                      inl refl,
                      record {
                        is_dname = (==_iff _ _).0 d;
                        new_zone = target;
                        parsed = p;
                        kept = kept;
                        before = b;
                        after = a;
                      },
                    ))
            ])
  ]
]

-- `extractDNAMETarget` answers nothing, or the name with the labels of the owner of a DNAME record
-- of the answer section replaced by those of its target, in lower case, and all others kept.
pub extract_dname_target-IsRenamed :
    (msg : Message) (qname : Bytes)
    → (extract_dname_target msg qname ≡ [])
      ⊎ ((rr : ResourceRecord) × Member rr msg.answers
          × IsRenamed rr qname (extract_dname_target msg qname))
extract_dname_target-IsRenamed msg qname = dname_target_from-RenamedBy msg.answers qname
