-- ===== src/Security/Bailiwick/Sound.antt =====
-- The names of kept name servers, and the glue that may stay.
use labyrinth.Prelude.{
  true, List, [], ◌∷◌, Bytes, ◌==◌, ◌≡◌, ◌⊎◌, ◌↔◌, inl, inr, arith, Bool-cases, refl, ==_iff,
}
use labyrinth.Prelude.Select.{Member}
use labyrinth.Text.{equal, to_lower}
use labyrinth.Text.Labels.{equal_iff}
use labyrinth.Dns.Wire.{Result, ok, err}
use labyrinth.Dns.Message.{ResourceRecord, type_ns, type_opt}
use labyrinth.Dns.Rdata.{parse_name}
use labyrinth.Security.Bailiwick.{contains, ns_name, ns_names}
use labyrinth.Security.Bailiwick.Kept.{Belongs, in_zone_iff, is_kept}

-- The host is the name server of an NS record among the records.
pub record IsHost (rrs : List ResourceRecord) (host : Bytes) : Type 0 where
  pub ns : ResourceRecord
  pub target : Bytes
  pub member : Member ns rrs
  pub is_ns : ns.rtype ≡ type_ns
  pub parsed : parse_name ns.rdata 0 ≡ ok target
  pub lowered : to_lower target ≡ host

IsHost-later :
    {rrs : List ResourceRecord} {host : Bytes} (rr : ResourceRecord)
    → IsHost rrs host
    → IsHost (rr ∷ rrs) host
IsHost-later rr h = record {
  ns = h.ns;
  target = h.target;
  member = inr h.member;
  is_ns = h.is_ns;
  parsed = h.parsed;
  lowered = h.lowered;
}

IsHost-add :
    (rr : ResourceRecord) (rrs : List ResourceRecord) (host : Bytes) (r : Result Bytes)
    (names : List Bytes)
    → rr.rtype ≡ type_ns
    → parse_name rr.rdata 0 ≡ r
    → (contains names host ≡ true → IsHost rrs host)
    → contains (ns_name r names) host ≡ true
    → IsHost (rr ∷ rrs) host
unfolding contains
IsHost-add rr rrs host (err e) names t p ih h = IsHost-later rr (ih h)
IsHost-add rr rrs host (ok name) names t p ih h = elim (Bool-cases (equal (to_lower name) host)) [
  | inl e ↦ record {
    ns = rr;
    target = name;
    member = inl refl;
    is_ns = t;
    parsed = p;
    lowered = (equal_iff _ host).0 e;
  }
  | inr n ↦ IsHost-later rr (ih (rw n at h))
]

ns_names-IsHost :
    (rrs : List ResourceRecord) (host : Bytes)
    → contains (ns_names rrs) host ≡ true
    → IsHost rrs host
unfolding ns_names
ns_names-IsHost [] host h = absurd (unfold contains in cc)
ns_names-IsHost (rr ∷ rrs) host h = elim (Bool-cases (rr.rtype == type_ns)) [
  | inl t ↦
      IsHost-add rr rrs host (parse_name rr.rdata 0) (ns_names rrs) ((==_iff _ _).0 t) refl
        (ns_names-IsHost rrs host) (rw t at h)
  | inr n ↦ IsHost-later rr (ns_names-IsHost rrs host (rw n at h))
]

contains-ns_name :
    (r : Result Bytes) (names : List Bytes) (host : Bytes)
    → contains names host ≡ true
    → contains (ns_name r names) host ≡ true
unfolding contains
contains-ns_name (err e) names host h = h
contains-ns_name (ok n) names host h = ground (arith, h)

contains-here :
    (name host : Bytes) (names : List Bytes)
    → to_lower name ≡ host
    → contains (ns_name (ok name) names) host ≡ true
unfolding contains
contains-here name host names e = ground (arith, (equal_iff (to_lower name) host).1 e)

IsHost-ns_names :
    (rrs : List ResourceRecord) (host : Bytes) (ns : ResourceRecord) (target : Bytes)
    → Member ns rrs
    → ns.rtype ≡ type_ns
    → parse_name ns.rdata 0 ≡ ok target
    → to_lower target ≡ host
    → contains (ns_names rrs) host ≡ true
unfolding ns_names
IsHost-ns_names [] host ns target m t p l = absurd m
IsHost-ns_names (rr ∷ rrs) host ns target (inl e) t p l =
    let t' : (rr.rtype == type_ns) ≡ true = rw e ((==_iff _ _).1 t) in
    let p' : parse_name rr.rdata 0 ≡ ok target = rw e p in
    rw (t', p') (contains-here target host (ns_names rrs) l)
IsHost-ns_names (rr ∷ rrs) host ns target (inr m) t p l =
    let ih = IsHost-ns_names rrs host ns target m t p l in
    elim (Bool-cases (rr.rtype == type_ns)) [
      | inl s ↦ rw s (contains-ns_name (parse_name rr.rdata 0) (ns_names rrs) host ih)
      | inr s ↦ rw s ih
    ]

-- The names that the code collects are the hosts of the NS records whose data parses.
pub ns_names_iff :
    (rrs : List ResourceRecord) (host : Bytes)
    → (contains (ns_names rrs) host ≡ true) ↔ IsHost rrs host
ns_names_iff rrs host = (
  ns_names-IsHost rrs host,
  λ h. IsHost-ns_names rrs host h.ns h.target h.member h.is_ns h.parsed h.lowered,
)

-- The records that an additional section may keep.
abbrev pub MayStay : List ResourceRecord → Bytes → ResourceRecord → Type 0
MayStay authority zone rr =
    (rr.rtype ≡ type_opt) ⊎ (IsHost authority (to_lower rr.name) × Belongs (to_lower rr.name) zone)

pub is_kept_iff :
    (authority : List ResourceRecord) (zone : Bytes) (rr : ResourceRecord)
    → (is_kept (ns_names authority) zone rr ≡ true) ↔ MayStay authority zone rr
is_kept_iff authority zone rr = (to, from)
  where
    to : is_kept (ns_names authority) zone rr ≡ true → MayStay authority zone rr
    to h = elim (Bool-cases (rr.rtype == type_opt)) [
      | inl o ↦ inl ((==_iff _ _).0 o)
      | inr n ↦ inr (
        (ns_names_iff authority (to_lower rr.name)).0 (ground arith),
        (in_zone_iff (to_lower rr.name) zone).0 (ground arith),
      )
    ]

    from : MayStay authority zone rr → is_kept (ns_names authority) zone rr ≡ true
    from (inl o) = ground arith
    from (inr (h, b)) = ground (
      arith,
      (ns_names_iff authority (to_lower rr.name)).1 h,
      (in_zone_iff (to_lower rr.name) zone).1 b,
    )
