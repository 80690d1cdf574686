-- ===== src/Resolver/Delegation/Referred.antt =====
-- Where the zone, the hosts and the addresses of a referral come from.
use labyrinth.Prelude.{
  subst, ◌≡◌, ◌⊎◌, Bool, true, false, List, [], ◌∷◌, Bytes, refl, ap, sym, ◌∙◌, if◌then◌else◌, ◌==◌,
  inl, inr, arith, Bool-cases,
}
use labyrinth.Prelude.Select.{Member}
use labyrinth.Text.{equal, to_lower}
use labyrinth.Text.Labels.{equal_iff}
use labyrinth.Dns.Wire.{Result, ok, err}
use labyrinth.Dns.Message.{ResourceRecord, Message, type_a, type_ns, type_aaaa, type_opt}
use labyrinth.Dns.Rdata.{parse_name, parse_a, parse_aaaa}
use labyrinth.Resolver.Delegation.{
  DelegationNs, GoLib, add_host, add_ns, collect_ns, update_host, set_ipv4, set_ipv6, with_glue,
  collect_glue, extract_delegation,
}

-- The host is named by an NS record of the section.
abbrev pub IsNamed : List ResourceRecord → DelegationNs → Type 0
IsNamed authority d =
    (rr : ResourceRecord) × Member rr authority
    × (rr.rtype ≡ type_ns)
    × (host : Bytes) × (parse_name rr.rdata 0 ≡ ok host)
    × (to_lower host ≡ d.hostname)

-- There is no address, or it is that of an A record which the section has under the host's name.
abbrev pub HasGlue4 : (Bytes → Bytes) → List ResourceRecord → DelegationNs → Type 0
HasGlue4 ip_string additional d =
    (d.ipv4 ≡ [])
    ⊎ ((rr : ResourceRecord) × Member rr additional
        × (rr.rtype ≡ type_a)
        × (to_lower rr.name ≡ d.hostname)
        × (rr.ttl ≡ d.ipv4_ttl)
        × (ip : Bytes) × (parse_a rr.rdata ≡ ok ip)
        × (ip_string ip ≡ d.ipv4))

abbrev pub HasGlue6 : (Bytes → Bytes) → List ResourceRecord → DelegationNs → Type 0
HasGlue6 ip_string additional d =
    (d.ipv6 ≡ [])
    ⊎ ((rr : ResourceRecord) × Member rr additional
        × (rr.rtype ≡ type_aaaa)
        × (to_lower rr.name ≡ d.hostname)
        × (rr.ttl ≡ d.ipv6_ttl)
        × (ip : Bytes) × (parse_aaaa rr.rdata ≡ ok ip)
        × (ip_string ip ≡ d.ipv6))

pub record IsServer (ip_string : Bytes → Bytes) (authority additional : List ResourceRecord)
    (d : DelegationNs) : Type 0 where
  pub named : IsNamed authority d
  pub glue4 : HasGlue4 ip_string additional d
  pub glue6 : HasGlue6 ip_string additional d

module _ (ip_string : Bytes → Bytes) (authority additional : List ResourceRecord) where
  abbrev AllServers : List DelegationNs → Type 0
  AllServers [] = Unit {0}
  AllServers (d ∷ ds) = IsServer ip_string authority additional d × AllServers ds

  AllServers-Member :
      (d : DelegationNs) (ds : List DelegationNs)
      → AllServers ds
      → Member d ds
      → IsServer ip_string authority additional d
  AllServers-Member d [] a m = absurd m
  AllServers-Member d (x ∷ ds) a (inl e) = rw (← e) a.0
  AllServers-Member d (x ∷ ds) a (inr m) = AllServers-Member d ds a.1 m

  add_host-AllServers :
      (rr : ResourceRecord) (host : Bytes) (ds : List DelegationNs)
      → Member rr authority
      → rr.rtype ≡ type_ns
      → parse_name rr.rdata 0 ≡ ok host
      → AllServers ds
      → AllServers (add_host (to_lower host) ds)
  unfolding add_host
  add_host-AllServers rr host [] m t p a =
      (record { named = (rr, m, t, host, p, refl); glue4 = inl refl; glue6 = inl refl }, tt)
  add_host-AllServers rr host (d ∷ ds) m t p a =
      elim (Bool-cases (equal d.hostname (to_lower host))) [
        | inl e ↦ rw e a
        | inr n ↦ rw n (a.0, add_host-AllServers rr host ds m t p a.1)
      ]

  add_ns-AllServers :
      (rr : ResourceRecord) (r : Result Bytes) (ds : List DelegationNs)
      → Member rr authority
      → rr.rtype ≡ type_ns
      → parse_name rr.rdata 0 ≡ r
      → AllServers ds
      → AllServers (add_ns r ds)
  add_ns-AllServers rr (err e) ds m t p a = a
  add_ns-AllServers rr (ok host) ds m t p a = elim (Bool-cases (equal host [])) [
    | inl e ↦ rw e a
    | inr n ↦ rw n (add_host-AllServers rr host ds m t p a)
  ]

  if-AllServers :
      (test : Bool) (ds es : List DelegationNs)
      → (test ≡ true → AllServers ds)
      → AllServers es
      → AllServers (if test then ds else es)
  if-AllServers true ds es h k = h refl
  if-AllServers false ds es h k = k

  collect_ns-AllServers :
      (rrs : List ResourceRecord) (zone : Bytes) (ds : List DelegationNs)
      → ((rr : ResourceRecord) → Member rr rrs → Member rr authority)
      → AllServers ds
      → AllServers (collect_ns rrs zone ds).0
  unfolding collect_ns
  collect_ns-AllServers [] zone ds sub a = a
  collect_ns-AllServers (rr ∷ rrs) zone ds sub a =
      let named : List DelegationNs = add_ns (parse_name rr.rdata 0) ds in
      let is_ns : Bool = rr.rtype == type_ns in
      collect_ns-AllServers rrs (if is_ns then to_lower rr.name else zone)
        (if is_ns then named else ds) (λ x m. sub x (inr m))
        (if-AllServers is_ns named ds
          (λ t.
            add_ns-AllServers rr (parse_name rr.rdata 0) ds (sub rr (inl refl)) (ground arith) refl
              a)
          a)

  set_ipv4-IsServer :
      (rr : ResourceRecord) (r : Result Bytes) (d : DelegationNs)
      → Member rr additional
      → rr.rtype ≡ type_a
      → to_lower rr.name ≡ d.hostname
      → parse_a rr.rdata ≡ r
      → IsServer ip_string authority additional d
      → IsServer ip_string authority additional (set_ipv4 ip_string rr.ttl r d)
  set_ipv4-IsServer rr (err e) d m t n p s = s
  set_ipv4-IsServer rr (ok ip) d m t n p s = record {
    named = s.named;
    glue4 = inr (rr, m, t, n, refl, ip, p, refl);
    glue6 = s.glue6;
  }

  set_ipv6-IsServer :
      (rr : ResourceRecord) (r : Result Bytes) (d : DelegationNs)
      → Member rr additional
      → rr.rtype ≡ type_aaaa
      → to_lower rr.name ≡ d.hostname
      → parse_aaaa rr.rdata ≡ r
      → IsServer ip_string authority additional d
      → IsServer ip_string authority additional (set_ipv6 ip_string rr.ttl r d)
  set_ipv6-IsServer rr (err e) d m t n p s = s
  set_ipv6-IsServer rr (ok ip) d m t n p s = record {
    named = s.named;
    glue4 = s.glue4;
    glue6 = inr (rr, m, t, n, refl, ip, p, refl);
  }

  with_glue-IsServer :
      (rr : ResourceRecord) (d : DelegationNs)
      → Member rr additional
      → to_lower rr.name ≡ d.hostname
      → IsServer ip_string authority additional d
      → IsServer ip_string authority additional (with_glue ip_string rr d)
  with_glue-IsServer rr d m n s = elim (Bool-cases (rr.rtype == type_a)) [
    | inl t ↦ rw t (set_ipv4-IsServer rr (parse_a rr.rdata) d m (ground arith) n refl s)
    | inr u ↦ elim (Bool-cases (rr.rtype == type_aaaa)) [
      | inl t ↦ rw (u, t) (set_ipv6-IsServer rr (parse_aaaa rr.rdata) d m (ground arith) n refl s)
      | inr v ↦ rw (u, v) s
    ]
  ]

  update_host-AllServers :
      (rr : ResourceRecord) (ds : List DelegationNs)
      → Member rr additional
      → AllServers ds
      → AllServers (update_host (to_lower rr.name) (with_glue ip_string rr) ds)
  unfolding update_host
  update_host-AllServers rr [] m a = a
  update_host-AllServers rr (d ∷ ds) m a = elim (Bool-cases (equal d.hostname (to_lower rr.name))) [
    | inl e ↦ rw e (with_glue-IsServer rr d m (sym ((equal_iff _ _).0 e)) a.0, a.1)
    | inr n ↦ rw n (a.0, update_host-AllServers rr ds m a.1)
  ]

  collect_glue-AllServers :
      (rrs : List ResourceRecord) (ds : List DelegationNs)
      → ((rr : ResourceRecord) → Member rr rrs → Member rr additional)
      → AllServers ds
      → AllServers (collect_glue ip_string rrs ds)
  unfolding collect_glue
  collect_glue-AllServers [] ds sub a = a
  collect_glue-AllServers (rr ∷ rrs) ds sub a =
      let after : List DelegationNs = update_host (to_lower rr.name) (with_glue ip_string rr) ds in
      collect_glue-AllServers rrs (if rr.rtype == type_opt then ds else after)
        (λ x m. sub x (inr m))
        (if-AllServers (rr.rtype == type_opt) ds after (λ t. a)
          (update_host-AllServers rr ds (sub rr (inl refl)) a))

  -- The zone is the owner of an NS record, once there is one.
  collect_ns-owner :
      (rrs : List ResourceRecord) (zone : Bytes) (ds : List DelegationNs)
      → ((rr : ResourceRecord) → Member rr rrs → Member rr authority)
      → ((collect_ns rrs zone ds) ≡ (ds, zone))
        ⊎ ((rr : ResourceRecord) × Member rr authority
            × (rr.rtype ≡ type_ns)
            × (to_lower rr.name ≡ (collect_ns rrs zone ds).1))
  unfolding collect_ns
  collect_ns-owner [] zone ds sub = inl refl
  collect_ns-owner (rr ∷ rrs) zone ds sub =
      let is_ns : Bool = rr.rtype == type_ns in
      let z : Bytes = if is_ns then to_lower rr.name else zone in
      let es : List DelegationNs = if is_ns then add_ns (parse_name rr.rdata 0) ds else ds in
      elim (collect_ns-owner rrs z es (λ x m. sub x (inr m))) [
        | inr found ↦ inr found
        | inl same ↦ elim (Bool-cases is_ns) [
          | inr n ↦ inl (ground (arith, same, n))
          | inl t ↦ inr (rr, sub rr (inl refl), ground arith, ground (arith, same, t))
        ]
      ]

collect_glue-nil :
    (ip_string : Bytes → Bytes) (rrs : List ResourceRecord) → collect_glue ip_string rrs [] ≡ []
unfolding collect_glue update_host
collect_glue-nil ip_string [] = refl
collect_glue-nil ip_string (rr ∷ rrs) = elim (Bool-cases (rr.rtype == type_opt)) [
  | inl t ↦ rw t (collect_glue-nil ip_string rrs)
  | inr n ↦ rw n (collect_glue-nil ip_string rrs)
]

-- Whatever order Go walks its map in, a referral with servers has for its zone the owner of an NS
-- record of the authority section; each server is the host of an NS record there, and an address of
-- it is that of an address record which the additional section has under the very name of the host,
-- with the TTL of that record.
pub extract_delegation-IsServer :
    (lib : GoLib) (msg : Message) (d : DelegationNs)
    → ((d : DelegationNs) (ds : List DelegationNs) → Member d (lib.map_order ds) → Member d ds)
    → Member d (extract_delegation lib msg).0
    → IsServer lib.ip_string msg.authority msg.additional d
      × ((rr : ResourceRecord) × Member rr msg.authority
          × (rr.rtype ≡ type_ns)
          × (to_lower rr.name ≡ (extract_delegation lib msg).1))
unfolding extract_delegation
extract_delegation-IsServer lib msg d order m =
    let ds : List DelegationNs = (collect_ns msg.authority [] []).0 in
    let glued = collect_glue lib.ip_string msg.additional ds in
    let found : Member d glued = order d glued m in
    let servers =
      collect_glue-AllServers lib.ip_string msg.authority msg.additional msg.additional ds
        (λ x n. n)
        (collect_ns-AllServers lib.ip_string msg.authority msg.additional msg.authority [] []
          (λ x n. n) tt) in
    (
      AllServers-Member lib.ip_string msg.authority msg.additional d glued servers found,
      elim (collect_ns-owner lib.ip_string msg.authority msg.additional msg.authority [] []
          (λ x n. n)) [
            | inr owner ↦ owner
            | inl none_named ↦
                let empty : ds ≡ [] = ap (λ (p : List DelegationNs × Bytes). p.0) none_named in
                absurd (
                  subst (λ (es : List DelegationNs). Member d es)
                    (ap (collect_glue lib.ip_string msg.additional) empty
                      ∙ collect_glue-nil lib.ip_string msg.additional)
                    found)
          ],
    )
