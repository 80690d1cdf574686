-- ===== src/Security/Acl/Rules.antt =====
-- `CheckWithZone` of security/acl.go, the lists that govern a name, and what they permit.
use labyrinth.Prelude.{
  ◌≤◌, true, false, List, [], ◌∷◌, none, some, Bytes, ◌≡◌, ◌≢◌, ◌⊎◌, ◌↔◌, inl, inr, if◌then◌else◌,
  length, arith, refl, Bool-cases, Option-cases,
}
use labyrinth.Prelude.Select.{Member}
use labyrinth.Security.Bailiwick.Kept.{Belongs, Belongs-below}
use labyrinth.Security.Acl.{
  NetLib, ZoneAcl, Acl, canonical, match_zone, any_contains, is_empty, check_nets, check_with_zone,
}
use labyrinth.Security.Acl.Best.{match_zone-some, match_zone-none}

module _ {Ip Net : Type 0} (lib : NetLib Ip Net) where
  -- Some network of the list holds the address.
  abbrev pub Holding : List Net → Ip → Type 0
  Holding ns ip = (n : Net) × Member n ns × (lib.contains_ip n ip ≡ true)

  -- No network that is denied holds the address, and one that is allowed does if there are any.
  abbrev pub Permits : List Net → List Net → Ip → Type 0
  Permits allow deny ip = (¬ Holding deny ip) × ((allow ≡ []) ⊎ Holding allow ip)

  any_contains-Holding : (ns : List Net) (ip : Ip) → any_contains lib ns ip ≡ true → Holding ns ip
  unfolding any_contains
  any_contains-Holding [] ip h = absurd cc
  any_contains-Holding (n ∷ ns) ip h = elim (Bool-cases (lib.contains_ip n ip)) [
    | inl c ↦ (n, inl refl, c)
    | inr o ↦ let (k, m, c) = any_contains-Holding ns ip (rw o at h) in (k, inr m, c)
  ]

  Holding-any_contains :
      (ns : List Net) (ip : Ip) (n : Net)
      → Member n ns
      → lib.contains_ip n ip ≡ true
      → any_contains lib ns ip ≡ true
  unfolding any_contains
  Holding-any_contains [] ip n m c = absurd m
  Holding-any_contains (k ∷ ns) ip n (inl e) c =
      let d : lib.contains_ip k ip ≡ true = rw e c in rw d
  Holding-any_contains (k ∷ ns) ip n (inr m) c = ground (arith, Holding-any_contains ns ip n m c)

  check_nets-Permits :
      (ip : Ip) (allow deny : List Net)
      → check_nets lib ip allow deny ≡ true
      → Permits allow deny ip
  unfolding check_nets
  check_nets-Permits ip allow deny h =
      (λ d. cc (Holding-any_contains deny ip d.0 d.1 d.2, clear), allowed allow refl)
    where
      clear : any_contains lib deny ip ≡ false
      clear = ground arith

      allowed : (ns : List Net) → allow ≡ ns → (allow ≡ []) ⊎ Holding allow ip
      allowed [] e = inl e
      allowed (n ∷ ns) e =
          let held : any_contains lib allow ip ≡ true = ground (arith, e) in
          inr (any_contains-Holding allow ip held)

  Permits-check_nets :
      (ip : Ip) (allow deny : List Net)
      → Permits allow deny ip
      → check_nets lib ip allow deny ≡ true
  unfolding check_nets
  Permits-check_nets ip allow deny (free, a) = elim (Bool-cases (any_contains lib deny ip)) [
    | inl d ↦ absurd (free (any_contains-Holding deny ip d))
    | inr c ↦ rw c (yes_allowed a)
  ]
    where
      yes_allowed :
          (allow ≡ []) ⊎ Holding allow ip
          → (if is_empty lib allow then true else any_contains lib allow ip) ≡ true
      yes_allowed (inl e) = rw e
      yes_allowed (inr (n, m, c)) = ground (arith, Holding-any_contains allow ip n m c)

  -- The lists that decide on a name: those of the rule with the longest zone that holds it, and the
  -- global ones where no zone does. The root holds every name.
  pub data Governs (acl : Acl Net) (qname : Bytes) : List Net → List Net → Type 0 where
    zone_rule :
        (za : ZoneAcl Net)
        → Member za acl.zones
        → Belongs qname za.zone
        → ((zb : ZoneAcl Net)
            → Member zb acl.zones
            → Belongs qname zb.zone
            → length zb.zone ≤ length za.zone)
        → Governs acl qname za.allow_nets za.deny_nets
    global_rule :
        ((zb : ZoneAcl Net) → Member zb acl.zones → ¬ Belongs qname zb.zone)
        → Governs acl qname acl.allow acl.deny

  check_nets_iff :
      (ip : Ip) (allow deny : List Net)
      → (check_nets lib ip allow deny ≡ true) ↔ Permits allow deny ip
  check_nets_iff ip allow deny =
      (check_nets-Permits ip allow deny, Permits-check_nets ip allow deny)

  check_with_zone-some :
      (acl : Acl Net) (ip_str qname : Bytes) (ip : Ip) (za : ZoneAcl Net)
      → lib.parse_ip ip_str ≡ some ip
      → match_zone acl (canonical qname) ≡ some za
      → check_with_zone lib acl ip_str qname ≡ check_nets lib ip za.allow_nets za.deny_nets
  unfolding check_with_zone
  check_with_zone-some acl ip_str qname ip za p m = ground arith

  check_with_zone-none :
      (acl : Acl Net) (ip_str qname : Bytes) (ip : Ip)
      → lib.parse_ip ip_str ≡ some ip
      → match_zone acl (canonical qname) ≡ none
      → check_with_zone lib acl ip_str qname ≡ check_nets lib ip acl.allow acl.deny
  unfolding check_with_zone
  check_with_zone-none acl ip_str qname ip p m = ground arith

  -- `CheckWithZone` of an address that parses, where no rule is for the root zone: the answer is yes
  -- exactly when no denied network of the lists that govern the name holds the address, and an
  -- allowed one does or none is listed. The lists that govern are those of the rule with the longest
  -- zone that holds the name, or the global ones if no zone does.
  pub check_with_zone_lem :
      (acl : Acl Net) (ip_str qname : Bytes) (ip : Ip)
      → ((za : ZoneAcl Net) → Member za acl.zones → za.zone ≢ [])
      → lib.parse_ip ip_str ≡ some ip
      → (allow : List Net) × (deny : List Net) × Governs acl (canonical qname) allow deny
        × ((check_with_zone lib acl ip_str qname ≡ true) ↔ Permits allow deny ip)
  check_with_zone_lem acl ip_str qname ip named p =
      elim (Option-cases (match_zone acl (canonical qname))) [
        | inr (za, e) ↦
            let (m, u, l) = match_zone-some acl (canonical qname) za e in
            (
              za.allow_nets,
              za.deny_nets,
              zone_rule za m (inr u)
                  (λ zb k b. l zb k (Belongs-below (canonical qname) zb.zone (named zb k) b)),
              rw (check_with_zone-some acl ip_str qname ip za p e) (check_nets_iff ip _ _),
            )
        | inl e ↦ (
          acl.allow,
          acl.deny,
          global_rule (λ zb k b.
              match_zone-none acl (canonical qname) zb e k
                (Belongs-below (canonical qname) zb.zone (named zb k) b)),
          rw (check_with_zone-none acl ip_str qname ip p e) (check_nets_iff ip _ _),
        )
      ]
