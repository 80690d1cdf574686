-- ===== src/Resolver/Delegation/Bounds.antt =====
-- A referral of resolver/delegation.go out of a reply that security/bailiwick.go has filtered.
use labyrinth.Prelude.{ℕ, arith, ◌≡◌, ◌≢◌, List, [], Bytes, inl, inr, subst}
use labyrinth.Prelude.Select.{Member}
use labyrinth.Text.{to_lower}
use labyrinth.Dns.Message.{ResourceRecord, Message, type_a, type_aaaa, type_opt}
use labyrinth.Security.Bailiwick.{sanitize_bailiwick}
use labyrinth.Security.Bailiwick.Kept.{Belongs}
use labyrinth.Security.Bailiwick.Sanitize.{sanitize_bailiwick_iff}
use labyrinth.Resolver.Delegation.{DelegationNs, GoLib, extract_delegation}
use labyrinth.Resolver.Delegation.Referred.{HasGlue4, HasGlue6, extract_delegation-IsServer}

-- A record that is kept beside the OPT records belongs to the zone.
glue-Belongs :
    (msg : Message) (zone host : Bytes) (rr : ResourceRecord)
    → Member rr (sanitize_bailiwick msg zone).additional
    → rr.rtype ≢ type_opt
    → to_lower rr.name ≡ host
    → Belongs host (to_lower zone)
glue-Belongs msg zone host rr m other e = elim ((sanitize_bailiwick_iff msg zone rr).2.0 m).1 [
  | inl opt ↦ absurd (other opt)
  | inr (_, belongs) ↦ subst (λ (h : Bytes). Belongs h (to_lower zone)) e belongs
]

a_not_opt : (t : ℕ) → t ≡ type_a → t ≢ type_opt
a_not_opt t e o = omega arith

aaaa_not_opt : (t : ℕ) → t ≡ type_aaaa → t ≢ type_opt
aaaa_not_opt t e o = omega arith

glue4-Belongs :
    (lib : GoLib) (msg : Message) (zone : Bytes) (d : DelegationNs)
    → HasGlue4 lib.ip_string (sanitize_bailiwick msg zone).additional d
    → d.ipv4 ≢ []
    → Belongs d.hostname (to_lower zone)
glue4-Belongs lib msg zone d (inl nothing) given = absurd (given nothing)
glue4-Belongs lib msg zone d (inr (a, n, t, same, _, _, _, _)) given =
    glue-Belongs msg zone d.hostname a n (a_not_opt _ t) same

glue6-Belongs :
    (lib : GoLib) (msg : Message) (zone : Bytes) (d : DelegationNs)
    → HasGlue6 lib.ip_string (sanitize_bailiwick msg zone).additional d
    → d.ipv6 ≢ []
    → Belongs d.hostname (to_lower zone)
glue6-Belongs lib msg zone d (inl nothing) given = absurd (given nothing)
glue6-Belongs lib msg zone d (inr (a, n, t, same, _, _, _, _)) given =
    glue-Belongs msg zone d.hostname a n (aaaa_not_opt _ t) same

-- A referral out of a reply that was filtered for a zone leads to a zone at or below it, and gives
-- an address only to a host whose name is at or below it. Go may walk its map in any order.
pub extract_delegation-Belongs :
    (lib : GoLib) (msg : Message) (zone : Bytes) (d : DelegationNs)
    → ((d : DelegationNs) (ds : List DelegationNs) → Member d (lib.map_order ds) → Member d ds)
    → let referral = extract_delegation lib (sanitize_bailiwick msg zone) in
      Member d referral.0
      → Belongs referral.1 (to_lower zone)
        × ((d.ipv4 ≢ []) → Belongs d.hostname (to_lower zone))
        × ((d.ipv6 ≢ []) → Belongs d.hostname (to_lower zone))
extract_delegation-Belongs lib msg zone d order m =
    let (server, (rr, n, _, e)) =
      extract_delegation-IsServer lib (sanitize_bailiwick msg zone) d order m in
    (
      subst (λ (z : Bytes). Belongs z (to_lower zone)) e
          ((sanitize_bailiwick_iff msg zone rr).1.0 n).1,
      glue4-Belongs lib msg zone d server.glue4,
      glue6-Belongs lib msg zone d server.glue6,
    )
