-- ===== src/Tests/Security.antt =====
-- Runs of the bailiwick filter and of the access rules.
use labyrinth.Prelude.{
  ℕ, ◌≡◌, ◌≢◌, ◌↔◌, refl, ap, inl, inr, true, List, [], ◌∷◌, Option, none, some, Bytes, ◌==◌,
}
use labyrinth.Prelude.Select.{Member}
use labyrinth.Text.{equal, to_lower, has_suffix, trim_suffix}
use labyrinth.Dns.Message.{Message}
use labyrinth.Security.Bailiwick.{
  contains, in_zone, filter_in_zone, keep_in_zone, ns_names, keep_glue, sanitize_bailiwick,
}
use labyrinth.Security.Bailiwick.Kept.{Belongs}
use labyrinth.Security.Bailiwick.Sound.{MayStay}
use labyrinth.Security.Bailiwick.Sanitize.{sanitize_bailiwick_iff}
use labyrinth.Security.Acl.{
  NetLib, ZoneAcl, Acl, in_zone_or_equal, canonical, match_from, match_zone, parse_nets,
  add_zone_acl, check_with_zone,
}
use labyrinth.Security.Acl.Rules.{Governs, Permits, check_with_zone_lem}
use labyrinth.Tests.Names.{text}
use labyrinth.Tests.Samples.{www, server, glue, reply, header_of}

abbrev zone : Bytes
zone = text "Example.com"

abbrev clean : Message
clean = record {
  header = header_of 0x8400 2;
  questions = [];
  answers = www ∷ [];
  authority = server ∷ [];
  additional = glue ∷ [];
  edns0 = none;
}

-- The zone, the names and the glue of the sanitized reply.
sanitize_run : sanitize_bailiwick reply zone ≡ clean
unfolding sanitize_bailiwick filter_in_zone keep_in_zone keep_glue contains in_zone ns_names
    labyrinth.Dns.Rdata.parse_name labyrinth.Dns.Name.decode_name labyrinth.Dns.Name.decode_loop
    to_lower equal has_suffix
sanitize_run = refl

sanitize_bailiwick_iff_example :
    (Member glue (sanitize_bailiwick reply zone).answers
      ↔ (Member glue reply.answers × Belongs (to_lower glue.name) (to_lower zone)))
    × (Member glue (sanitize_bailiwick reply zone).authority
        ↔ (Member glue reply.authority × Belongs (to_lower glue.name) (to_lower zone)))
    × (Member glue (sanitize_bailiwick reply zone).additional ↔ (
        Member glue reply.additional
        × MayStay (sanitize_bailiwick reply zone).authority (to_lower zone) glue))
sanitize_bailiwick_iff_example = sanitize_bailiwick_iff reply zone glue

-- Addresses and networks of one byte each: a network holds the address that is equal to it.
abbrev one_byte : Bytes → Option ℕ
one_byte [] = none
one_byte (c ∷ cs) = some c

abbrev bytes_lib : NetLib ℕ ℕ
bytes_lib = record { parse_ip = one_byte; parse_cidr = one_byte; contains_ip = ◌==◌ }

abbrev com_rule : ZoneAcl ℕ
com_rule = record { zone = text "com"; allow_nets = []; deny_nets = b'a' ∷ [] }

abbrev example_rule : ZoneAcl ℕ
example_rule = record { zone = text "example.com"; allow_nets = b'a' ∷ []; deny_nets = [] }

abbrev rules : Acl ℕ
rules = record { allow = b'z' ∷ []; deny = []; zones = com_rule ∷ example_rule ∷ [] }

-- The rules come from their texts.
rules_run :
    add_zone_acl bytes_lib
      (record { allow = b'z' ∷ []; deny = []; zones = com_rule ∷ [] })
      (text "Example.COM.")
      (text "a" ∷ [])
      []
    ≡ some rules
unfolding add_zone_acl parse_nets canonical to_lower trim_suffix has_suffix equal
rules_run = refl

match_zone_run : match_zone rules (text "www.example.com") ≡ some example_rule
unfolding match_zone match_from in_zone_or_equal equal has_suffix
match_zone_run = refl

unmatched_run : match_zone rules (text "example.org") ≡ none
unfolding match_zone match_from in_zone_or_equal equal has_suffix
unmatched_run = refl

rules_named : (za : ZoneAcl ℕ) → Member za rules.zones → za.zone ≢ []
rules_named za (inl e) z = let same = ap (λ (r : ZoneAcl ℕ). r.zone) e in cc
rules_named za (inr (inl e)) z = let same = ap (λ (r : ZoneAcl ℕ). r.zone) e in cc
rules_named za (inr (inr m)) z = m

check_with_zone_lem_example :
    (allow : List ℕ) × (deny : List ℕ) × Governs bytes_lib rules
      (canonical (text "www.example.com"))
      allow
      deny
    × ((check_with_zone bytes_lib rules (text "a") (text "www.example.com") ≡ true)
        ↔ Permits bytes_lib allow deny b'a')
check_with_zone_lem_example =
    check_with_zone_lem bytes_lib rules (text "a") (text "www.example.com") b'a' rules_named refl
