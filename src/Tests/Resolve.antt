-- ===== src/Tests/Resolve.antt =====
-- The theorems on the resolution at concrete worlds.
use labyrinth.Prelude.{
  ap, ◌≡◌, ◌≢◌, ◌⊎◌, refl, ℕ, ◌+◌, ◌<◌, ◌≤◌, true, false, List, [], ◌∷◌, Option, none, some, Bytes,
  inl, inr, length, map,
}
use labyrinth.Prelude.Select.{Member}
use labyrinth.Text.{equal, to_lower, has_suffix, trim_suffix, split, text}
use labyrinth.Dns.Name.{decode_loop, decode_name}
use labyrinth.Dns.Message.{type_a, class_in, rcode_nx_domain}
use labyrinth.Dns.Rdata.{parse_name, parse_a}
use labyrinth.Security.Bailiwick.{
  contains, in_zone, filter_in_zone, keep_in_zone, ns_names, keep_glue, sanitize_bailiwick,
}
use labyrinth.Security.Bailiwick.Kept.{Belongs}
use labyrinth.Resolver.Infra.{NsEntry}
use labyrinth.Dnssec.Nsec.{count_dots}
use labyrinth.Resolver.Upstream.{no_reply, retries}
use labyrinth.Resolver.Upstream.Accepted.{IsAttempt, query_upstream-IsAttempt}
use labyrinth.Resolver.Upstream.{comparable}
use labyrinth.Resolver.Delegation.{
  DelegationNs, collect_ns, add_host, update_host, collect_glue, extract_delegation,
}
use labyrinth.Resolver.Delegation.Bounds.{extract_delegation-Belongs}
use labyrinth.Resolver.World.{
  Verdict, Status, Validator, Final, ResolveResult, done, gave_up, new_visited_set,
}
use labyrinth.Resolver.Servers.{Lookup, selected, select_and_resolve_ns}
use labyrinth.Resolver.Servers.Fastest.{IsFastest, select_and_resolve_ns-IsFastest}
use labyrinth.Resolver.Iterate.{resolve_from, resolve_iterative}
use labyrinth.Resolver.Iterate.Verdicts.{
  Holds, IsGuarded, IsEmptyFailure, resolve_from-IsGuarded, resolve_from-NeverSecure,
  resolve_from-IsEmptyFailure,
}
use labyrinth.Resolver.Iterate.Asked.{IsDistinct, resolve_iterative-IsDistinct}
use labyrinth.Resolver.LocalZone.{
  LocalZone, local_static, normal_zone, new_local_zone_table, find_zone, local_lookup, only_code,
}
use labyrinth.Resolver.LocalZone.Specific.{Finds, SortsZones, find_zone-new_local_zone_table}
use labyrinth.Resolver.Forward.{ForwardZone, match_forward}
use labyrinth.Resolver.Forward.Longest.{Matches, match_forward-Matches}
use labyrinth.Resolver.Resolve.{Front, resolve}
use labyrinth.Resolver.Resolve.Guards.{resolve-IsReserved}
use labyrinth.Tests.Samples.{reply, address}
use labyrinth.Tests.Iterate.{
  answers_with, config, referral_bytes, referral_message, referral_reply, root, go_lib,
  resolver_with, fresh,
}

-- The address of no other server is known.
abbrev pub no_lookup : Lookup
no_lookup host qtype w = (gave_up no_reply, w)

-- A validator that trusts nothing.
abbrev pub distrust : Validator
distrust msg name qtype w = (Verdict.bogus, w)

-- An authoritative answer to the question for the address of "ns.x".
abbrev pub answer_bytes : Bytes
answer_bytes =
    0 ∷ 7 ∷ 0x84 ∷ 0 ∷ 0 ∷ 1 ∷ 0 ∷ 1 ∷ 0 ∷ 0 ∷ 0 ∷ 0 ∷ 2 ∷ b'n' ∷ b's' ∷ 1 ∷ b'x' ∷ 0 ∷ 0 ∷ 1 ∷ 0
    ∷ 1 ∷ 0xC0 ∷ 12 ∷ 0 ∷ 1 ∷ 0 ∷ 1 ∷ 0 ∷ 0 ∷ 1 ∷ 44 ∷ 0 ∷ 4 ∷ 192 ∷ 0 ∷ 2 ∷ 7 ∷ []

abbrev pub front_with : Bytes → Option Validator → Front
front_with bytes validator = record {
  resolver = resolver_with bytes validator;
  local_zones = [];
  forward_table = [];
  dns64_prefix = record { address = []; ones = 96; bits = 128 };
  pick = λ clock. 0;
}

resolve_iterative-IsDistinct_example :
    let asked =
      (resolve_iterative
        (resolver_with referral_bytes none)
        no_lookup
        (text "ns.x")
        type_a
        class_in
        fresh).visited.ns in
    IsDistinct asked × (length asked ≤ 330)
resolve_iterative-IsDistinct_example =
    resolve_iterative-IsDistinct (resolver_with referral_bytes none) no_lookup (text "ns.x") type_a
      class_in fresh

abbrev from_root : Bytes → Option Validator → Final
from_root bytes validator =
    (resolve_from (resolver_with bytes validator) no_lookup type_a class_in false 12 (text "ns.x") 0
      new_visited_set (record { hostname = root.name; ipv4 = root.ipv4; ipv6 = [] } ∷ []) []
      fresh).final

resolve_from-IsGuarded_example : Holds IsGuarded (from_root answer_bytes (some distrust))
resolve_from-IsGuarded_example =
    resolve_from-IsGuarded (resolver_with answer_bytes (some distrust)) no_lookup false type_a
      class_in 12 (text "ns.x") 0 new_visited_set
      (record { hostname = root.name; ipv4 = root.ipv4; ipv6 = [] } ∷ []) [] fresh

resolve_from-NeverSecure_example :
    Holds (λ result. result.status ≢ Status.secure) (from_root answer_bytes (some distrust))
resolve_from-NeverSecure_example =
    resolve_from-NeverSecure (resolver_with answer_bytes (some distrust)) no_lookup false type_a
      class_in 12 (text "ns.x") 0 new_visited_set
      (record { hostname = root.name; ipv4 = root.ipv4; ipv6 = [] } ∷ []) [] fresh
      (λ msg name qtype w e. cc)

resolve_from-IsEmptyFailure_example : Holds IsEmptyFailure (from_root answer_bytes (some distrust))
resolve_from-IsEmptyFailure_example =
    resolve_from-IsEmptyFailure (resolver_with answer_bytes (some distrust)) no_lookup type_a
      class_in 12 (text "ns.x") 0 new_visited_set
      (record { hostname = root.name; ipv4 = root.ipv4; ipv6 = [] } ∷ []) [] fresh
      (λ msg name qtype w. refl)

resolve-IsReserved_example :
    (result : ResolveResult) × (resolve
        (front_with referral_bytes none)
        no_lookup
        (text "Foo.Onion.")
        type_a
        class_in
        fresh
      ≡ (done result, fresh))
    × ((local_lookup [] (text "foo.onion") type_a class_in ≡ some result)
        ⊎ (result ≡ only_code rcode_nx_domain))
unfolding to_lower trim_suffix has_suffix equal split
resolve-IsReserved_example =
    resolve-IsReserved (front_with referral_bytes none) no_lookup (text "Foo.Onion.") type_a
      class_in fresh (text "onion", inl refl, (text "foo" ∷ [], refl))

query_upstream-IsAttempt_example :
    (k : ℕ) × (0 ≤ k)
    × (k < 0 + retries config)
    × (1 ≡ k + 1)
    × (a : IsAttempt
        (answers_with referral_bytes)
        config
        (text "ns.x")
        type_a
        class_in
        k
        referral_message)
    × (comparable false a.matching.asked.name ≡ comparable false (text "ns.x"))
query_upstream-IsAttempt_example =
    query_upstream-IsAttempt (answers_with referral_bytes) config 0 (text "192.0.2.1") (text "ns.x")
      type_a class_in referral_message 1 (referral_reply 0)

abbrev pub root_entry : NsEntry
root_entry = record { hostname = root.name; ipv4 = root.ipv4; ipv6 = [] }

select_and_resolve_ns-IsFastest_example :
    (host : Bytes) × (ip : Bytes) × (select_and_resolve_ns
        (resolver_with referral_bytes none)
        no_lookup
        (root_entry ∷ [])
        []
        fresh
      ≡ (selected host ip, fresh))
    × IsFastest [] (root_entry ∷ []) host ip
select_and_resolve_ns-IsFastest_example =
    select_and_resolve_ns-IsFastest (resolver_with referral_bytes none) no_lookup (root_entry ∷ [])
      [] fresh root_entry (inl refl) (λ e. cc)

abbrev zones : List ForwardZone
zones =
    record { name = text "com"; addrs = []; is_stub = false }
    ∷ record { name = text "example.com"; addrs = []; is_stub = true }
    ∷ []

zones_named : (z : ForwardZone) → Member z zones → z.name ≢ []
zones_named z (inl e) n = let same = ap (λ (x : ForwardZone). x.name) e in cc
zones_named z (inr (inl e)) n = let same = ap (λ (x : ForwardZone). x.name) e in cc
zones_named z (inr (inr m)) n = m

match_forward-Matches_example :
    Matches zones
      (to_lower (trim_suffix (text "www.Example.com.") (b'.' ∷ [])))
      (match_forward zones (text "www.Example.com."))
match_forward-Matches_example = match_forward-Matches zones (text "www.Example.com.") zones_named

abbrev local_zones : List LocalZone
local_zones =
    record { name = text "Home.lan."; zone_type = local_static; records = [] }
    ∷ record { name = text "lan"; zone_type = local_static; records = [] }
    ∷ []

-- These two zones are in order already.
as_they_are : SortsZones (λ before zs. zs) (map normal_zone local_zones)
unfolding to_lower trim_suffix has_suffix equal count_dots
as_they_are = (λ z. (λ m. m, λ m. m), ((refl, tt), (tt, tt)))

local_zones_named : (z : LocalZone) → Member z (map normal_zone local_zones) → z.name ≢ []
unfolding to_lower trim_suffix has_suffix equal
local_zones_named z (inl e) n = let same = ap (λ (x : LocalZone). x.name) e in cc
local_zones_named z (inr (inl e)) n = let same = ap (λ (x : LocalZone). x.name) e in cc
local_zones_named z (inr (inr m)) n = m

find_zone-new_local_zone_table_example :
    Finds
      (map normal_zone local_zones)
      (text "nas.home.lan")
      (find_zone (new_local_zone_table (λ before zs. zs) local_zones) (text "nas.home.lan"))
find_zone-new_local_zone_table_example =
    find_zone-new_local_zone_table (λ before zs. zs) local_zones (text "nas.home.lan") as_they_are
      local_zones_named

-- The host that the referral of `reply` leads to, with the address of its glue.
abbrev referred_to : DelegationNs
referred_to = record {
  hostname = text "ns.example.com";
  ipv4 = address;
  ipv6 = [];
  ipv4_ttl = 300;
  ipv6_ttl = 0;
}

is_referred_to :
    Member referred_to (extract_delegation go_lib (sanitize_bailiwick reply (text "example.com"))).0
unfolding extract_delegation collect_ns collect_glue add_host update_host sanitize_bailiwick
    filter_in_zone keep_in_zone in_zone contains keep_glue ns_names equal to_lower trim_suffix
    has_suffix parse_name parse_a decode_name decode_loop
is_referred_to = inl refl

extract_delegation-Belongs_example :
    let referral = extract_delegation go_lib (sanitize_bailiwick reply (text "example.com")) in
    Belongs referral.1 (text "example.com")
    × ((referred_to.ipv4 ≢ []) → Belongs referred_to.hostname (text "example.com"))
    × ((referred_to.ipv6 ≢ []) → Belongs referred_to.hostname (text "example.com"))
unfolding to_lower
extract_delegation-Belongs_example =
    extract_delegation-Belongs go_lib reply (text "example.com") referred_to (λ d ds m. m)
      is_referred_to
