-- ===== src/Resolver/Delegation.antt =====
-- resolver/delegation.go and resolver/roots.go, with the helpers of resolver/resolver.go that turn a
-- referral into name servers and cache it.
pub mod Referred
pub mod Bounds
use labyrinth.Prelude.{
  ℕ, zero, suc, ◌+◌, ◌-◌, ◌*◌, ◌%◌, Bool, true, false, ◌||◌, ◌&&◌, not, List, [], ◌∷◌, ◌++◌, map,
  Option, none, some, Bytes, if◌then◌else◌, ltb, ◌==◌,
}
use labyrinth.Text.{equal, to_lower, has_suffix, trim_suffix, split, join, text}
use labyrinth.Text.Zone.{at_or_below}
use labyrinth.Dns.Wire.{Result, ok, err}
use labyrinth.Dns.Message.{
  ResourceRecord, Message, type_a, type_ns, type_cname, type_aaaa, type_opt, type_rrsig, class_in,
}
use labyrinth.Dns.Rdata.{parse_name, parse_a, parse_aaaa, RrsigRecord, parse_rrsig}
use labyrinth.Cache.Store.{Cache, store}
use labyrinth.Resolver.Infra.{NsEntry}

-- `DelegationNS`.
pub record DelegationNs : Type 0 where
  pub hostname : Bytes
  pub ipv4 : Bytes
  pub ipv6 : Bytes
  pub ipv4_ttl : ℕ
  pub ipv6_ttl : ℕ

-- What the resolver takes from Go: the text of an address and its 16 bytes back, the order in which
-- a map is walked, and the mean of two durations.
pub record GoLib : Type 0 where
  pub ip_string : Bytes → Bytes
  pub parse_ip16 : Bytes → Option Bytes
  pub map_order : List DelegationNs → List DelegationNs
  pub mean : ℕ → ℕ → ℕ

-- `nsMap[nsName] = &DelegationNS{…}` where the name is new.
unfoldable pub add_host : Bytes → List DelegationNs → List DelegationNs
add_host host [] = record { hostname = host; ipv4 = []; ipv6 = []; ipv4_ttl = 0; ipv6_ttl = 0 } ∷ []
add_host host (d ∷ ds) = if equal d.hostname host then d ∷ ds else d ∷ add_host host ds

abbrev pub add_ns : Result Bytes → List DelegationNs → List DelegationNs
add_ns (err e) ds = ds
add_ns (ok host) ds = if equal host [] then ds else add_host (to_lower host) ds

-- The loop over the authority section, which starts with no zone and no servers.
unfoldable pub collect_ns :
    List ResourceRecord → Bytes → List DelegationNs → List DelegationNs × Bytes
collect_ns [] zone ds = (ds, zone)
collect_ns (rr ∷ rrs) zone ds =
    let is_ns = rr.rtype == type_ns in
    collect_ns rrs (if is_ns then to_lower rr.name else zone)
      (if is_ns then add_ns (parse_name rr.rdata 0) ds else ds)

-- The write through the pointer in the map.
unfoldable pub update_host :
    Bytes → (DelegationNs → DelegationNs) → List DelegationNs → List DelegationNs
update_host host change [] = []
update_host host change (d ∷ ds) =
    if equal d.hostname host then change d ∷ ds else d ∷ update_host host change ds

abbrev pub set_ipv4 : (Bytes → Bytes) → ℕ → Result Bytes → DelegationNs → DelegationNs
set_ipv4 ip_string ttl (err e) d = d
set_ipv4 ip_string ttl (ok ip) d = record d { ipv4 = ip_string ip; ipv4_ttl = ttl }

abbrev pub set_ipv6 : (Bytes → Bytes) → ℕ → Result Bytes → DelegationNs → DelegationNs
set_ipv6 ip_string ttl (err e) d = d
set_ipv6 ip_string ttl (ok ip) d = record d { ipv6 = ip_string ip; ipv6_ttl = ttl }

-- What one additional record writes into the entry of its name.
abbrev pub with_glue : (Bytes → Bytes) → ResourceRecord → DelegationNs → DelegationNs
with_glue ip_string rr d =
    if rr.rtype == type_a
    then set_ipv4 ip_string rr.ttl (parse_a rr.rdata) d
    else if rr.rtype == type_aaaa
    then set_ipv6 ip_string rr.ttl (parse_aaaa rr.rdata) d
    else d

-- The loop over the additional section.
unfoldable pub collect_glue :
    (Bytes → Bytes) → List ResourceRecord → List DelegationNs → List DelegationNs
collect_glue ip_string [] ds = ds
collect_glue ip_string (rr ∷ rrs) ds = collect_glue ip_string rrs (
    if rr.rtype == type_opt then ds else update_host (to_lower rr.name) (with_glue ip_string rr) ds)

-- `extractDelegation`.
unfoldable pub extract_delegation : GoLib → Message → List DelegationNs × Bytes
extract_delegation lib msg =
    let (ds, zone) = collect_ns msg.authority [] [] in
    (lib.map_order (collect_glue lib.ip_string msg.additional ds), zone)

-- `parts[i:]` for every `i`.
unfoldable pub tails : List Bytes → List (List Bytes)
tails [] = []
tails (l ∷ ls) = (l ∷ ls) ∷ tails ls

unfoldable pub any_parent : Bytes → List Bytes → Bool
any_parent host [] = false
any_parent host (p ∷ ps) = not (equal p []) && at_or_below host p || any_parent host ps

-- `related`: at or below the zone, or at or below a parent of it.
abbrev pub is_related : Bytes → Bytes → Bool
is_related zone host = at_or_below host zone || any_parent host (map join (tails (split zone)))

unfoldable pub unrelated_hosts : Bytes → List DelegationNs → List Bytes
unrelated_hosts zone [] = []
unrelated_hosts zone (d ∷ ds) =
    let host = to_lower (trim_suffix d.hostname (b'.' ∷ [])) in
    let rest = unrelated_hosts zone ds in
    if equal host [] || is_related zone host then rest else d.hostname ∷ rest

-- `strings.Contains(zone, ".")`.
unfoldable pub has_dot : Bytes → Bool
has_dot [] = false
has_dot (c ∷ cs) = c == b'.' || has_dot cs

-- `validateReferralNS`: the host names that it warns of, in order.
unfoldable pub validate_referral_ns : List DelegationNs → Bytes → List Bytes
validate_referral_ns ds zone =
    let z = to_lower (trim_suffix zone (b'.' ∷ [])) in
    if equal zone []
    then []
    else if not (has_dot z)
    then []
    else if equal z (text "arpa") || has_suffix z (text ".arpa")
    then []
    else unrelated_hosts z ds

-- `delegationToNSList`.
unfoldable pub delegation_to_ns_list : List DelegationNs → List NsEntry
delegation_to_ns_list [] = []
delegation_to_ns_list (d ∷ ds) =
    record { hostname = d.hostname; ipv4 = d.ipv4; ipv6 = d.ipv6 } ∷ delegation_to_ns_list ds

-- `NameServer`.
pub record NameServer : Type 0 where
  pub name : Bytes
  pub ipv4 : Bytes
  pub ipv6 : Bytes

-- `toNameServerList`.
unfoldable pub to_name_server_list : List NameServer → List NsEntry
to_name_server_list [] = []
to_name_server_list (s ∷ ss) =
    record { hostname = s.name; ipv4 = s.ipv4; ipv6 = s.ipv6 } ∷ to_name_server_list ss

-- `removeNSByIP`.
unfoldable pub remove_ns_by_ip : List NsEntry → Bytes → List NsEntry
remove_ns_by_ip [] ip = []
remove_ns_by_ip (e ∷ es) ip =
    let rest = remove_ns_by_ip es ip in
    if not (equal e.ipv4 ip) && not (equal e.ipv6 ip) then e ∷ rest else rest

-- `nsHasCNAMERedirect`.
unfoldable pub ns_has_cname_redirect : Bytes → List ResourceRecord → Bool
ns_has_cname_redirect host [] = false
ns_has_cname_redirect host (rr ∷ rrs) =
    rr.rtype == type_cname
      && equal (to_lower (trim_suffix rr.name (b'.' ∷ [])))
          (to_lower (trim_suffix host (b'.' ∷ [])))
    || ns_has_cname_redirect host rrs

-- The loop over the characters of one part, which may be no digits: what is added and what is
-- taken away, so that `val` is the difference.
unfoldable pub part_value : Bytes → ℕ → ℕ → ℕ × ℕ
part_value [] up down = (up, down)
part_value (c ∷ cs) up down = part_value cs (up * 10 + c) (down * 10 + b'0')

abbrev cons_byte : ℕ → Option Bytes → Option Bytes
cons_byte b none = none
cons_byte b (some bs) = some (b ∷ bs)

unfoldable pub part_bytes : List Bytes → Option Bytes
part_bytes [] = some []
part_bytes (p ∷ ps) =
    let (up, down) = part_value p 0 0 in
    if ltb (255 + down) up then none else cons_byte ((up + 255 * down) % 256) (part_bytes ps)

abbrev pub is_four : List Bytes → Bool
is_four (_ ∷ _ ∷ _ ∷ _ ∷ []) = true
is_four _ = false

-- `parseIPv4Bytes`.
unfoldable pub parse_ipv4_bytes : Bytes → Option Bytes
parse_ipv4_bytes s = if is_four (split s) then part_bytes (split s) else none

-- A store that ends, and the next one.
abbrev pub and_then : Option Cache → (Cache → Option Cache) → Option Cache
and_then none next = none
and_then (some c) next = next c

-- `r.cache.Store` of one address record of a server.
abbrev pub address_record : Bytes → ℕ → ℕ → ℕ → Bytes → ResourceRecord
address_record host rtype ttl rd_length ip = record {
  name = host;
  rtype = rtype;
  class = class_in;
  ttl = ttl;
  rd_length = rd_length;
  rdata = ip;
}

abbrev pub store_address : ℕ → Bytes → ℕ → ℕ → ℕ → Option Bytes → Cache → Option Cache
store_address now host rtype ttl rd_length none c = some c
store_address now host rtype ttl rd_length (some ip) c =
    store now c host rtype class_in ((address_record host rtype ttl rd_length ip) ∷ []) []

-- The loop that caches the addresses of the servers of a referral.
unfoldable pub cache_glue : GoLib → ℕ → List DelegationNs → Cache → Option Cache
cache_glue lib now [] c = some c
cache_glue lib now (d ∷ ds) c =
    and_then
      (and_then
        (store_address now d.hostname type_a d.ipv4_ttl 4
          (if equal d.ipv4 [] then none else parse_ipv4_bytes d.ipv4) c)
        (store_address now d.hostname type_aaaa d.ipv6_ttl 16
          (if equal d.ipv6 [] then none else lib.parse_ip16 d.ipv6)))
      (cache_glue lib now ds)

abbrev pub is_ns_signature : Result RrsigRecord → Bool
is_ns_signature (err e) = false
is_ns_signature (ok sig) = sig.type_covered == type_ns

-- `nsAndSigs`.
unfoldable pub delegation_records : List ResourceRecord → Bytes → List ResourceRecord
delegation_records [] zone = []
delegation_records (rr ∷ rrs) zone =
    let rest = delegation_records rrs zone in
    if not (equal (to_lower rr.name) zone)
    then rest
    else if rr.rtype == type_ns || rr.rtype == type_rrsig && is_ns_signature (parse_rrsig rr.rdata)
    then rr ∷ rest
    else rest

-- `hasNS`.
unfoldable pub has_ns_record : List ResourceRecord → Bool
has_ns_record [] = false
has_ns_record (rr ∷ rrs) = rr.rtype == type_ns || has_ns_record rrs

-- `cacheDelegation`.
unfoldable pub cache_delegation : ℕ → Message → Bytes → Cache → Option Cache
cache_delegation now msg zone c =
    let rrs = delegation_records msg.authority (to_lower zone) in
    if has_ns_record rrs then store now c zone type_ns class_in rrs [] else some c
