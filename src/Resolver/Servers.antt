-- ===== src/Resolver/Servers.antt =====
-- `selectAndResolveNS` of resolver/resolver.go: the server that is asked next, and its address.
-- `resolveNSAddr` is the argument `lookup`.
pub mod Fastest
use labyrinth.Prelude.{
  ℕ, Bool, true, false, ◌&&◌, not, List, [], ◌∷◌, Option, none, some, Bytes, if◌then◌else◌, ◌==◌,
}
use labyrinth.Prelude.Bits.{bool_eq}
use labyrinth.Text.{equal}
use labyrinth.Dns.Wire.{Result, ok, err}
use labyrinth.Dns.Message.{ResourceRecord, type_a, type_aaaa, class_in}
use labyrinth.Dns.Rdata.{parse_a, parse_aaaa}
use labyrinth.Security.Bailiwick.{in_zone}
use labyrinth.Cache.Entry.{Entry}
use labyrinth.Cache.Reads.{get}
use labyrinth.Resolver.Infra.{NsEntry, sort_by_rtt}
use labyrinth.Resolver.Delegation.{ns_has_cname_redirect}
use labyrinth.Resolver.World.{World, Resolver, Final, done, gave_up, endless}

-- A server's name and address, none, or a search that does not end.
pub data Selection : Type 0 where
  selected : Bytes → Bytes → Selection
  unreachable stuck : Selection

-- `resolveNSAddr`.
abbrev pub Lookup : Type 0
Lookup = Bytes → ℕ → World → Final × World

-- The first server with an IPv4 address, and with an IPv6 address.
unfoldable pub first_ipv4 : List NsEntry → Selection
first_ipv4 [] = unreachable
first_ipv4 (e ∷ es) = if equal e.ipv4 [] then first_ipv4 es else selected e.hostname e.ipv4

unfoldable pub first_ipv6 : List NsEntry → Selection
first_ipv6 [] = unreachable
first_ipv6 (e ∷ es) = if equal e.ipv6 [] then first_ipv6 es else selected e.hostname e.ipv6

-- One search, and the next where it finds nothing.
abbrev pub or_search : Selection × World → (World → Selection × World) → Selection × World
or_search (selected host ip, w) next = (selected host ip, w)
or_search (unreachable, w) next = next w
or_search (stuck, w) next = (stuck, w)

abbrev pub or_parsed : (Bytes → Bytes) → Bytes → Result Bytes → Selection → Selection
or_parsed ip_string host (err e) rest = rest
or_parsed ip_string host (ok ip) rest = selected host (ip_string ip)

-- The parser of addresses of one type.
abbrev pub parse_address : ℕ → Bytes → Result Bytes
parse_address qtype rdata = if qtype == type_a then parse_a rdata else parse_aaaa rdata

-- The first record that parses as an address; the cached records are taken whatever their type, the
-- answers only with the type that was asked for.
unfoldable pub first_address : (Bytes → Bytes) → Bool → ℕ → Bytes → List ResourceRecord → Selection
first_address ip_string any_type qtype host [] = unreachable
first_address ip_string any_type qtype host (rr ∷ rrs) =
    let rest = first_address ip_string any_type qtype host rrs in
    if not any_type && not (rr.rtype == qtype)
    then rest
    else or_parsed ip_string host (parse_address qtype rr.rdata) rest

abbrev pub cached_address : (Bytes → Bytes) → ℕ → Bytes → Option Entry → Selection
cached_address ip_string qtype host none = unreachable
cached_address ip_string qtype host (some e) = first_address ip_string true qtype host e.records

-- What the answer to the question for an address gives.
abbrev pub resolved_address : (Bytes → Bytes) → ℕ → Bytes → Final → Selection
resolved_address ip_string qtype host (done result) =
    if ns_has_cname_redirect host result.answers
    then unreachable
    else first_address ip_string false qtype host result.answers
resolved_address ip_string qtype host (gave_up e) = unreachable
resolved_address ip_string qtype host endless = stuck

module _ (r : Resolver) (lookup : Lookup) where
  abbrev now_in : World → ℕ
  now_in w = r.out.now w.clock

  -- The loop over the servers that looks into the cache.
  unfoldable pub search_cache : ℕ → List NsEntry → World → Selection × World
  search_cache qtype [] w = (unreachable, w)
  search_cache qtype (e ∷ es) w =
      let g = get (now_in w) w.cache e.hostname qtype class_in in
      or_search
        (cached_address r.lib.ip_string qtype e.hostname g.found, record w { cache = g.cache })
        (search_cache qtype es)

  abbrev pub ask_address : ℕ → NsEntry → World → Selection × World
  ask_address qtype e w =
      let (final, w') = lookup e.hostname qtype w in
      (resolved_address r.lib.ip_string qtype e.hostname final, w')

  -- One pass over the servers, which skips those in the zone or those outside it.
  unfoldable pub ask_pass : Bool → Bytes → List NsEntry → World → Selection × World
  ask_pass inside zone [] w = (unreachable, w)
  ask_pass inside zone (e ∷ es) w =
      or_search
        (if bool_eq (in_zone e.hostname zone) inside
          then or_search (ask_address type_a e w) (ask_address type_aaaa e)
          else (unreachable, w))
        (ask_pass inside zone es)

  -- `selectAndResolveNS`.
  unfoldable pub select_and_resolve_ns : List NsEntry → Bytes → World → Selection × World
  select_and_resolve_ns servers zone w =
      let sorted = sort_by_rtt w.infra servers in
      or_search (first_ipv4 sorted, w)
        λ w.
          or_search (if r.cfg.prefer_ipv4 then unreachable else first_ipv6 sorted, w)
            λ w. or_search (search_cache type_a sorted w) λ w.
              or_search (search_cache type_aaaa sorted w)
                λ w. or_search (ask_pass false zone sorted w) λ w. ask_pass true zone sorted w
