-- ===== src/Resolver/Iterate/Trap.antt =====
-- `resolveNSAddr` of resolver/resolver.go on a delegation to a server inside the zone, without glue.
use labyrinth.Prelude.{
  ℕ, zero, suc, ◌+◌, ◌-◌, ◌≡◌, true, false, [], ◌∷◌, none, some, Bytes, refl, ap, ltb,
  if◌then◌else◌, inl, inr, Bool-cases, arith,
}
use labyrinth.Prelude.Bits.{bool_eq}
use labyrinth.Text.{equal, to_lower, trim_suffix}
use labyrinth.Dns.Message.{Message, type_a, type_aaaa, class_in}
use labyrinth.Security.Bailiwick.{contains, in_zone, sanitize_bailiwick}
use labyrinth.Cache.Store.{Cache}
use labyrinth.Cache.Reads.{get, miss}
use labyrinth.Resolver.Classify.{referral, classify_response}
use labyrinth.Resolver.Infra.{NsEntry, InfraCache, record_rtt, insert_entry, sort_by_rtt}
use labyrinth.Resolver.Upstream.{got, query_upstream}
use labyrinth.Resolver.Delegation.{
  extract_delegation, NameServer, to_name_server_list, delegation_to_ns_list, cache_delegation,
  cache_glue,
}
use labyrinth.Resolver.World.{World, Resolver, endless, Visited, new_visited_set, add}
use labyrinth.Resolver.Servers.{
  Selection, selected, unreachable, stuck, Lookup, or_search, ask_address, first_ipv4, first_ipv6,
  search_cache, ask_pass, select_and_resolve_ns,
}
use labyrinth.Resolver.Iterate.{
  next_round, step, with_server, ask_server, first_reply, rounds, resolve_from, resolve_iterative,
  resolve_ns_addr,
}
use labyrinth.Resolver.Replies.{go_on, Again, dispatch, follow_referral, query_key}

-- There is one root server, with an IPv4 address, two rounds or more are allowed, and names are not
-- minimized. Whenever it is asked for the address of the host, the server answers with a referral to
-- a zone that holds the host, whose only server is the host itself, without an address. The cache
-- does not store the referral, and misses for the host at all times.
pub record IsTrap (r : Resolver) (c : Cache) (host : Bytes) (m : Message) : Type 0 where
  pub depth : ℕ
  pub deep : r.cfg.max_depth ≡ suc (suc depth)
  pub plain : r.cfg.qmin_enabled ≡ false
  pub root : NameServer
  pub roots : r.root_servers ≡ root ∷ []
  pub addressed : equal root.ipv4 [] ≡ false
  pub normal : to_lower (trim_suffix host (b'.' ∷ [])) ≡ host
  pub replies :
      (clock : ℕ)
      → query_upstream r.out r.cfg clock root.ipv4 host type_a class_in ≡ (got m, clock + 1)
  pub refers : classify_response (sanitize_bailiwick m []) host type_a ≡ referral
  pub zone : Bytes
  pub ttl4 : ℕ
  pub ttl6 : ℕ
  pub delegated : extract_delegation r.lib (sanitize_bailiwick m []) ≡ (
    record { hostname = host; ipv4 = []; ipv6 = []; ipv4_ttl = ttl4; ipv6_ttl = ttl6 } ∷ [],
    zone,
  )
  pub inside : in_zone host zone ≡ true
  pub unstored : (now : ℕ) → cache_delegation now (sanitize_bailiwick m []) zone c ≡ some c
  pub misses : (now qtype : ℕ) → get now c host qtype class_in ≡ miss c

abbrev itself : Bytes → NsEntry
itself host = record { hostname = host; ipv4 = []; ipv6 = [] }

module _ (r : Resolver) (c : Cache) (host : Bytes) (m : Message) (trap : IsTrap r c host m) where
  abbrev at : InfraCache → ℕ → World
  at infra clock = record { cache = c; infra = infra; clock = clock }

  abbrev Never : Lookup → Type 0
  Never lookup =
      (infra : InfraCache) (clock : ℕ) → (lookup host type_a (at infra clock)).0 ≡ endless

  search_cache-misses :
      (lookup : Lookup) (qtype : ℕ) (infra : InfraCache) (clock : ℕ)
      → search_cache r lookup qtype (itself host ∷ []) (at infra clock)
        ≡ (unreachable, at infra clock)
  unfolding search_cache
  search_cache-misses lookup qtype infra clock = rw (trap.misses (r.out.now clock) qtype) refl

  ask_pass-outside :
      (lookup : Lookup) (w : World)
      → ask_pass r lookup false trap.zone (itself host ∷ []) w ≡ (unreachable, w)
  unfolding ask_pass bool_eq
  ask_pass-outside lookup w = rw trap.inside refl

  first_stuck :
      (s : Selection × World) (next : World → Selection × World)
      → s.0 ≡ stuck
      → (or_search s next).0 ≡ stuck
  first_stuck (selected h ip, w) next e = cc
  first_stuck (unreachable, w) next e = cc
  first_stuck (stuck, w) next e = refl

  ask_pass-inside :
      (lookup : Lookup) (infra : InfraCache) (clock : ℕ)
      → Never lookup
      → (ask_pass r lookup true trap.zone (itself host ∷ []) (at infra clock)).0 ≡ stuck
  unfolding ask_pass bool_eq
  ask_pass-inside lookup infra clock never = rw trap.inside (
      first_stuck _ _ (
        first_stuck (ask_address r lookup type_a (itself host) (at infra clock)) _
          (rw (never infra clock) refl)))

  -- The second round has to look for the address of the host.
  select-stuck :
      (lookup : Lookup) (infra : InfraCache) (clock : ℕ)
      → Never lookup
      → (select_and_resolve_ns r lookup (itself host ∷ []) trap.zone (at infra clock)).0 ≡ stuck
  unfolding select_and_resolve_ns sort_by_rtt insert_entry first_ipv4 first_ipv6 equal
  select-stuck lookup infra clock never =
      let six : (if r.cfg.prefer_ipv4 then unreachable else unreachable) ≡ unreachable =
        elim (Bool-cases r.cfg.prefer_ipv4) [ inl p ↦ rw p refl | inr n ↦ rw n refl ] in
      rw
        (
          six,
          search_cache-misses lookup type_a infra clock,
          search_cache-misses lookup type_aaaa infra clock,
          ask_pass-outside lookup (at infra clock),
        )
        (ask_pass-inside lookup infra clock never)

  abbrev root_entry : NsEntry
  root_entry = record { hostname = trap.root.name; ipv4 = trap.root.ipv4; ipv6 = trap.root.ipv6 }

  select-root :
      (lookup : Lookup) (w : World)
      → select_and_resolve_ns r lookup (root_entry ∷ []) [] w
        ≡ (selected trap.root.name trap.root.ipv4, w)
  unfolding select_and_resolve_ns sort_by_rtt insert_entry first_ipv4
  select-root lookup w = rw trap.addressed refl

  -- The referral that the first round follows.
  refer :
      (lookup : Lookup) (again : Again) (v : Visited) (infra : InfraCache) (clock : ℕ)
      → dispatch r lookup again host type_a class_in false referral
          (sanitize_bailiwick m [])
          trap.root.ipv4
          (root_entry ∷ [])
          []
          none
          v
          (at infra clock)
        ≡ go_on (itself host ∷ []) trap.zone none v (at infra clock)
  unfolding dispatch follow_referral cache_glue delegation_to_ns_list equal
  refer lookup again v infra clock = rw (trap.delegated, trap.unstored (r.out.now clock)) refl

  first_round :
      (lookup : Lookup) (again : Again) (infra : InfraCache) (clock : ℕ)
      → (v : Visited) × (infra' : InfraCache) × (step r lookup again host type_a class_in false
            (root_entry ∷ [])
            []
            none
            new_visited_set
            (at infra clock)
          ≡ go_on (itself host ∷ []) trap.zone none v (at infra' (clock + 1)))
  unfolding step with_server ask_server first_reply contains
  first_round lookup again infra clock =
      let v = add new_visited_set (query_key trap.root.ipv4 host []) in
      let spent = r.out.now (clock + 1) - r.out.now clock in
      let infra' = record_rtt r.lib.mean (r.out.now (clock + 1)) trap.root.ipv4 spent infra in
      (
        v,
        infra',
        rw (select-root lookup (at infra clock)) (
            simp (trap.plain, trap.replies clock, trap.refers)
              (refer lookup again v infra' (clock + 1))),
      )

  -- A round without a choice ends the loop.
  stuck_round :
      (lookup : Lookup) (again : Again) (s : Selection × World) (v : Visited)
      → s.0 ≡ stuck
      → (next_round r lookup again host type_a class_in false
          (rounds r lookup again host type_a class_in false trap.depth)
          (with_server r lookup again host type_a class_in false s
            (itself host ∷ [])
            trap.zone
            none
            v)).final
        ≡ endless
  unfolding with_server
  stuck_round lookup again (selected h ip, w) v e = cc
  stuck_round lookup again (unreachable, w) v e = cc
  stuck_round lookup again (stuck, w) v e = refl

  two_rounds :
      (lookup : Lookup) (again : Again) (infra : InfraCache) (clock : ℕ)
      → Never lookup
      → (rounds r lookup again host type_a class_in false
          (suc (suc trap.depth))
          (root_entry ∷ [])
          []
          none
          new_visited_set
          (at infra clock)).final
        ≡ endless
  unfolding rounds step
  two_rounds lookup again infra clock never =
      let (v, infra', first) = first_round lookup again infra clock in
      rw first (stuck_round lookup again _ v (select-stuck lookup infra' (clock + 1) never))

  trapped :
      (lookup : Lookup) (fuel : ℕ) (infra : InfraCache) (clock : ℕ)
      → Never lookup
      → (resolve_from r lookup type_a class_in false
          (suc fuel)
          host
          0
          new_visited_set
          (root_entry ∷ [])
          []
          (at infra clock)).final
        ≡ endless
  unfolding resolve_from
  trapped lookup fuel infra clock never =
      let fine : ltb r.cfg.max_cname_depth 0 ≡ false = ground arith in
      simp (fine, trap.deep) (two_rounds lookup _ infra clock never)

  roots_known : to_name_server_list r.root_servers ≡ root_entry ∷ []
  unfolding to_name_server_list
  roots_known = ap to_name_server_list trap.roots

  resolve_ns_addr-Never : (fuel : ℕ) → Never (resolve_ns_addr r fuel)
  unfolding resolve_ns_addr resolve_iterative
  resolve_ns_addr-Never zero infra clock = refl
  resolve_ns_addr-Never (suc fuel) infra clock =
      let more : r.cfg.max_cname_depth + 2 ≡ suc (suc r.cfg.max_cname_depth) = omega arith in
      simp (trap.normal, roots_known, more)
        (trapped (resolve_ns_addr r fuel) (suc r.cfg.max_cname_depth) infra clock
          (resolve_ns_addr-Never fuel))

-- Let there be one root server, with an IPv4 address, at least two rounds, no minimizing of names, and
-- a cache that does not store the referral below and misses for the host at all times. If the server
-- always answers the question for the address of the host with a referral to a zone that holds the
-- host, whose only server is the host, without an address, then the search for that address never
-- ends, however deep it goes: each time the host would have to be asked for its own address, with new
-- visited sets.
pub resolve_ns_addr-endless :
    (r : Resolver) (host : Bytes) (m : Message) (w : World)
    → IsTrap r w.cache host m
    → (fuel : ℕ) → (resolve_ns_addr r fuel host type_a w).0 ≡ endless
resolve_ns_addr-endless r host m w trap fuel =
    resolve_ns_addr-Never r w.cache host m trap fuel w.infra w.clock
