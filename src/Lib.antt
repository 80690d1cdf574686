-- ===== src/Lib.antt =====
-- Labyrinth is a recursive DNS resolver in Go. These modules model its core and state what it
-- promises.
--
-- A query reaches server/, is checked against the access rules of security/ and the block lists of
-- blocklist/, and is answered from cache/ or by resolver/, which asks upstream servers through
-- dns/, sanitizes and classifies each reply and stores it in the cache.
--
--   * Text, Prelude: texts as lists of bytes, the split at dots, and the lemmas the parts share.
--     IsUnder of Text.Zone says "at or below" on labels; the code writes the test on texts in five
--     places.
--   * Dns.Wire, Dns.Name, Dns.Message, Dns.Rdata, Dns.Edns, Dns.Record: dns/wire.go (reader,
--     writer, Unpack), dns/name.go, dns/message.go, dns/types.go, dns/record.go, dns/question.go
--     and parts of dns/header.go, dns/rdata.go and dns/edns.go. A failing function returns a
--     Result with the error of dns/errors.go; a slice out of range, on which Go panics, is an
--     error of its own. DecodeName is a loop on fuel: 384 rounds, since at most 255 add a label,
--     at most 128 follow a pointer and one is the last.
--   * Security.Bailiwick: security/bailiwick.go. Security.Acl: security/acl.go, with Go's
--     net.ParseIP, net.ParseCIDR and IPNet.Contains as the parameter NetLib.
--   * Blocklist.Matcher: blocklist/matcher.go; a set is the list of its keys. The walk over the
--     parents of a name has the length of the name as fuel.
--   * Resolver.Classify, Resolver.Qmin, Resolver.Cname, Resolver.SpecialUse: resolver/classify.go,
--     resolver/qmin.go, resolver/cname.go and resolver/specialuse.go.
--   * Dnssec.Nsec: dnssec/nsec.go, on records that are parsed.
--   * Cache.Entry, Cache.Shard, Cache.Store, Cache.Reads, Cache.Sweep: cache/entry.go,
--     cache/eviction_heap.go, cache/cache.go and cache/eviction.go. An operation takes the time
--     that time.Now tells, in nanoseconds, and the cache, and returns the cache afterwards. The
--     eviction queue is the list of its items in the order in which container/heap pops them, the
--     first pushed of equal ones first. The eviction loop has the number of entries as fuel. A
--     pointer to an entry is the number of its allocation.
--   * Resolver.Infra: resolver/infracache.go. Resolver.Upstream: resolver/upstream.go and the
--     sending half of resolver/forward.go (sendForwardQueryECS, sendQueryWithRDECS).
--     Resolver.Delegation: resolver/delegation.go, and of resolver/resolver.go the lists of
--     servers and what is cached of a referral.
--   * Resolver.World, Resolver.Servers, Resolver.Replies, Resolver.Iterate, Resolver.Resolve:
--     resolver/resolver.go. World has the state of a resolution and its results, Servers is
--     selectAndResolveNS, Replies is the switch over the class of a reply, Iterate is the rest of
--     resolveIterativeFromInner with resolveIterative and resolveNSAddr, and Resolve is
--     ResolveWithECS; Resolver.Internal is PrimeRootHints and QueryDNSSEC. One round of the loop
--     is the function step, composed of the choice of a server, the question and the switch over
--     the class of the reply.
--   * Resolver.Inflight: resolver/inflight.go, by which equal questions share one resolution. The
--     goroutines have numbers, and each move of one, from one lock section to the next, is a step;
--     a run is a list of steps of any goroutines in any order.
--   * Resolver.LocalZone: the table of resolver/localzone.go. Resolver.Forward:
--     resolver/forward.go, resolver/fallback.go and resolver/dns64.go.
--
-- The world outside a resolution is the record Outside: the clock, the random numbers and the two
-- sockets, each a function of the number of exchanges so far; a socket takes the question and
-- gives the bytes that come back, if any. Time stands still between two exchanges. GoLib has the
-- text form of addresses, the walk over a map in any order, and the mean of two durations in
-- floating point. The DNSSEC validator is a function that may change the state, since it asks
-- questions of its own. The search for the address of a name server is the argument lookup of the
-- iteration; resolve_ns_addr is the code's own, the iteration with itself as that argument.
--
-- The loop over the depth has the rounds that the configuration allows, and the calls for the
-- targets of aliases recur on chain_fuel, two more than MaxCNAMEDepth, since a deeper call gives
-- up at once. The fuel of resolve_ns_addr counts the searches that are nested, which the code does
-- not bound; no fuel left and an eviction that does not end are the outcome endless.
--
-- Numbers are natural numbers; where the code's width matters the wrap-around is written out (the
-- elapsed seconds of RemainingTTL, the hash fnv32a). strings.ToLower is that of ASCII text.
-- Mutexes are left out: an operation that holds a lock is one step, and Get is modelled with
-- nothing between its lock sections.
--
-- Not modelled: sockets, timers, and the goroutines of the other parts; the client subnet in the
-- resolver; the parser of local records; configuration, the web interface, metrics, logging and
-- the commands; the rest of the DNSSEC validator.
pub mod Prelude
pub mod Text
pub mod Dns
pub mod Security
pub mod Blocklist
pub mod Resolver
pub mod Cache
pub mod Dnssec
mod Tests
