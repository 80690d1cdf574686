-- ===== src/Resolver/Forward.antt =====
-- resolver/forward.go, resolver/fallback.go and resolver/dns64.go: zones that are forwarded or have
-- servers of their own, the backup resolvers, and addresses made from IPv4 addresses.
pub mod Longest
use labyrinth.Prelude.{
  ℕ, zero, suc, ◌+◌, Bool, true, false, ◌||◌, ◌&&◌, not, List, [], ◌∷◌, ◌++◌, map, Option, none,
  some, Bytes, if◌then◌else◌, ltb, ◌==◌, length, take, get_elem?,
}
use labyrinth.Text.{equal, to_lower, has_suffix, trim_suffix, text}
use labyrinth.Dns.Wire.{Result, ok, err}
use labyrinth.Dns.Message.{
  ResourceRecord, Message, is_ad, rcode, type_a, type_aaaa, rcode_no_error, rcode_serv_fail,
}
use labyrinth.Dns.Rdata.{parse_a}
use labyrinth.Resolver.Infra.{NsEntry}
use labyrinth.Resolver.Upstream.{
  Failure, Reply, got, failed, Config, send_forward_query, send_forward_query_once,
}
use labyrinth.Resolver.World.{
  World, Status, ResolveResult, Resolver, Final, done, gave_up, endless, is_bogus, serv_fail_result,
  new_visited_set,
}
use labyrinth.Resolver.Servers.{Lookup}
use labyrinth.Resolver.Iterate.{chain_fuel, resolve_from, resolve_iterative}
use labyrinth.Resolver.Replies.{Run, is_none}

-- `ForwardZone`.
pub record ForwardZone : Type 0 where
  pub name : Bytes
  pub addrs : List Bytes
  pub is_stub : Bool

abbrev pub normalise : ForwardZone → ForwardZone
normalise z = record z { name = to_lower (trim_suffix z.name (b'.' ∷ [])) }

-- `NewForwardTable`.
abbrev pub new_forward_table : List ForwardZone → List ForwardZone
new_forward_table zones = map normalise zones

-- The test of one zone.
abbrev pub forward_covers : Bytes → Bytes → Bool
forward_covers qname zone =
    equal zone qname || ltb (length zone) (length qname) && has_suffix qname (b'.' ∷ zone)

-- `len(z.Name) > bestLen`, where `bestLen` starts at -1.
abbrev pub is_longer : ForwardZone → Option ForwardZone → Bool
is_longer z none = true
is_longer z (some best) = ltb (length best.name) (length z.name)

-- The loop of `Match`.
unfoldable pub match_forward_from :
    List ForwardZone → Bytes → Option ForwardZone → Option ForwardZone
match_forward_from [] qname best = best
match_forward_from (z ∷ zs) qname best =
    match_forward_from zs qname
      (if forward_covers qname z.name && is_longer z best then some z else best)

-- `Match`; a nil table has no zones.
unfoldable pub match_forward : List ForwardZone → Bytes → Option ForwardZone
match_forward zones qname = match_forward_from zones (to_lower (trim_suffix qname (b'.' ∷ []))) none

-- `stubNS`.
abbrev pub stub_server : Bytes → NsEntry
stub_server addr = record { hostname = text "stub-ns-" ++ addr; ipv4 = addr; ipv6 = [] }

-- `resolveStub`.
unfoldable pub resolve_stub : Resolver → Lookup → Bytes → ℕ → ℕ → ForwardZone → World → Run
resolve_stub r lookup name qtype class z w =
    resolve_from r lookup qtype class false (chain_fuel r) name 0 new_visited_set
      (map stub_server z.addrs) z.name w

-- The result that is made of the reply of a trusted resolver.
abbrev pub forwarded : Config → Message → ResolveResult
forwarded cfg msg = record {
  answers = msg.answers;
  authority = msg.authority;
  additional = msg.additional;
  rcode = rcode msg.header;
  status = if cfg.dnssec_enabled && is_ad msg.header then Status.secure else Status.unset;
  error = none;
}

abbrev pub or_forward : Config → Reply Message × ℕ → (Option Failure → ℕ → Final × ℕ) → Final × ℕ
or_forward cfg (got msg, clock) next = (done (forwarded cfg msg), clock)
or_forward cfg (failed f, clock) next = next (some f) clock

-- `queryForward`: the first address that answers; the second component is the number of exchanges.
unfoldable pub query_forward :
    Resolver → List Bytes → Bytes → ℕ → ℕ → Option Failure → ℕ → Final × ℕ
query_forward r [] name qtype class none clock = (done (serv_fail_result none), clock)
query_forward r [] name qtype class (some f) clock = (gave_up f, clock)
query_forward r (addr ∷ addrs) name qtype class last clock =
    or_forward r.cfg (send_forward_query r.out r.cfg clock addr name qtype class)
      (query_forward r addrs name qtype class)

-- `shouldFallback`, less the text of the reason.
unfoldable pub should_fallback : Final → Bool
should_fallback endless = false
should_fallback (gave_up e) = true
should_fallback (done result) = elim result.error [
  | some e ↦ true
  | none ↦ result.rcode == rcode_serv_fail && not (is_bogus result.status)
]

-- What the fallback makes of a reply: nothing of an error, nor of a SERVFAIL.
abbrev pub fallback_result : Config → Reply Message → Option ResolveResult
fallback_result cfg (failed f) = none
fallback_result cfg (got msg) =
    if rcode msg.header == rcode_serv_fail then none else some (forwarded cfg msg)

abbrev pub ask_fallback : Resolver → Option Bytes → Bytes → ℕ → ℕ → ℕ → Option ResolveResult × ℕ
ask_fallback r none name qtype class clock = (none, clock)
ask_fallback r (some addr) name qtype class clock =
    let (reply, clock') = send_forward_query_once r.out clock addr name qtype class in
    (fallback_result r.cfg reply, clock')

-- `queryFallback`; `pick` is the random place in the list of resolvers.
unfoldable pub query_fallback : Resolver → ℕ → Bytes → ℕ → ℕ → ℕ → Option ResolveResult × ℕ
query_fallback r pick name qtype class clock =
    ask_fallback r (get_elem? r.cfg.fallback_resolvers pick) name qtype class clock

-- A prefix of DNS64: the bytes of its address in the 16-byte form, and the sizes of its mask.
pub record Dns64Prefix : Type 0 where
  pub address : Bytes
  pub ones : ℕ
  pub bits : ℕ

-- `SynthesizeAAAA`, of the four bytes of an address.
unfoldable pub synthesize_aaaa : Bytes → Dns64Prefix → Option Bytes
synthesize_aaaa ipv4 prefix =
    if not (length ipv4 == 4)
    then none
    else if not (prefix.bits == 128) || not (prefix.ones == 96)
    then none
    else some (take 12 prefix.address ++ ipv4)

abbrev pub synthesized : ResourceRecord → Option Bytes → List ResourceRecord → List ResourceRecord
synthesized rr none rest = rest
synthesized rr (some address) rest =
    record {
      name = rr.name;
      rtype = type_aaaa;
      class = rr.class;
      ttl = rr.ttl;
      rd_length = 16;
      rdata = address;
    }
    ∷ rest

abbrev pub synthesize_record :
    Dns64Prefix → ResourceRecord → Result Bytes → List ResourceRecord → List ResourceRecord
synthesize_record prefix rr (err e) rest = rest
synthesize_record prefix rr (ok ipv4) rest = synthesized rr (synthesize_aaaa ipv4 prefix) rest

-- `synthAnswers`.
unfoldable pub synth_answers : Dns64Prefix → List ResourceRecord → List ResourceRecord
synth_answers prefix [] = []
synth_answers prefix (rr ∷ rrs) =
    let rest = synth_answers prefix rrs in
    if rr.rtype == type_a then synthesize_record prefix rr (parse_a rr.rdata) rest else rest

-- What `dns64Synthesize` makes of the result for A records, and of the one it was called with.
abbrev pub dns64_result : Dns64Prefix → ResolveResult → Final → Final
dns64_result prefix original endless = endless
dns64_result prefix original (gave_up e) = done original
dns64_result prefix original (done a) =
    if not (a.rcode == rcode_no_error) || is_none (synth_answers prefix a.answers)
    then done original
    else done (record {
      answers = synth_answers prefix a.answers;
      authority = a.authority;
      additional = [];
      rcode = rcode_no_error;
      status = Status.unset;
      error = none;
    })

-- `dns64Synthesize`.
unfoldable pub dns64_synthesize :
    Resolver → Lookup → Dns64Prefix → Bytes → ℕ → ResolveResult → World → Final × World
dns64_synthesize r lookup prefix name class original w =
    let run = resolve_iterative r lookup name type_a class w in
    (dns64_result prefix original run.final, run.world)
