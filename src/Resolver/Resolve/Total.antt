-- ===== src/Resolver/Resolve/Total.antt =====
-- `ResolveWithECS` of resolver/resolver.go ends, if the search for the addresses of servers ends and
-- it and the validator leave a sound cache.
use labyrinth.Prelude.{
  ℕ, ◌≢◌, false, List, [], ◌∷◌, map, Option, none, some, Bytes, refl, inl, inr, arith, Bool-cases,
}
use labyrinth.Dns.Message.{Message, type_a}
use labyrinth.Cache.Reads.Keeps.{IsSound}
use labyrinth.Resolver.Upstream.{Failure, Reply, got, failed, send_forward_query}
use labyrinth.Resolver.World.{
  World, ResolveResult, Resolver, Final, done, gave_up, endless, new_visited_set,
}
use labyrinth.Resolver.Servers.{Lookup}
use labyrinth.Resolver.Iterate.{chain_fuel}
use labyrinth.Resolver.Iterate.Ends.{
  EndsWell, LookupEnds, ValidatorKeeps, resolve_from-EndsWell, resolve_iterative-EndsWell,
}
use labyrinth.Resolver.SpecialUse.{special_use_response}
use labyrinth.Resolver.LocalZone.{normalize_name, local_lookup}
use labyrinth.Resolver.Forward.{
  ForwardZone, match_forward, stub_server, resolve_stub, or_forward, query_forward, should_fallback,
  query_fallback, dns64_result, dns64_synthesize,
}
use labyrinth.Resolver.Resolve.{
  Front, by_zone, resolve_primary, wants_dns64, or_primary, with_fallback, after_primary, first_of,
  special_result, resolve,
}

-- The pair of an end and the state after it.
abbrev pub EndsPair : Final × World → Type 0
EndsPair p = EndsWell p.0 p.1

query_forward-ends :
    (r : Resolver) (addrs : List Bytes) (name : Bytes) (qtype class : ℕ) (last : Option Failure)
    (clock : ℕ)
    → (query_forward r addrs name qtype class last clock).0 ≢ endless
unfolding query_forward
query_forward-ends r [] name qtype class none clock e = cc
query_forward-ends r [] name qtype class (some f) clock e = cc
query_forward-ends r (addr ∷ addrs) name qtype class last clock e =
    by_reply (send_forward_query r.out r.cfg clock addr name qtype class)
      (query_forward-ends r addrs name qtype class) e
  where
    by_reply :
        (reply : Reply Message × ℕ)
        → ((last : Option Failure) (clock : ℕ)
            → (query_forward r addrs name qtype class last clock).0 ≢ endless)
        → (or_forward r.cfg reply (query_forward r addrs name qtype class)).0 ≢ endless
    by_reply (got msg, clock) ih e = cc
    by_reply (failed f, clock) ih e = ih (some f) clock e

dns64_result-ends :
    (f : Front) (original : ResolveResult) (final : Final)
    → final ≢ endless
    → dns64_result f.dns64_prefix original final ≢ endless
dns64_result-ends f original endless h e = h refl
dns64_result-ends f original (gave_up x) h e = cc
dns64_result-ends f original (done a) h e = ground arith

or_primary-ends :
    (found : Option ResolveResult) (primary : Final)
    → primary ≢ endless
    → or_primary found primary ≢ endless
or_primary-ends none primary h e = h e
or_primary-ends (some result) primary h e = cc

with_fallback-EndsPair :
    (f : Front) (name : Bytes) (qtype class : ℕ) (primary : Final) (w : World)
    → EndsWell primary w
    → EndsPair (with_fallback f name qtype class (primary, w))
unfolding with_fallback
with_fallback-EndsPair f name qtype class primary w (h, s) =
    elim (Bool-cases (should_fallback primary)) [
      | inl t ↦
          let asked = query_fallback f.resolver (f.pick w.clock) name qtype class w.clock in
          rw t (or_primary-ends asked.0 primary h, s)
      | inr n ↦ rw n (h, s)
    ]

module _ (f : Front) (lookup : Lookup) (lookup_ends : LookupEnds lookup)
    (keeps : ValidatorKeeps f.resolver.dnssec_validator) where
  dns64-EndsPair :
      (name : Bytes) (class : ℕ) (original : ResolveResult) (w : World)
      → IsSound w.cache
      → EndsPair (dns64_synthesize f.resolver lookup f.dns64_prefix name class original w)
  unfolding dns64_synthesize
  dns64-EndsPair name class original w s =
      let (h, t) =
        resolve_iterative-EndsWell f.resolver lookup name type_a class w lookup_ends keeps s in
      (dns64_result-ends f original _ h, t)

  after_primary-EndsPair :
      (name : Bytes) (qtype class : ℕ) (p : Final × World)
      → EndsPair p
      → EndsPair (after_primary f lookup name qtype class p)
  unfolding after_primary
  after_primary-EndsPair name qtype class (endless, w) h = h
  after_primary-EndsPair name qtype class (gave_up e, w) h =
      with_fallback-EndsPair f name qtype class (gave_up e) w h
  after_primary-EndsPair name qtype class (done result, w) h =
      elim (Bool-cases (wants_dns64 f qtype result)) [
        | inl t ↦ rw t (dns64-EndsPair name class result w h.1)
        | inr n ↦ rw n (with_fallback-EndsPair f name qtype class (done result) w h)
      ]

  by_zone-EndsPair :
      (o : Option ForwardZone) (name : Bytes) (qtype class : ℕ) (w : World)
      → IsSound w.cache
      → EndsPair (by_zone f.resolver lookup o name qtype class w)
  unfolding resolve_stub
  by_zone-EndsPair none name qtype class w s =
      resolve_iterative-EndsWell f.resolver lookup name qtype class w lookup_ends keeps s
  by_zone-EndsPair (some z) name qtype class w s = elim (Bool-cases z.is_stub) [
    | inr n ↦ rw n (query_forward-ends f.resolver z.addrs name qtype class none w.clock, s)
    | inl t ↦ rw t (
        resolve_from-EndsWell f.resolver lookup false lookup_ends keeps qtype class
          (chain_fuel f.resolver) name 0 new_visited_set (map stub_server z.addrs) z.name w
          (omega arith) (omega arith) s)
  ]

-- From a sound cache, and if the search for a server's address ends and it and the validator leave a
-- sound cache, every question ends: with a result or an error, and in a sound cache.
pub resolve-EndsPair :
    (f : Front) (lookup : Lookup) (name : Bytes) (qtype class : ℕ) (w : World)
    → LookupEnds lookup
    → ValidatorKeeps f.resolver.dnssec_validator
    → IsSound w.cache
    → EndsPair (resolve f lookup name qtype class w)
unfolding resolve resolve_primary
resolve-EndsPair f lookup full_name qtype class w ends keeps s =
    let name = normalize_name full_name in
    first_ends (local_lookup f.local_zones name qtype class) w _ s (
      first_ends (special_result (special_use_response name)) w _ s (
        after_primary-EndsPair f lookup ends keeps name qtype class _ (
          by_zone-EndsPair f lookup ends keeps (match_forward f.forward_table name) name qtype class
            w s)))
  where
    first_ends :
        (o : Option ResolveResult) (w : World) (rest : Final × World)
        → IsSound w.cache
        → EndsPair rest
        → EndsPair (first_of o w rest)
    first_ends none w rest s h = h
    first_ends (some result) w rest s h = (λ e. cc, s)
