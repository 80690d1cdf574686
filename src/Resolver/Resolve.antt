-- ===== src/Resolver/Resolve.antt =====
-- `ResolveWithECS` of resolver/resolver.go without a client subnet: local zones, special-use names,
-- forward and stub zones, the iteration, DNS64 and the fallback, in this order. Calls for one
-- question that run at the same time are coalesced; here there is one.
pub mod Guards
pub mod Total
pub mod Ends
use labyrinth.Prelude.{
  ℕ, ◌+◌, Bool, true, false, ◌&&◌, not, List, [], ◌∷◌, Option, none, some, Bytes, if◌then◌else◌,
  ◌==◌,
}
use labyrinth.Dns.Message.{type_aaaa, rcode_no_error}
use labyrinth.Resolver.SpecialUse.{special_use_response}
use labyrinth.Resolver.World.{World, ResolveResult, Resolver, Final, done, gave_up, endless}
use labyrinth.Resolver.Servers.{Lookup}
use labyrinth.Resolver.Iterate.{resolve_iterative}
use labyrinth.Resolver.Replies.{Run, is_none}
use labyrinth.Resolver.LocalZone.{LocalZone, normalize_name, local_lookup, only_code}
use labyrinth.Resolver.Forward.{
  ForwardZone, match_forward, resolve_stub, query_forward, should_fallback, query_fallback,
  Dns64Prefix, dns64_synthesize,
}

-- The rest of `Resolver`: what is looked at before and after the iteration. The random choice of a
-- backup resolver depends on the number of exchanges.
pub record Front : Type 0 where
  pub resolver : Resolver
  pub local_zones : List LocalZone
  pub forward_table : List ForwardZone
  pub dns64_prefix : Dns64Prefix
  pub pick : ℕ → ℕ

abbrev pub run_end : Run → Final × World
run_end run = (run.final, run.world)

abbrev pub forward_end : World → Final × ℕ → Final × World
forward_end w (final, clock) = (final, record w { clock = clock })

-- The zone that is forwarded, the stub zone, or the iteration from the root.
abbrev pub by_zone : Resolver → Lookup → Option ForwardZone → Bytes → ℕ → ℕ → World → Final × World
by_zone r lookup none name qtype class w = run_end (resolve_iterative r lookup name qtype class w)
by_zone r lookup (some z) name qtype class w =
    if not z.is_stub
    then forward_end w (query_forward r z.addrs name qtype class none w.clock)
    else run_end (resolve_stub r lookup name qtype class z w)

unfoldable pub resolve_primary : Front → Lookup → Bytes → ℕ → ℕ → World → Final × World
resolve_primary f lookup name qtype class w =
    by_zone f.resolver lookup (match_forward f.forward_table name) name qtype class w

-- A question for IPv6 addresses that has no answer, where DNS64 is on.
abbrev pub wants_dns64 : Front → ℕ → ResolveResult → Bool
wants_dns64 f qtype result =
    qtype == type_aaaa
    && result.rcode == rcode_no_error
    && is_none result.answers
    && f.resolver.cfg.dns64_enabled

abbrev pub or_primary : Option ResolveResult → Final → Final
or_primary none primary = primary
or_primary (some result) primary = done result

abbrev pub fallback_end : Final → World → Option ResolveResult × ℕ → Final × World
fallback_end primary w (found, clock) = (or_primary found primary, record w { clock = clock })

-- The fallback, where it is warranted.
unfoldable pub with_fallback : Front → Bytes → ℕ → ℕ → Final × World → Final × World
with_fallback f name qtype class (primary, w) =
    if should_fallback primary
    then fallback_end primary w
        (query_fallback f.resolver (f.pick w.clock) name qtype class w.clock)
    else (primary, w)

-- What follows the primary resolution.
unfoldable pub after_primary : Front → Lookup → Bytes → ℕ → ℕ → Final × World → Final × World
after_primary f lookup name qtype class (endless, w) = (endless, w)
after_primary f lookup name qtype class (gave_up e, w) =
    with_fallback f name qtype class (gave_up e, w)
after_primary f lookup name qtype class (done result, w) =
    if wants_dns64 f qtype result
    then dns64_synthesize f.resolver lookup f.dns64_prefix name class result w
    else with_fallback f name qtype class (done result, w)

abbrev pub first_of : Option ResolveResult → World → Final × World → Final × World
first_of none w rest = rest
first_of (some result) w rest = (done result, w)

abbrev pub special_result : Option ℕ → Option ResolveResult
special_result none = none
special_result (some code) = some (only_code code)

-- `ResolveWithECS`.
unfoldable pub resolve : Front → Lookup → Bytes → ℕ → ℕ → World → Final × World
resolve f lookup full_name qtype class w =
    let name = normalize_name full_name in
    first_of (local_lookup f.local_zones name qtype class) w (
      first_of (special_result (special_use_response name)) w
        (after_primary f lookup name qtype class (resolve_primary f lookup name qtype class w)))
