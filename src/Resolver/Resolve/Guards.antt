-- ===== src/Resolver/Resolve/Guards.antt =====
-- What `ResolveWithECS` of resolver/resolver.go never asks of the outside world.
use labyrinth.Prelude.{
  ℕ, ◌≡◌, ◌⊎◌, true, false, [], none, some, Bytes, refl, subst, inl, inr, arith, Option-cases,
}
use labyrinth.Dns.Message.{rcode_nx_domain}
use labyrinth.Resolver.SpecialUse.{special_use_response}
use labyrinth.Resolver.SpecialUse.Reserved.{IsReserved, special_use_response_iff}
use labyrinth.Resolver.World.{World, Status, ResolveResult, done, is_bogus, new_visited_set}
use labyrinth.Resolver.Servers.{Lookup}
use labyrinth.Resolver.Delegation.{to_name_server_list}
use labyrinth.Resolver.Iterate.{chain_fuel, resolve_iterative}
use labyrinth.Resolver.Iterate.Verdicts.{Holds, IsGuarded, resolve_from-IsGuarded}
use labyrinth.Resolver.LocalZone.{normalize_name, local_lookup, only_code}
use labyrinth.Resolver.Forward.{match_forward, should_fallback}
use labyrinth.Resolver.Resolve.{
  Front, resolve_primary, wants_dns64, with_fallback, after_primary, resolve,
}

-- A name at or below a special-use name is answered at once, by a local zone or with NXDOMAIN: no
-- server is asked, and nothing is stored.
pub resolve-IsReserved :
    (f : Front) (lookup : Lookup) (name : Bytes) (qtype class : ℕ) (w : World)
    → IsReserved (normalize_name (normalize_name name))
    → (result : ResolveResult) × (resolve f lookup name qtype class w ≡ (done result, w))
      × ((local_lookup f.local_zones (normalize_name name) qtype class ≡ some result)
          ⊎ (result ≡ only_code rcode_nx_domain))
unfolding resolve
resolve-IsReserved f lookup name qtype class w reserved =
    let special = (special_use_response_iff (normalize_name name)).1 reserved in
    elim (Option-cases (local_lookup f.local_zones (normalize_name name) qtype class)) [
      | inl n ↦ (only_code rcode_nx_domain, rw (n, special) refl, inr refl)
      | inr (result, s) ↦ (result, rw s refl, inl s)
    ]

bogus_is : (s : Status) → s ≡ Status.bogus → is_bogus s ≡ true
bogus_is s e = rw e refl

should_fallback-bogus :
    (result : ResolveResult)
    → result.error ≡ none
    → result.status ≡ Status.bogus
    → should_fallback (done result) ≡ false
unfolding should_fallback
should_fallback-bogus result e b = ground (arith, e, bogus_is result.status b)

after_primary-bogus :
    (f : Front) (lookup : Lookup) (name : Bytes) (qtype class : ℕ) (result : ResolveResult)
    (w : World)
    → IsGuarded result
    → result.status ≡ Status.bogus
    → after_primary f lookup name qtype class (done result, w) ≡ (done result, w)
unfolding after_primary with_fallback
after_primary-bogus f lookup name qtype class result w guarded b =
    let (code, no_error) = guarded.0 b in
    let plain : wants_dns64 f qtype result ≡ false = ground (arith, code) in
    rw (plain, should_fallback-bogus result no_error b) refl

iterative-IsGuarded :
    (f : Front) (lookup : Lookup) (name : Bytes) (qtype class : ℕ) (w : World)
    → Holds IsGuarded (resolve_iterative f.resolver lookup name qtype class w).final
unfolding resolve_iterative
iterative-IsGuarded f lookup name qtype class w =
    resolve_from-IsGuarded f.resolver lookup false qtype class (chain_fuel f.resolver) name 0
      new_visited_set (to_name_server_list f.resolver.root_servers) [] w

-- If neither a local zone, a special-use name nor a forward or stub zone answers, and the iteration
-- ends with the status "bogus", then that is the answer: neither DNS64 nor a backup resolver is
-- asked to replace it.
pub resolve-bogus :
    (f : Front) (lookup : Lookup) (full_name : Bytes) (qtype class : ℕ) (w : World)
    (result : ResolveResult)
    → let name = normalize_name full_name in
      local_lookup f.local_zones name qtype class ≡ none
      → special_use_response name ≡ none
      → match_forward f.forward_table name ≡ none
      → (resolve_iterative f.resolver lookup name qtype class w).final ≡ done result
      → result.status ≡ Status.bogus
      → resolve f lookup full_name qtype class w
        ≡ (done result, (resolve_iterative f.resolver lookup name qtype class w).world)
unfolding resolve resolve_primary
resolve-bogus f lookup full_name qtype class w result local special forward ends b =
    let name = normalize_name full_name in
    let guarded : Holds IsGuarded (done result) =
      subst (Holds IsGuarded) ends (iterative-IsGuarded f lookup name qtype class w) in
    rw (local, special, forward, ends)
      (after_primary-bogus f lookup name qtype class result
        (resolve_iterative f.resolver lookup name qtype class w).world guarded b)
