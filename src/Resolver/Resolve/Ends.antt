-- ===== src/Resolver/Resolve/Ends.antt =====
-- `ResolveWithECS` of resolver/resolver.go ends where every server comes with an IPv4 address.
use labyrinth.Prelude.{
  ℕ, ◌≡◌, true, false, List, [], map, Option, none, some, Bytes, refl, ap, ◌∙◌, inl, inr,
  Bool-cases,
}
use labyrinth.Dns.Message.{type_a}
use labyrinth.Resolver.Upstream.{no_reply}
use labyrinth.Resolver.Delegation.{to_name_server_list}
use labyrinth.Resolver.World.{World, Final, done, gave_up, endless, new_visited_set}
use labyrinth.Resolver.Servers.{Lookup}
use labyrinth.Resolver.Iterate.{chain_fuel, resolve_iterative}
use labyrinth.Resolver.Iterate.Glued.{HaveIpv4, GivesGlue}
use labyrinth.Resolver.Iterate.Unasked.{resolve_from-same}
use labyrinth.Resolver.SpecialUse.{special_use_response}
use labyrinth.Resolver.LocalZone.{normalize_name, local_lookup}
use labyrinth.Resolver.Forward.{
  ForwardZone, match_forward, stub_server, resolve_stub, dns64_result, dns64_synthesize,
}
use labyrinth.Resolver.Resolve.{
  Front, run_end, by_zone, resolve_primary, wants_dns64, after_primary, first_of, special_result,
  resolve,
}

-- The servers of the stub zones have IPv4 addresses.
abbrev pub StubsHaveIpv4 : List ForwardZone → Type 0
StubsHaveIpv4 table =
    (name : Bytes) (z : ForwardZone)
    → match_forward table name ≡ some z
    → z.is_stub ≡ true
    → HaveIpv4 (map stub_server z.addrs)

module _ (f : Front) (one two : Lookup) (glue : GivesGlue f.resolver) where
  resolve_iterative-same :
      (name : Bytes) (qtype class : ℕ) (w : World)
      → resolve_iterative f.resolver one name qtype class w
        ≡ resolve_iterative f.resolver two name qtype class w
  unfolding resolve_iterative
  resolve_iterative-same name qtype class w =
      resolve_from-same f.resolver one two glue qtype class false (chain_fuel f.resolver) name 0
        new_visited_set (to_name_server_list f.resolver.root_servers) [] w glue.roots

  by_zone-same :
      (o : Option ForwardZone) (name : Bytes) (qtype class : ℕ) (w : World)
      → ((z : ForwardZone) → o ≡ some z → z.is_stub ≡ true → HaveIpv4 (map stub_server z.addrs))
      → by_zone f.resolver one o name qtype class w ≡ by_zone f.resolver two o name qtype class w
  unfolding resolve_stub
  by_zone-same none name qtype class w stubs =
      ap run_end (resolve_iterative-same name qtype class w)
  by_zone-same (some z) name qtype class w stubs = elim (Bool-cases z.is_stub) [
    | inr n ↦ rw n refl
    | inl t ↦ rw t (
        ap run_end (
          resolve_from-same f.resolver one two glue qtype class false (chain_fuel f.resolver) name 0
            new_visited_set (map stub_server z.addrs) z.name w (stubs z refl t)))
  ]

  after_primary-same :
      (name : Bytes) (qtype class : ℕ) (p : Final × World)
      → after_primary f one name qtype class p ≡ after_primary f two name qtype class p
  unfolding after_primary dns64_synthesize
  after_primary-same name qtype class (endless, w) = refl
  after_primary-same name qtype class (gave_up e, w) = refl
  after_primary-same name qtype class (done result, w) =
      elim (Bool-cases (wants_dns64 f qtype result)) [
        | inl t ↦ rw t (
            ap (λ run. (dns64_result f.dns64_prefix result run.final, run.world))
              (resolve_iterative-same name type_a class w))
        | inr n ↦ rw n refl
      ]

  -- Where every server comes with an IPv4 address, the result and the state do not depend on the
  -- search for the address of a server.
  pub resolve-same :
      (name : Bytes) (qtype class : ℕ) (w : World)
      → StubsHaveIpv4 f.forward_table
      → resolve f one name qtype class w ≡ resolve f two name qtype class w
  unfolding resolve resolve_primary
  resolve-same full_name qtype class w stubs =
      let name = normalize_name full_name in
      ap
        (λ p.
          first_of (local_lookup f.local_zones name qtype class) w
            (first_of (special_result (special_use_response name)) w p))
        (after_primary-same name qtype class
            (by_zone f.resolver one (match_forward f.forward_table name) name qtype class w)
          ∙ ap (after_primary f two name qtype class)
              (by_zone-same (match_forward f.forward_table name) name qtype class w (stubs name)))

abbrev gives_up : Lookup
gives_up host qtype w = (gave_up no_reply, w)
