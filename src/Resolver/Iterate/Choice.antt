-- ===== src/Resolver/Iterate/Choice.antt =====
-- The rule for one round of `resolveIterativeFromInner` of resolver/resolver.go, applied to the
-- choice of a server in `selectAndResolveNS`.
use labyrinth.Prelude.{
  ℕ, ◌≡◌, Bool, true, false, List, [], ◌∷◌, Option, none, some, Bytes, refl, if◌then◌else◌, inl,
  inr, arith, Bool-cases,
}
use labyrinth.Prelude.Bits.{bool_eq}
use labyrinth.Text.{equal}
use labyrinth.Dns.Message.{ResourceRecord, type_a, type_aaaa, class_in}
use labyrinth.Security.Bailiwick.{in_zone}
use labyrinth.Cache.Entry.{Entry}
use labyrinth.Cache.Reads.{get}
use labyrinth.Resolver.Infra.{NsEntry, sort_by_rtt}
use labyrinth.Resolver.Delegation.{ns_has_cname_redirect}
use labyrinth.Resolver.World.{World, Resolver, Final, done, gave_up, endless, Visited}
use labyrinth.Resolver.Servers.{
  Selection, selected, unreachable, stuck, Lookup, first_ipv4, first_ipv6, or_search, first_address,
  cached_address, resolved_address, search_cache, ask_address, ask_pass, select_and_resolve_ns,
}
use labyrinth.Resolver.Replies.{Again}
use labyrinth.Resolver.Iterate.Rule.{Rule}

-- A selection that is stuck only if something blocks, in a state with the property.
abbrev pub Selects : (World → Type 0) → Type 0 → Selection × World → Type 0
Selects W Blocks s = W s.1 × (s.0 ≡ stuck → Blocks)

first_ipv4-not_stuck : (es : List NsEntry) → ¬ (first_ipv4 es ≡ stuck)
unfolding first_ipv4
first_ipv4-not_stuck [] h = cc
first_ipv4-not_stuck (e ∷ es) h = elim (Bool-cases (equal e.ipv4 [])) [
  | inl n ↦ first_ipv4-not_stuck es (rw (first_ipv4, n) at h)
  | inr s ↦ absurd (ground (arith, s))
]

first_ipv6-not_stuck : (es : List NsEntry) → ¬ (first_ipv6 es ≡ stuck)
unfolding first_ipv6
first_ipv6-not_stuck [] h = cc
first_ipv6-not_stuck (e ∷ es) h = elim (Bool-cases (equal e.ipv6 [])) [
  | inl n ↦ first_ipv6-not_stuck es (rw (first_ipv6, n) at h)
  | inr s ↦ absurd (ground (arith, s))
]

first_address-not_stuck :
    (ip_string : Bytes → Bytes) (any_type : Bool) (qtype : ℕ) (host : Bytes)
    (rrs : List ResourceRecord)
    → ¬ (first_address ip_string any_type qtype host rrs ≡ stuck)
unfolding first_address
first_address-not_stuck ip_string any_type qtype host [] h = cc
first_address-not_stuck ip_string any_type qtype host (rr ∷ rrs) h =
    first_address-not_stuck ip_string any_type qtype host rrs (ground arith)

cached_address-not_stuck :
    (ip_string : Bytes → Bytes) (qtype : ℕ) (host : Bytes) (found : Option Entry)
    → ¬ (cached_address ip_string qtype host found ≡ stuck)
cached_address-not_stuck ip_string qtype host none h = cc
cached_address-not_stuck ip_string qtype host (some e) h =
    first_address-not_stuck ip_string true qtype host e.records h

resolved_address-stuck :
    (ip_string : Bytes → Bytes) (qtype : ℕ) (host : Bytes) (final : Final)
    → resolved_address ip_string qtype host final ≡ stuck
    → final ≡ endless
resolved_address-stuck ip_string qtype host (done result) h =
    elim (Bool-cases (ns_has_cname_redirect host result.answers)) [
      | inl c ↦ absurd (ground (arith, c))
      | inr n ↦
          absurd (first_address-not_stuck ip_string false qtype host result.answers (rw n at h))
    ]
resolved_address-stuck ip_string qtype host (gave_up e) h = cc
resolved_address-stuck ip_string qtype host endless h = refl

or_search-Selects :
    (W : World → Type 0) (Blocks : Type 0) (s : Selection × World)
    (next : World → Selection × World)
    → Selects W Blocks s
    → ((w : World) → W w → Selects W Blocks (next w))
    → Selects W Blocks (or_search s next)
or_search-Selects W Blocks (selected host ip, w) next h k = h
or_search-Selects W Blocks (unreachable, w) next h k = k w h.0
or_search-Selects W Blocks (stuck, w) next h k = h

if-Selects :
    (W : World → Type 0) (Blocks : Type 0) (test : Bool) (a b : Selection × World)
    → Selects W Blocks a
    → Selects W Blocks b
    → Selects W Blocks (if test then a else b)
if-Selects W Blocks true a b h k = h
if-Selects W Blocks false a b h k = k

module _ {r : Resolver} {lookup : Lookup} {again : Again} {skip : Bool} {W : World → Type 0}
    {Blocks : Type 0} {V U : Visited → Type 0} {S : Final → Visited → World → Type 0}
    {G : Visited → World → Type 0} (rule : Rule r lookup again skip W Blocks V U S G) where
  search_cache-Selects :
      (qtype : ℕ) (es : List NsEntry) (w : World)
      → W w
      → Selects W Blocks (search_cache r lookup qtype es w)
  unfolding search_cache
  search_cache-Selects qtype [] w h = (h, λ s. absurd cc)
  search_cache-Selects qtype (e ∷ es) w h =
      let g = get (r.out.now w.clock) w.cache e.hostname qtype class_in in
      or_search-Selects W Blocks
        (cached_address r.lib.ip_string qtype e.hostname g.found, record w { cache = g.cache })
        (search_cache r lookup qtype es)
        (
          rule.keeps_get w e.hostname qtype h,
          λ s. absurd (cached_address-not_stuck r.lib.ip_string qtype e.hostname g.found s),
        )
        (search_cache-Selects qtype es)

  ask_address-Selects :
      (qtype : ℕ) (e : NsEntry) (w : World)
      → W w
      → Selects W Blocks (ask_address r lookup qtype e w)
  ask_address-Selects qtype e w h = (
    rule.keeps_lookup w e.hostname qtype h,
    λ s.
        rule.lookup_ends w e.hostname qtype h
          (resolved_address-stuck r.lib.ip_string qtype e.hostname (lookup e.hostname qtype w).0 s),
  )

  ask_pass-Selects :
      (inside : Bool) (zone : Bytes) (es : List NsEntry) (w : World)
      → W w
      → Selects W Blocks (ask_pass r lookup inside zone es w)
  unfolding ask_pass
  ask_pass-Selects inside zone [] w h = (h, λ s. absurd cc)
  ask_pass-Selects inside zone (e ∷ es) w h =
      let both : Selection × World =
        or_search (ask_address r lookup type_a e w) (ask_address r lookup type_aaaa e) in
      or_search-Selects W Blocks
        (if bool_eq (in_zone e.hostname zone) inside then both else (unreachable, w))
        (ask_pass r lookup inside zone es)
        (if-Selects W Blocks (bool_eq (in_zone e.hostname zone) inside) both (unreachable, w)
          (or_search-Selects W Blocks (ask_address r lookup type_a e w)
            (ask_address r lookup type_aaaa e) (ask_address-Selects type_a e w h)
            (ask_address-Selects type_aaaa e))
          (h, λ s. absurd cc))
        (ask_pass-Selects inside zone es)

  pub select-Selects :
      (servers : List NsEntry) (zone : Bytes) (w : World)
      → W w
      → Selects W Blocks (select_and_resolve_ns r lookup servers zone w)
  unfolding select_and_resolve_ns
  select-Selects servers zone w h =
      let sorted : List NsEntry = sort_by_rtt w.infra servers in
      let six : Selection = if r.cfg.prefer_ipv4 then unreachable else first_ipv6 sorted in
      let six_ends : ¬ (six ≡ stuck) = elim (Bool-cases r.cfg.prefer_ipv4) [
        | inl p ↦ rw p (λ s. absurd cc)
        | inr n ↦ rw n (first_ipv6-not_stuck sorted)
      ] in
      or_search-Selects W Blocks (first_ipv4 sorted, w) _
        (h, λ s. absurd (first_ipv4-not_stuck sorted s))
        λ w1 h1.
          or_search-Selects W Blocks (six, w1) _ (h1, λ s. absurd (six_ends s))
            λ w2 h2.
              or_search-Selects W Blocks (search_cache r lookup type_a sorted w2) _
                (search_cache-Selects type_a sorted w2 h2)
                λ w3 h3.
                  or_search-Selects W Blocks (search_cache r lookup type_aaaa sorted w3) _
                    (search_cache-Selects type_aaaa sorted w3 h3)
                    λ w4 h4.
                      or_search-Selects W Blocks (ask_pass r lookup false zone sorted w4) _
                        (ask_pass-Selects false zone sorted w4 h4)
                        (ask_pass-Selects true zone sorted)
