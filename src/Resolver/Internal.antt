-- ===== src/Resolver/Internal.antt =====
-- The questions of resolver/resolver.go that no client asks: `PrimeRootHints`, at the start and then
-- at intervals, and `QueryDNSSEC`, for the validator.
pub mod Sound
use labyrinth.Prelude.{
  ℕ, zero, suc, ◌+◌, ◌%◌, ◌&&◌, not, Bool, true, false, List, [], ◌∷◌, Option, none, some, Bytes,
  if◌then◌else◌, ◌==◌, get_elem?,
}
use labyrinth.Text.{to_lower, trim_suffix}
use labyrinth.Dns.Message.{ResourceRecord, Message, type_ns, class_in, rcode_no_error}
use labyrinth.Cache.Entry.{Entry}
use labyrinth.Cache.Store.{Cache, store}
use labyrinth.Cache.Reads.{GetResult, get}
use labyrinth.Resolver.Upstream.{Reply, got, failed, query_upstream}
use labyrinth.Resolver.Delegation.{NameServer, to_name_server_list}
use labyrinth.Resolver.World.{
  World, ResolveResult, Resolver, Final, done, gave_up, endless, new_visited_set,
}
use labyrinth.Resolver.Servers.{Lookup}
use labyrinth.Resolver.Iterate.{chain_fuel, resolve_from}
use labyrinth.Resolver.Replies.{Run, is_none}

-- What follows a store that ends.
abbrev pub then_end {ℓ} : {A : Type ℓ} → Option Cache → World → A → Option (A × World)
then_end none w x = none
then_end (some c) w x = some (x, record w { cache = c })

module _ (r : Resolver) where
  -- One reply of a root server; whether the priming succeeds, and the state. There is no outcome if
  -- an eviction does not end.
  abbrev pub primed :
      (World → Option (Bool × World)) → Reply Message × ℕ → World → Option (Bool × World)
  primed again (failed f, clock) w = again (record w { clock = clock })
  primed again (got msg, clock) w =
      let w' = record w { clock = clock } in
      if is_none msg.answers
      then some (true, w')
      else then_end
          (store (r.out.now clock) w.cache (b'.' ∷ []) type_ns class_in msg.answers msg.authority)
          w' true

  -- One attempt. `rand.IntN` panics if there are no root servers.
  abbrev pub ask_root :
      (World → Option (Bool × World)) → Option NameServer → World → Option (Bool × World)
  ask_root again none w = none
  ask_root again (some ns) w =
      primed again (query_upstream r.out r.cfg w.clock ns.ipv4 (b'.' ∷ []) type_ns class_in) w

  -- The attempts that are left.
  unfoldable pub prime_loop : (ℕ → ℕ) → ℕ → World → Option (Bool × World)
  prime_loop pick zero w = some (false, w)
  prime_loop pick (suc n) w =
      ask_root (prime_loop pick n) (get_elem? r.root_servers (pick w.clock)) w

  -- `PrimeRootHints`. The resolver is ready afterwards, whatever comes of it.
  abbrev pub prime_root_hints : (ℕ → ℕ) → World → Option (Bool × World)
  prime_root_hints pick w = prime_loop pick 3 w

-- The message that is made of records: the flags QR and RA are set.
abbrev pub made_message :
    Bytes → ℕ → ℕ → ℕ → List ResourceRecord → List ResourceRecord → List ResourceRecord → Message
made_message name qtype class code answers authority additional = record {
  header = record {
    id = 0;
    flags = 0x8080 + code % 16;
    qd_count = 0;
    an_count = 0;
    ns_count = 0;
    ar_count = 0;
  };
  questions = record { name = name; qtype = qtype; class = class } ∷ [];
  answers = answers;
  authority = authority;
  additional = additional;
  edns0 = none;
}

-- What is made of the result of the iteration, at a time.
abbrev pub fetched : ℕ → Bytes → ℕ → ℕ → Final → World → Option (Reply Message × World)
fetched now name qtype class endless w = none
fetched now name qtype class (gave_up e) w = some (failed e, w)
fetched now name qtype class (done result) w =
    let msg =
      made_message name qtype class result.rcode result.answers result.authority
        result.additional in
    if result.rcode == rcode_no_error && not (is_none result.answers)
    then then_end (store now w.cache name qtype class result.answers result.authority) w (got msg)
    else some (got msg, w)

module _ (r : Resolver) (lookup : Lookup) where
  abbrev pub from_cache : Bytes → ℕ → ℕ → Option Entry → World → Option (Reply Message × World)
  from_cache name qtype class (some e) w =
      some (got (made_message name qtype class e.rcode e.records e.authority []), w)
  from_cache name qtype class none w =
      let run =
        resolve_from r lookup qtype class true (chain_fuel r) name 0 new_visited_set
          (to_name_server_list r.root_servers) [] w in
      fetched (r.out.now run.world.clock) name qtype class run.final run.world

  -- `QueryDNSSEC`: the iteration without the validator, which calls it.
  unfoldable pub query_dnssec : Bytes → ℕ → ℕ → World → Option (Reply Message × World)
  query_dnssec full_name qtype class w =
      let name = to_lower (trim_suffix full_name (b'.' ∷ [])) in
      let g = get (r.out.now w.clock) w.cache name qtype class in
      from_cache name qtype class g.found (record w { cache = g.cache })
