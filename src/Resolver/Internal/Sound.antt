-- ===== src/Resolver/Internal/Sound.antt =====
-- `PrimeRootHints` and `QueryDNSSEC` of resolver/resolver.go come to an end.
use labyrinth.Prelude.{
  ℕ, zero, suc, ◌<◌, ◌≡◌, ◌&&◌, not, Bool, true, false, List, [], ◌∷◌, Option, none, some, Bytes,
  refl, arith, inl, inr, Bool-cases, ◌==◌, length, get_or, get_elem?-get_or,
}
use labyrinth.Text.{to_lower, trim_suffix}
use labyrinth.Dns.Message.{ResourceRecord, Message, type_ns, class_in, rcode_no_error}
use labyrinth.Cache.Entry.{Entry}
use labyrinth.Cache.Store.{Cache, store}
use labyrinth.Cache.Store.Room.{EndsValid, store-IsValid}
use labyrinth.Cache.Store.Queued.{KeepsQueues, store-AllQueued}
use labyrinth.Cache.Reads.{get}
use labyrinth.Cache.Reads.Keeps.{IsSound, get-IsSound}
use labyrinth.Resolver.Upstream.{Reply, got, failed, query_upstream}
use labyrinth.Resolver.Delegation.{NameServer, to_name_server_list}
use labyrinth.Resolver.World.{World, Resolver, Final, done, gave_up, endless, new_visited_set}
use labyrinth.Resolver.Servers.{Lookup}
use labyrinth.Resolver.Iterate.{chain_fuel}
use labyrinth.Resolver.Replies.{is_none}
use labyrinth.Resolver.Iterate.Ends.{EndsWell, LookupEnds, ValidatorKeeps, resolve_from-EndsWell}
use labyrinth.Resolver.Internal.{
  then_end, primed, prime_loop, prime_root_hints, fetched, from_cache, query_dnssec,
}

-- There is an outcome, and the cache after it is sound.
abbrev pub Returns : {A : Type 0} → Option (A × World) → Type 0
Returns {A} o = (x : A) × (w : World) × (o ≡ some (x, w)) × IsSound w.cache

then_end-Returns :
    {A : Type 0} (o : Option Cache) (w : World) (x : A)
    → EndsValid o
    → KeepsQueues o
    → Returns (then_end o w x)
then_end-Returns o w x (c, e, v) q =
    rw e (x, record w { cache = c }, refl, record { valid = v; queued = q c e })

store-Returns :
    {A : Type 0} (now : ℕ) (name : Bytes) (qtype class : ℕ)
    (answers authority : List ResourceRecord) (w : World) (x : A)
    → IsSound w.cache
    → Returns (then_end (store now w.cache name qtype class answers authority) w x)
unfolding store
store-Returns now name qtype class answers authority w x h =
    then_end-Returns (store now w.cache name qtype class answers authority) w x
      ((store-IsValid now w.cache name qtype class h.valid).0 answers authority [])
      ((store-AllQueued now w.cache name qtype class h.queued).0 answers authority [])

module _ (r : Resolver) where
  primed-Returns :
      (again : World → Option (Bool × World)) (reply : Reply Message × ℕ) (w : World)
      → ((w : World) → IsSound w.cache → Returns (again w))
      → IsSound w.cache
      → Returns (primed r again reply w)
  primed-Returns again (failed f, clock) w ends h = ends (record w { clock = clock }) h
  primed-Returns again (got msg, clock) w ends h = elim (Bool-cases (is_none msg.answers)) [
    | inl empty ↦ rw empty (true, record w { clock = clock }, refl, h)
    | inr some_answers ↦ rw some_answers (
        store-Returns (r.out.now clock) (b'.' ∷ []) type_ns class_in msg.answers msg.authority
          (record w { clock = clock }) true h)
  ]

  prime_loop-Returns :
      (pick : ℕ → ℕ) (n : ℕ) (w : World)
      → ((clock : ℕ) → pick clock < length r.root_servers)
      → IsSound w.cache
      → Returns (prime_loop r pick n w)
  unfolding prime_loop
  prime_loop-Returns pick zero w within h = (false, w, refl, h)
  prime_loop-Returns pick (suc n) w within h =
      let none_there : NameServer = record { name = []; ipv4 = []; ipv6 = [] } in
      let e = get_elem?-get_or r.root_servers (pick w.clock) none_there (within w.clock) in
      let ns = get_or r.root_servers (pick w.clock) none_there in
      rw e (
        primed-Returns (prime_loop r pick n)
          (query_upstream r.out r.cfg w.clock ns.ipv4 (b'.' ∷ []) type_ns class_in) w
          (λ w h. prime_loop-Returns pick n w within h) h)

-- With root servers to pick from, and from a sound cache, `PrimeRootHints` returns with a sound cache.
pub prime_root_hints-Returns :
    (r : Resolver) (pick : ℕ → ℕ) (w : World)
    → ((clock : ℕ) → pick clock < length r.root_servers)
    → IsSound w.cache
    → Returns (prime_root_hints r pick w)
prime_root_hints-Returns r pick w within h = prime_loop-Returns r pick 3 w within h

fetched-Returns :
    (now : ℕ) (name : Bytes) (qtype class : ℕ) (final : Final) (w : World)
    → EndsWell final w
    → Returns (fetched now name qtype class final w)
fetched-Returns now name qtype class endless w (ends, h) = absurd (ends refl)
fetched-Returns now name qtype class (gave_up e) w (ends, h) = (failed e, w, refl, h)
fetched-Returns now name qtype class (done result) w (ends, h) =
    elim (Bool-cases (result.rcode == rcode_no_error && not (is_none result.answers))) [
      | inl keeps ↦
          rw keeps (store-Returns now name qtype class result.answers result.authority w _ h)
      | inr plain ↦ rw plain (_, w, refl, h)
    ]

-- If the search for a server's address ends, and it and the validator leave a sound cache,
-- `QueryDNSSEC` returns, and leaves a sound cache.
pub query_dnssec-Returns :
    (r : Resolver) (lookup : Lookup) (name : Bytes) (qtype class : ℕ) (w : World)
    → LookupEnds lookup
    → ValidatorKeeps r.dnssec_validator
    → IsSound w.cache
    → Returns (query_dnssec r lookup name qtype class w)
unfolding query_dnssec
query_dnssec-Returns r lookup full_name qtype class w ends keeps h =
    let name = to_lower (trim_suffix full_name (b'.' ∷ [])) in
    let g = get (r.out.now w.clock) w.cache name qtype class in
    from_cache-Returns name g.found (record w { cache = g.cache })
      (get-IsSound (r.out.now w.clock) w.cache name qtype class h).0
  where
    from_cache-Returns :
        (name : Bytes) (o : Option Entry) (w : World)
        → IsSound w.cache
        → Returns (from_cache r lookup name qtype class o w)
    from_cache-Returns name (some e) w h = (_, w, refl, h)
    from_cache-Returns name none w h = fetched-Returns _ name qtype class _ _ (
        resolve_from-EndsWell r lookup true ends keeps qtype class (chain_fuel r) name 0
          new_visited_set (to_name_server_list r.root_servers) [] w (omega arith) (omega arith) h)
