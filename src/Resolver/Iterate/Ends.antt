-- ===== src/Resolver/Iterate/Ends.antt =====
-- `resolveIterativeFromInner` of resolver/resolver.go ends, as far as its callees do.
use labyrinth.Prelude.{
  ℕ, zero, suc, ◌+◌, ◌≤◌, ◌≢◌, Bool, true, false, List, [], Option, none, some, Bytes, sym, subst,
  ltb, inl, inr, arith, Bool-cases,
}
use labyrinth.Dns.Message.{ResourceRecord, Message, class_in}
use labyrinth.Cache.Store.{Cache, store}
use labyrinth.Cache.Store.Room.{EndsValid, store-IsValid}
use labyrinth.Cache.Store.Queued.{KeepsQueues, store-AllQueued}
use labyrinth.Cache.Reads.Keeps.{IsSound, get-IsSound}
use labyrinth.Resolver.Infra.{NsEntry}
use labyrinth.Resolver.Delegation.{to_name_server_list}
use labyrinth.Resolver.World.{
  World, Verdict, Validator, Resolver, Final, done, gave_up, endless, validated,
  verdict_or_insecure, Visited, new_visited_set,
}
use labyrinth.Resolver.Servers.{Lookup}
use labyrinth.Resolver.Iterate.{resolve_from, chain_fuel, resolve_iterative}
use labyrinth.Resolver.Replies.{Again, behind_alias}
use labyrinth.Resolver.Iterate.Rule.{Saves, saves, Rule}
use labyrinth.Resolver.Iterate.Loop.{RunHolds, rounds-RunHolds}

-- The end of a call, and a sound cache.
abbrev pub EndsWell : Final → World → Type 0
EndsWell final w = (final ≢ endless) × IsSound w.cache

-- The search for a server's address ends, and leaves a sound cache.
abbrev pub LookupEnds : Lookup → Type 0
LookupEnds lookup =
    (host : Bytes) (qtype : ℕ) (w : World)
    → IsSound w.cache
    → EndsWell (lookup host qtype w).0 (lookup host qtype w).1

-- The validator, if there is one, leaves a sound cache.
abbrev pub ValidatorKeeps : Option Validator → Type 0
ValidatorKeeps none = Unit {0}
ValidatorKeeps (some validate) =
    (msg : Message) (name : Bytes) (qtype : ℕ) (w : World)
    → IsSound w.cache
    → IsSound (validate msg name qtype w).1.cache

validated-IsSound :
    (o : Option Validator) (skip : Bool) (msg : Message) (name : Bytes) (qtype : ℕ) (w : World)
    → ValidatorKeeps o
    → IsSound w.cache
    → IsSound (validated o skip msg name qtype w).1.cache
validated-IsSound none skip msg name qtype w k h = h
validated-IsSound (some validate) true msg name qtype w k h = h
validated-IsSound (some validate) false msg name qtype w k h = k msg name qtype w h

abbrev IsSoundWorld : World → Type 0
IsSoundWorld w = IsSound w.cache

stored-Saves :
    {w : World} {o : Option Cache} → EndsValid o → KeepsQueues o → Saves IsSoundWorld ⊥ w o
stored-Saves {w} (c, e, v) q = rw e (saves (record { valid = v; queued = q c e }))

behind_alias-EndsWell :
    (rrs : List ResourceRecord) (verdict : Verdict) (final : Final) (w : World)
    → EndsWell final w
    → EndsWell (behind_alias rrs verdict final) w
behind_alias-EndsWell rrs verdict (done result) w (h, v) = (λ e. cc, v)
behind_alias-EndsWell rrs verdict (gave_up e) w (h, v) = (λ e. cc, v)
behind_alias-EndsWell rrs verdict endless w (h, v) = (h, v)

module _ (r : Resolver) (lookup : Lookup) (skip : Bool) (lookup_ends : LookupEnds lookup)
    (validator_keeps : ValidatorKeeps r.dnssec_validator) where
  rule :
      (again : Again)
      → ((target : Bytes) (v : Visited) (w : World)
          → IsSound w.cache
          → EndsWell (again target v w).final (again target v w).world)
      → Rule r lookup again skip IsSoundWorld ⊥
          (λ v. Unit {0})
          (λ v. Unit {0})
          (λ final v w. EndsWell final w)
          (λ v w. Unit {0} × IsSoundWorld w)
  unfolding store
  rule again again_ends = record {
    moves = λ w w' e h. subst IsSound (sym e) h;
    keeps_get = λ w host qtype h. (get-IsSound (r.out.now w.clock) w.cache host qtype class_in h).0;
    keeps_lookup = λ w host qtype h. (lookup_ends host qtype w h).1;
    lookup_ends = λ w host qtype h e. (lookup_ends host qtype w h).0 e;
    keeps_store = λ w host qtype class answers authority h.
        let valid = store-IsValid (r.out.now w.clock) w.cache host qtype class h.valid in
        let keeps = store-AllQueued (r.out.now w.clock) w.cache host qtype class h.queued in
        stored-Saves (valid.0 answers authority []) (keeps.0 answers authority []);
    keeps_negative = λ w name qtype class neg code authority h.
        let valid = store-IsValid (r.out.now w.clock) w.cache name qtype class h.valid in
        let keeps = store-AllQueued (r.out.now w.clock) w.cache name qtype class h.queued in
        stored-Saves (valid.3 neg code authority) (keeps.3 neg code authority);
    keeps_validated = λ w msg name qtype h.
        validated-IsSound r.dnssec_validator skip msg name qtype w validator_keeps h;
    stuck_at = λ v w b k. absurd b;
    early = λ v w e k h. (λ e. cc, h);
    adds = λ v key fresh k. tt;
    names = λ v target u. tt;
    blocked_at = λ v w b u. absurd b;
    fails = λ v w e u h. (λ e. cc, h);
    rejects = λ v w u h. (λ e. cc, h);
    answers = λ v w from msg name qtype sound u h. (λ e. cc, h);
    denies = λ v w from code msg name qtype sound u h. (λ e. cc, h);
    aliases = λ v w from msg name target qtype rrs sound u h.
        behind_alias-EndsWell rrs
          (verdict_or_insecure (validated r.dnssec_validator skip msg name qtype from).0)
          (again target v w).final (again target v w).world (again_ends target v w h);
    goes_on = λ v w u h. (tt, h);
  }

  pub resolve_from-EndsWell :
      (qtype class fuel : ℕ) (name : Bytes) (cname_depth : ℕ) (v : Visited) (servers : List NsEntry)
      (zone : Bytes) (w : World)
      → r.cfg.max_cname_depth + 2 ≤ cname_depth + fuel
      → cname_depth ≤ r.cfg.max_cname_depth + 1
      → IsSound w.cache
      → RunHolds
          (λ final v w. EndsWell final w)
          (resolve_from r lookup qtype class skip fuel name cname_depth v servers zone w)
  unfolding resolve_from
  resolve_from-EndsWell qtype class zero name cname_depth v servers zone w f d h =
      absurd (omega arith)
  resolve_from-EndsWell qtype class (suc fuel) name cname_depth v servers zone w f d h =
      elim (Bool-cases (ltb r.cfg.max_cname_depth cname_depth)) [
        | inl deep ↦ rw deep (λ e. cc, h)
        | inr fine ↦
            let shallow : cname_depth ≤ r.cfg.max_cname_depth = ground arith in
            rw fine (
              rounds-RunHolds
                (λ n. rule _ λ target v w k.
                  resolve_from-EndsWell qtype class fuel target (cname_depth + 1) v
                    (to_name_server_list r.root_servers) [] w (omega arith) (omega arith) k)
                (λ v w e k h. (λ e. cc, h)) name qtype class r.cfg.max_depth servers zone none v w
                tt h)
      ]

-- If the search for a server's address ends, and it and the validator leave a sound cache, so does a
-- resolution that starts with one: the fuel for aliases is never used up, and no store goes on for
-- ever.
pub resolve_iterative-EndsWell :
    (r : Resolver) (lookup : Lookup) (name : Bytes) (qtype class : ℕ) (w : World)
    → LookupEnds lookup
    → ValidatorKeeps r.dnssec_validator
    → IsSound w.cache
    → let run = resolve_iterative r lookup name qtype class w in EndsWell run.final run.world
unfolding resolve_iterative
resolve_iterative-EndsWell r lookup name qtype class w l k h =
    resolve_from-EndsWell r lookup false l k qtype class (chain_fuel r) name 0 new_visited_set
      (to_name_server_list r.root_servers) [] w (omega arith) (omega arith) h
