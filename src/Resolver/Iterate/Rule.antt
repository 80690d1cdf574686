-- ===== src/Resolver/Iterate/Rule.antt =====
-- One round of the loop of `resolveIterativeFromInner` of resolver/resolver.go, taken apart once: a
-- property of how a round ends follows from what it has to be kept by.
use labyrinth.Prelude.{ℕ, ◌≡◌, Bool, false, List, [], Option, none, some, Bytes}
use labyrinth.Dns.Message.{ResourceRecord, Message, rcode_no_error, class_in}
use labyrinth.Cache.Entry.{NegativeType}
use labyrinth.Cache.Store.{Cache, store, store_negative}
use labyrinth.Cache.Reads.{get}
use labyrinth.Resolver.Infra.{NsEntry}
use labyrinth.Resolver.Upstream.{Failure}
use labyrinth.Resolver.World.{
  World, Status, ResolveResult, Resolver, Final, done, endless, verdict_to_status, is_bogus,
  validated, status_of, verdict_or_insecure, serv_fail_result, bogus_result, Visited, has, add,
  add_cname,
}
use labyrinth.Resolver.Servers.{Lookup}
use labyrinth.Resolver.Replies.{Step, stop, go_on, Again, behind_alias}

-- The results of one question that is answered, and that is denied.
abbrev pub answered : Message → Status → ResolveResult
answered msg status = record {
  answers = msg.answers;
  authority = msg.authority;
  additional = msg.additional;
  rcode = rcode_no_error;
  status = status;
  error = none;
}

abbrev pub denied : Message → ℕ → Status → ResolveResult
denied msg code status = record {
  answers = [];
  authority = msg.authority;
  additional = [];
  rcode = code;
  status = status;
  error = none;
}

-- A round that stops has the one property, and one that goes on has the other.
pub data StepHolds (S : Final → Visited → World → Type 0) (G : Visited → World → Type 0)
    : Step → Type 0 where
  stops : {final : Final} {v : Visited} {w : World} → S final v w → StepHolds S G (stop final v w)
  goes :
      {servers : List NsEntry} {zone : Bytes} {last : Option Failure} {v : Visited} {w : World}
      → G v w
      → StepHolds S G (go_on servers zone last v w)

-- A store that ends keeps the property of the state; `Blocks` says when one may not end.
pub data Saves (W : World → Type 0) (Blocks : Type 0) (w : World) : Option Cache → Type 0 where
  blocks : Blocks → Saves W Blocks w none
  saves : {c : Cache} → W (record w { cache = c }) → Saves W Blocks w (some c)

-- What a property of the stops has to be kept by: `W` holds of the state all the time, `V` of the
-- sets before the round, and `U` of them once the question is noted.
pub record Rule (r : Resolver) (lookup : Lookup) (again : Again) (skip : Bool) (W : World → Type 0)
    (Blocks : Type 0) (V U : Visited → Type 0) (S : Final → Visited → World → Type 0)
    (G : Visited → World → Type 0) : Type 0 where
  pub moves : (w w' : World) → w'.cache ≡ w.cache → W w → W w'
  pub keeps_get :
      (w : World) (host : Bytes) (qtype : ℕ)
      → W w
      → W (record w { cache = (get (r.out.now w.clock) w.cache host qtype class_in).cache })
  pub keeps_lookup : (w : World) (host : Bytes) (qtype : ℕ) → W w → W (lookup host qtype w).1
  pub lookup_ends :
      (w : World) (host : Bytes) (qtype : ℕ) → W w → (lookup host qtype w).0 ≡ endless → Blocks
  pub keeps_store :
      (w : World) (host : Bytes) (qtype class : ℕ) (answers authority : List ResourceRecord)
      → W w
      → Saves W Blocks w (store (r.out.now w.clock) w.cache host qtype class answers authority)
  pub keeps_negative :
      (w : World) (name : Bytes) (qtype class : ℕ) (neg : NegativeType) (code : ℕ)
      (authority : List ResourceRecord)
      → W w
      → Saves W Blocks w
          (store_negative (r.out.now w.clock) w.cache name qtype class neg code authority)
  pub keeps_validated :
      (w : World) (msg : Message) (name : Bytes) (qtype : ℕ)
      → W w
      → W (validated r.dnssec_validator skip msg name qtype w).1
  pub stuck_at : (v : Visited) (w : World) → Blocks → V v → S endless v w
  pub early :
      (v : Visited) (w : World) (e : Option Failure) → V v → W w → S (done (serv_fail_result e)) v w
  pub adds : (v : Visited) (key : Bytes) → has v key ≡ false → V v → U (add v key)
  pub names : (v : Visited) (target : Bytes) → U v → U (add_cname v target)
  pub blocked_at : (v : Visited) (w : World) → Blocks → U v → S endless v w
  pub fails :
      (v : Visited) (w : World) (e : Option Failure) → U v → W w → S (done (serv_fail_result e)) v w
  pub rejects : (v : Visited) (w : World) → U v → W w → S (done bogus_result) v w
  pub answers :
      (v : Visited) (w from : World) (msg : Message) (name : Bytes) (qtype : ℕ)
      → is_bogus (status_of (validated r.dnssec_validator skip msg name qtype from).0) ≡ false
      → U v
      → W w
      → S
          (done
            (answered msg (status_of (validated r.dnssec_validator skip msg name qtype from).0)))
          v
          w
  pub denies :
      (v : Visited) (w from : World) (code : ℕ) (msg : Message) (name : Bytes) (qtype : ℕ)
      → is_bogus (status_of (validated r.dnssec_validator skip msg name qtype from).0) ≡ false
      → U v
      → W w
      → S
          (done
            (denied msg code (status_of (validated r.dnssec_validator skip msg name qtype from).0)))
          v
          w
  pub aliases :
      (v : Visited) (w from : World) (msg : Message) (name target : Bytes) (qtype : ℕ)
      (rrs : List ResourceRecord)
      → let verdict =
          verdict_or_insecure (validated r.dnssec_validator skip msg name qtype from).0 in
        is_bogus (verdict_to_status verdict) ≡ false
        → U v
        → W w
        → S
            (behind_alias rrs verdict (again target v w).final)
            (again target v w).visited
            (again target v w).world
  pub goes_on : (v : Visited) (w : World) → U v → W w → G v w
