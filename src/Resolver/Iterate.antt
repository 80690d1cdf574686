-- ===== src/Resolver/Iterate.antt =====
-- `resolveIterativeFromInner` of resolver/resolver.go: one question asked from server to server. The
-- loop over the depth recurs on the rounds that are left; a call of the function by itself, for the
-- target of an alias, recurs on fuel.
pub mod Rule
pub mod Choice
pub mod Round
pub mod Loop
pub mod Verdicts
pub mod Asked
pub mod Ends
pub mod Trap
pub mod Glued
pub mod Unasked
use labyrinth.Prelude.{
  ℕ, zero, suc, ◌+◌, ◌-◌, Bool, true, false, ◌||◌, ◌&&◌, not, List, [], ◌∷◌, ◌++◌, Option, none,
  some, Bytes, if◌then◌else◌, ltb, ◌==◌,
}
use labyrinth.Text.{equal, to_lower, trim_suffix}
use labyrinth.Dns.Wire.{Result, ok, err}
use labyrinth.Dns.Message.{
  ResourceRecord, Message, type_cname, type_dname, type_rrsig, class_in, rcode_no_error,
  rcode_nx_domain,
}
use labyrinth.Dns.Rdata.{RrsigRecord, parse_rrsig}
use labyrinth.Security.Bailiwick.{sanitize_bailiwick}
use labyrinth.Cache.Entry.{NegativeType, neg_nx_domain, neg_no_data}
use labyrinth.Cache.Store.{Cache, store, store_negative}
use labyrinth.Resolver.Classify.{
  ResponseType, answer, cname, dname, referral, nx_domain, no_data, serv_fail, classify_response,
}
use labyrinth.Resolver.Qmin.{minimize_qname}
use labyrinth.Resolver.Cname.{extract_cname_target, extract_dname_target, extract_cname_records}
use labyrinth.Resolver.Infra.{NsEntry, record_rtt, record_failure}
use labyrinth.Resolver.Upstream.{
  Failure, cname_chain_too_long, loop_detected, no_reachable_nameserver, Reply, got, failed,
  query_upstream,
}
use labyrinth.Resolver.Delegation.{
  DelegationNs, extract_delegation, delegation_to_ns_list, to_name_server_list, remove_ns_by_ip,
  and_then, cache_delegation, cache_glue,
}
use labyrinth.Resolver.World.{
  World, Verdict, Status, ResolveResult, Resolver, Final, done, gave_up, endless, verdict_to_status,
  is_bogus, combine_dnssec_status, validated, status_of, verdict_or_insecure, without_records,
  serv_fail_result, bogus_result, Visited, new_visited_set, has, add, has_cname, add_cname,
}
use labyrinth.Resolver.Servers.{
  Selection, selected, unreachable, stuck, Lookup, select_and_resolve_ns,
}
use labyrinth.Resolver.Replies.{
  Run, Step, Again, is_referral, is_none, query_key, dname_records, behind_alias, stop_behind,
  stored, time_in, follow_alias, follow_cname, follow_dname, finish_answer, finish_denial,
  follow_referral, drop_server, dispatch, stop, go_on,
}

module _ (r : Resolver) (lookup : Lookup) (again : Again) (name : Bytes) (qtype class : ℕ)
    (skip : Bool) where
  -- The reply to the whole question, after a minimized one.
  unfoldable pub second_reply :
      Reply Message × ℕ → Bytes → List NsEntry → Bytes → Option Failure → Visited → World → Step
  second_reply (failed f, clock) ip servers zone last v w =
      drop_server r lookup again name qtype class skip ip servers zone (some f) (some f) v
        (record w { clock = clock })
  second_reply (got m, clock) ip servers zone last v w =
      let msg = sanitize_bailiwick m zone in
      dispatch r lookup again name qtype class skip (classify_response msg name qtype) msg ip
        servers zone last v (record w { clock = clock })

  -- The state after a reply: its time is recorded.
  abbrev pub timed : Bytes → ℕ → World → World
  timed ip clock w = record w {
    infra =
        record_rtt r.lib.mean (r.out.now clock) ip (r.out.now clock - r.out.now w.clock) w.infra;
    clock = clock;
  }

  -- The question was minimized, and the reply to it is no referral.
  abbrev pub must_repeat : Bytes → ℕ → ResponseType → Bool
  must_repeat query_name query_type rtype =
      r.cfg.qmin_enabled
      && (not (equal query_name name) || not (query_type == qtype))
      && not (is_referral rtype)

  -- The reply to the first question of the round, for this name and type.
  unfoldable pub first_reply :
      Bytes
      → ℕ
      → Reply Message × ℕ
      → Bytes
      → List NsEntry
      → Bytes
      → Option Failure
      → Visited
      → World
      → Step
  first_reply query_name query_type (failed f, clock) ip servers zone last v w =
      drop_server r lookup again name qtype class skip ip servers zone (some f) (some f) v
        (record w { infra = record_failure (r.out.now clock) ip w.infra; clock = clock })
  first_reply query_name query_type (got m, clock) ip servers zone last v w =
      let msg = sanitize_bailiwick m zone in
      let rtype = classify_response msg query_name query_type in
      if must_repeat query_name query_type rtype
      then second_reply (query_upstream r.out r.cfg clock ip name qtype class) ip servers zone last
          v (timed ip clock w)
      else dispatch r lookup again name qtype class skip rtype msg ip servers zone last v
          (timed ip clock w)

  -- `minimizeQName` where it is enabled.
  abbrev pub query_for : Bytes → Bytes × ℕ
  query_for zone = if r.cfg.qmin_enabled then minimize_qname name qtype zone else (name, qtype)

  unfoldable pub ask_server : Bytes → List NsEntry → Bytes → Option Failure → Visited → World → Step
  ask_server ip servers zone last v w =
      let (query_name, query_type) = query_for zone in
      first_reply query_name query_type
        (query_upstream r.out r.cfg w.clock ip query_name query_type class) ip servers zone last v w

  -- The rest of the round, behind the choice of a server.
  unfoldable pub with_server :
      Selection × World → List NsEntry → Bytes → Option Failure → Visited → Step
  with_server (stuck, w) servers zone last v = stop endless v w
  with_server (unreachable, w) servers zone last v =
      stop (done (serv_fail_result (some no_reachable_nameserver))) v w
  with_server (selected host ip, w) servers zone last v =
      if has v (query_key ip name zone)
      then stop (done (serv_fail_result (some loop_detected))) v w
      else ask_server ip servers zone last (add v (query_key ip name zone)) w

  -- One round.
  unfoldable pub step : List NsEntry → Bytes → Option Failure → Visited → World → Step
  step servers zone last v w =
      with_server (select_and_resolve_ns r lookup servers zone w) servers zone last v

  abbrev pub next_round :
      (List NsEntry → Bytes → Option Failure → Visited → World → Run) → Step → Run
  next_round rest (stop final v w) = record { final = final; visited = v; world = w }
  next_round rest (go_on servers zone last v w) = rest servers zone last v w

  -- The loop, with the rounds that are left.
  unfoldable pub rounds : ℕ → List NsEntry → Bytes → Option Failure → Visited → World → Run
  rounds zero servers zone last v w = record {
    final = done (serv_fail_result last);
    visited = v;
    world = w;
  }
  rounds (suc n) servers zone last v w = next_round (rounds n) (step servers zone last v w)

module _ (r : Resolver) (lookup : Lookup) (qtype class : ℕ) (skip : Bool) where
  -- `resolveIterativeFromInner`. The fuel counts the calls of it by itself.
  unfoldable pub resolve_from : ℕ → Bytes → ℕ → Visited → List NsEntry → Bytes → World → Run
  resolve_from zero name cname_depth v servers zone w = record {
    final = endless;
    visited = v;
    world = w;
  }
  resolve_from (suc fuel) name cname_depth v servers zone w =
      let again = λ (target : Bytes) (v : Visited) (w : World).
        resolve_from fuel target (cname_depth + 1) v (to_name_server_list r.root_servers) [] w in
      if ltb r.cfg.max_cname_depth cname_depth
      then record { final = gave_up cname_chain_too_long; visited = v; world = w }
      else rounds r lookup again name qtype class skip r.cfg.max_depth servers zone none v w

-- Fuel for a chain of aliases that starts at no depth.
abbrev pub chain_fuel : Resolver → ℕ
chain_fuel r = r.cfg.max_cname_depth + 2

-- `resolveIterative`, from the root servers.
unfoldable pub resolve_iterative : Resolver → Lookup → Bytes → ℕ → ℕ → World → Run
resolve_iterative r lookup name qtype class w =
    resolve_from r lookup qtype class false (chain_fuel r) name 0 new_visited_set
      (to_name_server_list r.root_servers) [] w

-- `resolveNSAddr`. The address of a server may need the address of another server, and so on; the
-- fuel counts these.
unfoldable pub resolve_ns_addr : Resolver → ℕ → Lookup
resolve_ns_addr r zero name qtype w = (endless, w)
resolve_ns_addr r (suc fuel) name qtype w =
    let run =
      resolve_iterative r (resolve_ns_addr r fuel) (to_lower (trim_suffix name (b'.' ∷ []))) qtype
        class_in w in
    (run.final, run.world)
