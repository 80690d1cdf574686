-- ===== src/Resolver/Replies.antt =====
-- What `resolveIterativeFromInner` of resolver/resolver.go makes of a reply, by its class.
use labyrinth.Prelude.{
  ℕ, Bool, true, false, ◌||◌, ◌&&◌, List, [], ◌∷◌, ◌++◌, Option, none, some, Bytes, if◌then◌else◌,
  ◌==◌,
}
use labyrinth.Text.{equal}
use labyrinth.Dns.Wire.{Result, ok, err}
use labyrinth.Dns.Message.{
  ResourceRecord, Message, type_cname, type_dname, type_rrsig, rcode_no_error, rcode_nx_domain,
}
use labyrinth.Dns.Rdata.{RrsigRecord, parse_rrsig}
use labyrinth.Cache.Entry.{NegativeType, neg_nx_domain, neg_no_data}
use labyrinth.Cache.Store.{Cache, store, store_negative}
use labyrinth.Resolver.Classify.{
  ResponseType, answer, cname, dname, referral, nx_domain, no_data, serv_fail,
}
use labyrinth.Resolver.Cname.{extract_cname_target, extract_dname_target, extract_cname_records}
use labyrinth.Resolver.Infra.{NsEntry}
use labyrinth.Resolver.Upstream.{Failure}
use labyrinth.Resolver.Delegation.{
  extract_delegation, delegation_to_ns_list, remove_ns_by_ip, and_then, cache_delegation,
  cache_glue,
}
use labyrinth.Resolver.World.{
  World, Verdict, Resolver, Final, done, gave_up, endless, verdict_to_status, is_bogus,
  combine_dnssec_status, validated, status_of, verdict_or_insecure, serv_fail_result, bogus_result,
  Visited, has_cname, add_cname,
}
use labyrinth.Resolver.Servers.{Lookup}

-- How a call ends, and the sets and the state it leaves.
pub record Run : Type 0 where
  pub final : Final
  pub visited : Visited
  pub world : World

-- What one round of the loop does: it returns, or goes on with these servers in this zone, and with
-- this last error.
pub data Step : Type 0 where
  stop : Final → Visited → World → Step
  go_on : List NsEntry → Bytes → Option Failure → Visited → World → Step

-- The call of the function by itself: a target, with the sets and the state.
abbrev pub Again : Type 0
Again = Bytes → Visited → World → Run

abbrev pub is_referral : ResponseType → Bool
is_referral referral = true
is_referral answer = false
is_referral cname = false
is_referral dname = false
is_referral nx_domain = false
is_referral no_data = false
is_referral serv_fail = false

abbrev pub is_none {ℓ} : {A : Type ℓ} → List A → Bool
is_none [] = true
is_none (x ∷ xs) = false

-- `nsIP + "|" + name + "|" + currentZone`.
abbrev pub query_key : Bytes → Bytes → Bytes → Bytes
query_key ip name zone = ip ++ (b'|' ∷ (name ++ (b'|' ∷ zone)))

abbrev covers_alias : Result RrsigRecord → Bool
covers_alias (err e) = false
covers_alias (ok sig) = sig.type_covered == type_dname || sig.type_covered == type_cname

-- `dnameRRs`.
unfoldable pub dname_records : List ResourceRecord → List ResourceRecord
dname_records [] = []
dname_records (rr ∷ rrs) =
    let rest = dname_records rrs in
    if rr.rtype == type_dname || rr.rtype == type_cname
    then rr ∷ rest
    else if rr.rtype == type_rrsig && covers_alias (parse_rrsig rr.rdata)
    then rr ∷ rest
    else rest

-- What is put before the result for the target of an alias.
abbrev pub behind_alias : List ResourceRecord → Verdict → Final → Final
behind_alias rrs verdict (done result) = done (record result {
  answers = rrs ++ result.answers;
  status = combine_dnssec_status (verdict_to_status verdict) result.status;
})
behind_alias rrs verdict (gave_up e) = gave_up e
behind_alias rrs verdict endless = endless

abbrev pub stop_behind : List ResourceRecord → Verdict → Run → Step
stop_behind rrs verdict run = stop (behind_alias rrs verdict run.final) run.visited run.world

-- A store that ends, and what comes after it.
abbrev pub stored : Option Cache → Visited → World → (World → Step) → Step
stored none v w next = stop endless v w
stored (some c) v w next = next (record w { cache = c })

module _ (r : Resolver) (lookup : Lookup) (again : Again) (name : Bytes) (qtype class : ℕ)
    (skip : Bool) where
  abbrev pub time_in : World → ℕ
  time_in w = r.out.now w.clock

  -- The names and records of an alias, of either kind: its target, the type that is validated, what
  -- is stored and what is put before the result.
  unfoldable pub follow_alias :
      Bytes → ℕ → (World → Option Cache) → List ResourceRecord → Message → Visited → World → Step
  follow_alias target alias_type keep rrs msg v w =
      if equal target []
      then stop (done (serv_fail_result none)) v w
      else if has_cname v target
      then stop (done (serv_fail_result none)) v w
      else let v' = add_cname v target in
        let (found, w') = validated r.dnssec_validator skip msg name alias_type w in
        let verdict = verdict_or_insecure found in
        if is_bogus (verdict_to_status verdict)
        then stop (done bogus_result) v' w'
        else stored (keep w') v' w' λ w''. stop_behind rrs verdict (again target v' w'')

  -- `case responseCNAME`.
  unfoldable pub follow_cname : Message → Visited → World → Step
  follow_cname msg v w =
      let rrs = extract_cname_records msg name in
      follow_alias (extract_cname_target msg name) type_cname
        (λ w.
          if is_none rrs
          then some w.cache
          else store (time_in w) w.cache name type_cname class rrs [])
        rrs msg v w

  -- `case responseDNAME`.
  unfoldable pub follow_dname : Message → Visited → World → Step
  follow_dname msg v w =
      follow_alias (extract_dname_target msg name) type_dname (λ w. some w.cache)
        (dname_records msg.answers) msg v w

  -- `case responseAnswer`.
  unfoldable pub finish_answer : Message → Visited → World → Step
  finish_answer msg v w =
      let (found, w') = validated r.dnssec_validator skip msg name qtype w in
      if is_bogus (status_of found)
      then stop (done bogus_result) v w'
      else stop
          (done (record {
            answers = msg.answers;
            authority = msg.authority;
            additional = msg.additional;
            rcode = rcode_no_error;
            status = status_of found;
            error = none;
          }))
          v w'

  -- `case responseNXDomain` and `case responseNoData`, with the two codes.
  unfoldable pub finish_denial : NegativeType → ℕ → Message → Visited → World → Step
  finish_denial neg code msg v w =
      let (found, w') = validated r.dnssec_validator skip msg name qtype w in
      if is_bogus (status_of found)
      then stop (done bogus_result) v w'
      else stored (store_negative (time_in w') w'.cache name qtype class neg code msg.authority) v
          w'
          λ w''.
            stop
              (done (record {
                answers = [];
                authority = msg.authority;
                additional = [];
                rcode = code;
                status = status_of found;
                error = none;
              }))
              v w''

  -- `case responseReferral`.
  unfoldable pub follow_referral : Message → Option Failure → Visited → World → Step
  follow_referral msg last v w =
      let (servers, zone) = extract_delegation r.lib msg in
      if is_none servers
      then stop (done (serv_fail_result none)) v w
      else stored
          (and_then (cache_delegation (time_in w) msg zone w.cache)
            (cache_glue r.lib (time_in w) servers))
          v w λ w'. go_on (delegation_to_ns_list servers) zone last v w'

  -- `nameservers = removeNSByIP(nameservers, nsIP)` and what follows it: the error of the result if
  -- no server is left, and the last error if one is.
  unfoldable pub drop_server :
      Bytes → List NsEntry → Bytes → Option Failure → Option Failure → Visited → World → Step
  drop_server ip servers zone error last v w =
      let rest = remove_ns_by_ip servers ip in
      if is_none rest then stop (done (serv_fail_result error)) v w else go_on rest zone last v w

  -- `switch rtype`.
  unfoldable pub dispatch :
      ResponseType
      → Message
      → Bytes
      → List NsEntry
      → Bytes
      → Option Failure
      → Visited
      → World
      → Step
  dispatch answer msg ip servers zone last v w = finish_answer msg v w
  dispatch cname msg ip servers zone last v w = follow_cname msg v w
  dispatch dname msg ip servers zone last v w = follow_dname msg v w
  dispatch referral msg ip servers zone last v w = follow_referral msg last v w
  dispatch nx_domain msg ip servers zone last v w =
      finish_denial neg_nx_domain rcode_nx_domain msg v w
  dispatch no_data msg ip servers zone last v w = finish_denial neg_no_data rcode_no_error msg v w
  dispatch serv_fail msg ip servers zone last v w = drop_server ip servers zone none last v w
