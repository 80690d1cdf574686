-- ===== src/Resolver/Iterate/Round.antt =====
-- The rule for one round of `resolveIterativeFromInner` of resolver/resolver.go, applied to all that
-- the round does with a server.
use labyrinth.Prelude.{
  ℕ, ◌≡◌, Bool, true, false, List, [], ◌∷◌, Option, none, some, Bytes, refl, if◌then◌else◌, inl,
  inr, Bool-cases,
}
use labyrinth.Text.{equal, to_lower}
use labyrinth.Dns.Message.{
  Message, type_a, type_ns, type_cname, type_dname, type_aaaa, class_in, rcode_no_error,
  rcode_nx_domain,
}
use labyrinth.Security.Bailiwick.{sanitize_bailiwick}
use labyrinth.Cache.Entry.{NegativeType, neg_nx_domain, neg_no_data}
use labyrinth.Cache.Store.{Cache}
use labyrinth.Resolver.Classify.{
  ResponseType, answer, cname, dname, referral, nx_domain, no_data, serv_fail, classify_response,
}
use labyrinth.Resolver.Cname.{extract_cname_target, extract_dname_target, extract_cname_records}
use labyrinth.Resolver.Infra.{NsEntry}
use labyrinth.Resolver.Upstream.{
  Failure, Reply, got, failed, query_upstream, no_reachable_nameserver, loop_detected,
}
use labyrinth.Resolver.Delegation.{
  DelegationNs, extract_delegation, delegation_to_ns_list, remove_ns_by_ip, and_then,
  address_record, store_address, parse_ipv4_bytes, delegation_records, has_ns_record,
  cache_delegation, cache_glue,
}
use labyrinth.Resolver.World.{
  World, Resolver, Final, endless, validated, Visited, has, add, has_cname, add_cname,
}
use labyrinth.Resolver.Servers.{
  Selection, selected, unreachable, stuck, Lookup, select_and_resolve_ns,
}
use labyrinth.Resolver.Iterate.{
  second_reply, first_reply, timed, must_repeat, query_for, ask_server, with_server, step,
}
use labyrinth.Resolver.Replies.{
  Step, go_on, Again, is_none, dname_records, stored, follow_alias, follow_cname, follow_dname,
  finish_answer, finish_denial, follow_referral, drop_server, dispatch, query_key,
}
use labyrinth.Resolver.Iterate.Rule.{StepHolds, stops, goes, Saves, blocks, saves, Rule}
use labyrinth.Resolver.Iterate.Choice.{Selects, select-Selects}

module _ {S : Final → Visited → World → Type 0} {G : Visited → World → Type 0} where
  if-StepHolds :
      (test : Bool) {a b : Step}
      → (test ≡ true → StepHolds S G a)
      → (test ≡ false → StepHolds S G b)
      → StepHolds S G (if test then a else b)
  if-StepHolds true h k = h refl
  if-StepHolds false h k = k refl

  stored-StepHolds :
      {W : World → Type 0} {Blocks : Type 0} {w : World} {o : Option Cache} (v : Visited)
      (next : World → Step)
      → Saves W Blocks w o
      → (Blocks → S endless v w)
      → ((w : World) → W w → StepHolds S G (next w))
      → StepHolds S G (stored o v w next)
  stored-StepHolds v next (blocks b) ends h = stops (ends b)
  stored-StepHolds {w = w} v next (saves {c} k) ends h = h (record w { cache = c }) k

module _ {r : Resolver} {lookup : Lookup} {again : Again} {skip : Bool} {W : World → Type 0}
    {Blocks : Type 0} {V U : Visited → Type 0} {S : Final → Visited → World → Type 0}
    {G : Visited → World → Type 0} (rule : Rule r lookup again skip W Blocks V U S G) (name : Bytes)
    (qtype class : ℕ) where
  -- The rest of the state is as it was.
  after_store-Saves :
      {w : World} {c : Cache} {o : Option Cache}
      → Saves W Blocks (record w { cache = c }) o
      → Saves W Blocks w o
  after_store-Saves (blocks b) = blocks b
  after_store-Saves (saves k) = saves k

  and_then-Saves :
      {w : World} {o : Option Cache} (next : Cache → Option Cache)
      → Saves W Blocks w o
      → ((c : Cache)
          → W (record w { cache = c })
          → Saves W Blocks (record w { cache = c }) (next c))
      → Saves W Blocks w (and_then o next)
  and_then-Saves next (blocks b) h = blocks b
  and_then-Saves next (saves {c} k) h = after_store-Saves (h c k)

  store_address-Saves :
      (w : World) (host : Bytes) (rtype ttl rd_length : ℕ) (ip : Option Bytes)
      → W w
      → Saves W Blocks w (store_address (r.out.now w.clock) host rtype ttl rd_length ip w.cache)
  store_address-Saves w host rtype ttl rd_length none h = saves h
  store_address-Saves w host rtype ttl rd_length (some ip) h =
      rule.keeps_store w host rtype class_in ((address_record host rtype ttl rd_length ip) ∷ []) []
        h

  cache_glue-Saves :
      (ds : List DelegationNs) (w : World)
      → W w
      → Saves W Blocks w (cache_glue r.lib (r.out.now w.clock) ds w.cache)
  unfolding cache_glue
  cache_glue-Saves [] w h = saves h
  cache_glue-Saves (d ∷ ds) w h =
      and_then-Saves _
        (and_then-Saves _
          (store_address-Saves w d.hostname type_a d.ipv4_ttl 4
            (if equal d.ipv4 [] then none else parse_ipv4_bytes d.ipv4) h)
          (λ c k.
            store_address-Saves (record w { cache = c }) d.hostname type_aaaa d.ipv6_ttl 16
              (if equal d.ipv6 [] then none else r.lib.parse_ip16 d.ipv6) k))
        (λ c k. cache_glue-Saves ds (record w { cache = c }) k)

  cache_delegation-Saves :
      (msg : Message) (zone : Bytes) (w : World)
      → W w
      → Saves W Blocks w (cache_delegation (r.out.now w.clock) msg zone w.cache)
  unfolding cache_delegation
  cache_delegation-Saves msg zone w h =
      let rrs = delegation_records msg.authority (to_lower zone) in
      elim (Bool-cases (has_ns_record rrs)) [
        | inl s ↦ rw s (rule.keeps_store w zone type_ns class_in rrs [] h)
        | inr n ↦ rw n (saves h)
      ]

  follow_alias-StepHolds :
      (target : Bytes) (alias_type : ℕ) (keep : World → Option Cache) (rrs : List _) (msg : Message)
      (v : Visited) (w : World)
      → ((w : World) → W w → Saves W Blocks w (keep w))
      → U v
      → W w
      → StepHolds S G
          (follow_alias r lookup again name qtype class skip target alias_type keep rrs msg v w)
  unfolding follow_alias
  follow_alias-StepHolds target alias_type keep rrs msg v w keeps u h =
      let v' = add_cname v target in
      let w' = (validated r.dnssec_validator skip msg name alias_type w).1 in
      let h' = rule.keeps_validated w msg name alias_type h in
      let u' = rule.names v target u in
      if-StepHolds (equal target []) (λ _. stops (rule.fails v w none u h))
        λ _.
          if-StepHolds (has_cname v target) (λ _. stops (rule.fails v w none u h))
            λ _.
              if-StepHolds _ (λ _. stops (rule.rejects v' w' u' h'))
                λ sound.
                  stored-StepHolds v' _ (keeps w' h') (λ b. rule.blocked_at v' w' b u')
                    λ w'' h''.
                      stops (rule.aliases v' w'' w msg name target alias_type rrs sound u' h'')

  follow_cname-StepHolds :
      (msg : Message) (v : Visited) (w : World)
      → U v
      → W w
      → StepHolds S G (follow_cname r lookup again name qtype class skip msg v w)
  unfolding follow_cname
  follow_cname-StepHolds msg v w u h =
      let rrs = extract_cname_records msg name in
      follow_alias-StepHolds (extract_cname_target msg name) type_cname _ rrs msg v w
        (λ w k. elim (Bool-cases (is_none rrs)) [
          | inl e ↦ rw e (saves k)
          | inr n ↦ rw n (rule.keeps_store w name type_cname class rrs [] k)
        ])
        u h

  follow_dname-StepHolds :
      (msg : Message) (v : Visited) (w : World)
      → U v
      → W w
      → StepHolds S G (follow_dname r lookup again name qtype class skip msg v w)
  unfolding follow_dname
  follow_dname-StepHolds msg v w u h =
      follow_alias-StepHolds (extract_dname_target msg name) type_dname _
        (dname_records msg.answers) msg v w (λ w k. saves k) u h

  finish_answer-StepHolds :
      (msg : Message) (v : Visited) (w : World)
      → U v
      → W w
      → StepHolds S G (finish_answer r lookup again name qtype class skip msg v w)
  unfolding finish_answer
  finish_answer-StepHolds msg v w u h =
      let w' = (validated r.dnssec_validator skip msg name qtype w).1 in
      let h' = rule.keeps_validated w msg name qtype h in
      if-StepHolds _ (λ _. stops (rule.rejects v w' u h'))
        λ sound. stops (rule.answers v w' w msg name qtype sound u h')

  finish_denial-StepHolds :
      (neg : NegativeType) (code : ℕ) (msg : Message) (v : Visited) (w : World)
      → U v
      → W w
      → StepHolds S G (finish_denial r lookup again name qtype class skip neg code msg v w)
  unfolding finish_denial
  finish_denial-StepHolds neg code msg v w u h =
      let w' = (validated r.dnssec_validator skip msg name qtype w).1 in
      let h' = rule.keeps_validated w msg name qtype h in
      if-StepHolds _ (λ _. stops (rule.rejects v w' u h'))
        λ sound.
          stored-StepHolds v _ (rule.keeps_negative w' name qtype class neg code msg.authority h')
            (λ b. rule.blocked_at v w' b u)
            λ w'' h''. stops (rule.denies v w'' w code msg name qtype sound u h'')

  follow_referral-StepHolds :
      (msg : Message) (last : Option Failure) (v : Visited) (w : World)
      → U v
      → W w
      → StepHolds S G (follow_referral r lookup again name qtype class skip msg last v w)
  unfolding follow_referral
  follow_referral-StepHolds msg last v w u h =
      let servers = (extract_delegation r.lib msg).0 in
      let zone = (extract_delegation r.lib msg).1 in
      if-StepHolds (is_none servers) (λ _. stops (rule.fails v w none u h))
        λ _.
          stored-StepHolds v (λ w'. go_on (delegation_to_ns_list servers) zone last v w')
            (and_then-Saves _ (cache_delegation-Saves msg zone w h)
              λ c k. cache_glue-Saves servers (record w { cache = c }) k)
            (λ b. rule.blocked_at v w b u)
            λ w' h'.
              goes {servers = delegation_to_ns_list servers} {zone = zone} {last = last}
                (rule.goes_on v w' u h')

  drop_server-StepHolds :
      (ip : Bytes) (servers : List NsEntry) (zone : Bytes) (error last : Option Failure)
      (v : Visited) (w : World)
      → U v
      → W w
      → StepHolds S G
          (drop_server r lookup again name qtype class skip ip servers zone error last v w)
  unfolding drop_server
  drop_server-StepHolds ip servers zone error last v w u h =
      if-StepHolds (is_none (remove_ns_by_ip servers ip)) (λ _. stops (rule.fails v w error u h))
        λ _.
          goes {servers = remove_ns_by_ip servers ip} {zone = zone} {last = last}
            (rule.goes_on v w u h)

  dispatch-StepHolds :
      (t : ResponseType) (msg : Message) (ip : Bytes) (servers : List NsEntry) (zone : Bytes)
      (last : Option Failure) (v : Visited) (w : World)
      → U v
      → W w
      → StepHolds S G (dispatch r lookup again name qtype class skip t msg ip servers zone last v w)
  unfolding dispatch
  dispatch-StepHolds answer msg ip servers zone last v w u h = finish_answer-StepHolds msg v w u h
  dispatch-StepHolds cname msg ip servers zone last v w u h = follow_cname-StepHolds msg v w u h
  dispatch-StepHolds dname msg ip servers zone last v w u h = follow_dname-StepHolds msg v w u h
  dispatch-StepHolds referral msg ip servers zone last v w u h =
      follow_referral-StepHolds msg last v w u h
  dispatch-StepHolds nx_domain msg ip servers zone last v w u h =
      finish_denial-StepHolds neg_nx_domain rcode_nx_domain msg v w u h
  dispatch-StepHolds no_data msg ip servers zone last v w u h =
      finish_denial-StepHolds neg_no_data rcode_no_error msg v w u h
  dispatch-StepHolds serv_fail msg ip servers zone last v w u h =
      drop_server-StepHolds ip servers zone none last v w u h

  second_reply-StepHolds :
      (reply : Reply Message × ℕ) (ip : Bytes) (servers : List NsEntry) (zone : Bytes)
      (last : Option Failure) (v : Visited) (w : World)
      → U v
      → W w
      → StepHolds S G
          (second_reply r lookup again name qtype class skip reply ip servers zone last v w)
  unfolding second_reply
  second_reply-StepHolds (failed f, clock) ip servers zone last v w u h =
      drop_server-StepHolds ip servers zone (some f) (some f) v _ u (rule.moves w _ refl h)
  second_reply-StepHolds (got m, clock) ip servers zone last v w u h =
      dispatch-StepHolds _ _ ip servers zone last v _ u (rule.moves w _ refl h)

  first_reply-StepHolds :
      (query_name : Bytes) (query_type : ℕ) (reply : Reply Message × ℕ) (ip : Bytes)
      (servers : List NsEntry) (zone : Bytes) (last : Option Failure) (v : Visited) (w : World)
      → U v
      → W w
      → StepHolds S G (
          first_reply r lookup again name qtype class skip query_name query_type reply ip servers
            zone last v w)
  unfolding first_reply
  first_reply-StepHolds query_name query_type (failed f, clock) ip servers zone last v w u h =
      drop_server-StepHolds ip servers zone (some f) (some f) v _ u (rule.moves w _ refl h)
  first_reply-StepHolds query_name query_type (got m, clock) ip servers zone last v w u h =
      let msg = sanitize_bailiwick m zone in
      let rtype = classify_response msg query_name query_type in
      let w' = timed r lookup again name qtype class skip ip clock w in
      let h' : W w' = rule.moves w w' refl h in
      if-StepHolds (must_repeat r lookup again name qtype class skip query_name query_type rtype)
        (λ _.
          second_reply-StepHolds (query_upstream r.out r.cfg clock ip name qtype class) ip servers
            zone last v w' u h')
        (λ _. dispatch-StepHolds rtype msg ip servers zone last v w' u h')

  with_server-StepHolds :
      (s : Selection × World) (servers : List NsEntry) (zone : Bytes) (last : Option Failure)
      (v : Visited)
      → V v
      → Selects W Blocks s
      → StepHolds S G (with_server r lookup again name qtype class skip s servers zone last v)
  unfolding with_server ask_server
  with_server-StepHolds (stuck, w) servers zone last v k (h, b) =
      stops (rule.stuck_at v w (b refl) k)
  with_server-StepHolds (unreachable, w) servers zone last v k (h, b) =
      stops (rule.early v w (some no_reachable_nameserver) k h)
  with_server-StepHolds (selected host ip, w) servers zone last v k (h, b) =
      if-StepHolds (has v (query_key ip name zone))
        (λ _. stops (rule.early v w (some loop_detected) k h))
        λ fresh.
          let (query_name, query_type) = query_for r lookup again name qtype class skip zone in
          first_reply-StepHolds query_name query_type
            (query_upstream r.out r.cfg w.clock ip query_name query_type class) ip servers zone last
            (add v (query_key ip name zone)) w (rule.adds v _ fresh k) h

  -- A round that keeps the rule ends as the rule says.
  pub step-StepHolds :
      (servers : List NsEntry) (zone : Bytes) (last : Option Failure) (v : Visited) (w : World)
      → V v
      → W w
      → StepHolds S G (step r lookup again name qtype class skip servers zone last v w)
  unfolding step
  step-StepHolds servers zone last v w k h =
      with_server-StepHolds (select_and_resolve_ns r lookup servers zone w) servers zone last v k
        (select-Selects rule servers zone w h)
