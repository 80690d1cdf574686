-- ===== src/Resolver/Iterate/Glued.antt =====
-- `resolveIterativeFromInner` of resolver/resolver.go where every server comes with an IPv4 address:
-- which servers a round goes on with.
use labyrinth.Prelude.{
  ℕ, ◌≡◌, ◌≢◌, Bool, true, false, ◌&&◌, not, List, [], ◌∷◌, Option, none, some, Bytes, refl,
  if◌then◌else◌, inl, inr, Bool-cases,
}
use labyrinth.Prelude.Select.{Member}
use labyrinth.Text.{equal}
use labyrinth.Dns.Message.{
  ResourceRecord, Message, type_cname, type_dname, rcode_no_error, rcode_nx_domain,
}
use labyrinth.Security.Bailiwick.{sanitize_bailiwick}
use labyrinth.Cache.Entry.{NegativeType, neg_nx_domain, neg_no_data}
use labyrinth.Cache.Store.{Cache, store_negative}
use labyrinth.Resolver.Classify.{
  ResponseType, answer, cname, dname, referral, nx_domain, no_data, serv_fail, classify_response,
}
use labyrinth.Resolver.Cname.{extract_cname_target, extract_dname_target, extract_cname_records}
use labyrinth.Resolver.Infra.{NsEntry}
use labyrinth.Resolver.Upstream.{Failure, Reply, got, failed, query_upstream}
use labyrinth.Resolver.Delegation.{
  extract_delegation, delegation_to_ns_list, to_name_server_list, remove_ns_by_ip, and_then,
  cache_delegation, cache_glue,
}
use labyrinth.Resolver.World.{
  World, Resolver, Final, validated, Visited, has, add, has_cname, add_cname, is_bogus, status_of,
  verdict_to_status, verdict_or_insecure,
}
use labyrinth.Resolver.Servers.{
  Selection, selected, unreachable, stuck, Lookup, select_and_resolve_ns,
}
use labyrinth.Resolver.Iterate.{
  second_reply, first_reply, timed, must_repeat, query_for, ask_server, with_server, step,
}
use labyrinth.Resolver.Replies.{
  Step, stop, go_on, Again, is_none, query_key, dname_records, stored, follow_alias, follow_cname,
  follow_dname, finish_answer, finish_denial, follow_referral, drop_server, dispatch,
}

-- Every server has an IPv4 address.
abbrev pub HaveIpv4 : List NsEntry → Type 0
HaveIpv4 es = (x : NsEntry) → Member x es → x.ipv4 ≢ []

-- The servers of a referral that comes with the message.
abbrev pub referred : Resolver → Message → List NsEntry
referred r msg = delegation_to_ns_list (extract_delegation r.lib msg).0

-- The root servers have IPv4 addresses, and so have the servers that an accepted reply refers to.
pub record GivesGlue (r : Resolver) : Type 0 where
  pub roots : HaveIpv4 (to_name_server_list r.root_servers)
  pub replies :
      (clock : ℕ) (ip name : Bytes) (qtype class : ℕ) (m : Message) (after : ℕ) (zone : Bytes)
      → query_upstream r.out r.cfg clock ip name qtype class ≡ (got m, after)
      → HaveIpv4 (referred r (sanitize_bailiwick m zone))

-- A round that goes on does so with servers that have IPv4 addresses.
pub data GoesGlued : Step → Type 0 where
  ends : {final : Final} {v : Visited} {w : World} → GoesGlued (stop final v w)
  goes :
      {servers : List NsEntry} {zone : Bytes} {last : Option Failure} {v : Visited} {w : World}
      → HaveIpv4 servers
      → GoesGlued (go_on servers zone last v w)

if-GoesGlued :
    (test : Bool) {a b : Step}
    → (test ≡ true → GoesGlued a)
    → (test ≡ false → GoesGlued b)
    → GoesGlued (if test then a else b)
if-GoesGlued true h k = h refl
if-GoesGlued false h k = k refl

stored-GoesGlued :
    (o : Option Cache) (v : Visited) (w : World) (next : World → Step)
    → ((w : World) → GoesGlued (next w))
    → GoesGlued (stored o v w next)
stored-GoesGlued none v w next h = ends
stored-GoesGlued (some c) v w next h = h (record w { cache = c })

remove_ns_by_ip-HaveIpv4 :
    (es : List NsEntry) (ip : Bytes) → HaveIpv4 es → HaveIpv4 (remove_ns_by_ip es ip)
unfolding remove_ns_by_ip
remove_ns_by_ip-HaveIpv4 [] ip h = h
remove_ns_by_ip-HaveIpv4 (e ∷ es) ip h =
    let rest = remove_ns_by_ip-HaveIpv4 es ip (λ x m. h x (inr m)) in
    elim (Bool-cases (not (equal e.ipv4 ip) && not (equal e.ipv6 ip))) [
      | inl k ↦ rw k (λ x m. elim m [ inl i ↦ h x (inl i) | inr n ↦ rest x n ])
      | inr d ↦ rw d rest
    ]

module _ (r : Resolver) (lookup : Lookup) (again : Again) (name : Bytes) (qtype class : ℕ)
    (skip : Bool) where
  follow_alias-GoesGlued :
      (target : Bytes) (alias_type : ℕ) (keep : World → Option Cache) (rrs : List ResourceRecord)
      (msg : Message) (v : Visited) (w : World)
      → GoesGlued
          (follow_alias r lookup again name qtype class skip target alias_type keep rrs msg v w)
  unfolding follow_alias
  follow_alias-GoesGlued target alias_type keep rrs msg v w =
      let v' = add_cname v target in
      let w' = (validated r.dnssec_validator skip msg name alias_type w).1 in
      if-GoesGlued (equal target []) (λ _. ends)
        λ _.
          if-GoesGlued (has_cname v target) (λ _. ends)
            λ _.
              if-GoesGlued
                (is_bogus (
                  verdict_to_status (
                    verdict_or_insecure
                      (validated r.dnssec_validator skip msg name alias_type w).0)))
                (λ _. ends) λ _. stored-GoesGlued (keep w') v' w' _ (λ w. ends)

  drop_server-GoesGlued :
      (ip : Bytes) (servers : List NsEntry) (zone : Bytes) (error last : Option Failure)
      (v : Visited) (w : World)
      → HaveIpv4 servers
      → GoesGlued (drop_server r lookup again name qtype class skip ip servers zone error last v w)
  unfolding drop_server
  drop_server-GoesGlued ip servers zone error last v w h =
      if-GoesGlued (is_none (remove_ns_by_ip servers ip)) (λ _. ends)
        λ _. goes (remove_ns_by_ip-HaveIpv4 servers ip h)

  finish_denial-GoesGlued :
      (neg : NegativeType) (code : ℕ) (msg : Message) (v : Visited) (w : World)
      → GoesGlued (finish_denial r lookup again name qtype class skip neg code msg v w)
  unfolding finish_denial
  finish_denial-GoesGlued neg code msg v w =
      let w' = (validated r.dnssec_validator skip msg name qtype w).1 in
      if-GoesGlued (is_bogus (status_of (validated r.dnssec_validator skip msg name qtype w).0))
        (λ _. ends)
        λ _.
          stored-GoesGlued
            (store_negative (r.out.now w'.clock) w'.cache name qtype class neg code msg.authority) v
            w' _ (λ w. ends)

  dispatch-GoesGlued :
      (t : ResponseType) (msg : Message) (ip : Bytes) (servers : List NsEntry) (zone : Bytes)
      (last : Option Failure) (v : Visited) (w : World)
      → HaveIpv4 (referred r msg)
      → HaveIpv4 servers
      → GoesGlued (dispatch r lookup again name qtype class skip t msg ip servers zone last v w)
  unfolding dispatch follow_cname follow_dname finish_answer follow_referral
  dispatch-GoesGlued answer msg ip servers zone last v w g h =
      if-GoesGlued (is_bogus (status_of (validated r.dnssec_validator skip msg name qtype w).0))
        (λ _. ends) (λ _. ends)
  dispatch-GoesGlued cname msg ip servers zone last v w g h =
      let rrs = extract_cname_records msg name in
      follow_alias-GoesGlued (extract_cname_target msg name) type_cname _ rrs msg v w
  dispatch-GoesGlued dname msg ip servers zone last v w g h =
      follow_alias-GoesGlued (extract_dname_target msg name) type_dname _
        (dname_records msg.answers) msg v w
  dispatch-GoesGlued referral msg ip servers zone last v w g h =
      let servers = (extract_delegation r.lib msg).0 in
      let zone = (extract_delegation r.lib msg).1 in
      if-GoesGlued (is_none servers) (λ _. ends)
        λ _.
          stored-GoesGlued
            (and_then (cache_delegation (r.out.now w.clock) msg zone w.cache)
              (cache_glue r.lib (r.out.now w.clock) servers))
            v w _ (λ w. goes g)
  dispatch-GoesGlued nx_domain msg ip servers zone last v w g h =
      finish_denial-GoesGlued neg_nx_domain rcode_nx_domain msg v w
  dispatch-GoesGlued no_data msg ip servers zone last v w g h =
      finish_denial-GoesGlued neg_no_data rcode_no_error msg v w
  dispatch-GoesGlued serv_fail msg ip servers zone last v w g h =
      drop_server-GoesGlued ip servers zone none last v w h

  -- The reply comes with the addresses of the servers it refers to.
  abbrev IsGlued : Reply Message × ℕ → Type 0
  IsGlued reply =
      (m : Message) (after : ℕ) (zone : Bytes)
      → reply ≡ (got m, after)
      → HaveIpv4 (referred r (sanitize_bailiwick m zone))

  second_reply-GoesGlued :
      (reply : Reply Message × ℕ) (ip : Bytes) (servers : List NsEntry) (zone : Bytes)
      (last : Option Failure) (v : Visited) (w : World)
      → IsGlued reply
      → HaveIpv4 servers
      → GoesGlued (second_reply r lookup again name qtype class skip reply ip servers zone last v w)
  unfolding second_reply
  second_reply-GoesGlued (failed f, clock) ip servers zone last v w g h =
      drop_server-GoesGlued ip servers zone (some f) (some f) v _ h
  second_reply-GoesGlued (got m, clock) ip servers zone last v w g h =
      dispatch-GoesGlued _ _ ip servers zone last v _ (g m clock zone refl) h

  module _ (glue : GivesGlue r) where
    first_reply-GoesGlued :
        (query_name : Bytes) (query_type : ℕ) (reply : Reply Message × ℕ) (ip : Bytes)
        (servers : List NsEntry) (zone : Bytes) (last : Option Failure) (v : Visited) (w : World)
        → IsGlued reply
        → HaveIpv4 servers
        → GoesGlued (
            first_reply r lookup again name qtype class skip query_name query_type reply ip servers
              zone last v w)
    unfolding first_reply
    first_reply-GoesGlued query_name query_type (failed f, clock) ip servers zone last v w g h =
        drop_server-GoesGlued ip servers zone (some f) (some f) v _ h
    first_reply-GoesGlued query_name query_type (got m, clock) ip servers zone last v w g h =
        let msg = sanitize_bailiwick m zone in
        let rtype = classify_response msg query_name query_type in
        let w' = timed r lookup again name qtype class skip ip clock w in
        if-GoesGlued (must_repeat r lookup again name qtype class skip query_name query_type rtype)
          (λ _.
            second_reply-GoesGlued (query_upstream r.out r.cfg clock ip name qtype class) ip servers
              zone last v w'
              (λ m after zone e. glue.replies clock ip name qtype class m after zone e) h)
          (λ _. dispatch-GoesGlued rtype msg ip servers zone last v w' (g m clock zone refl) h)

    with_server-GoesGlued :
        (s : Selection × World) (servers : List NsEntry) (zone : Bytes) (last : Option Failure)
        (v : Visited)
        → HaveIpv4 servers
        → GoesGlued (with_server r lookup again name qtype class skip s servers zone last v)
    unfolding with_server ask_server
    with_server-GoesGlued (stuck, w) servers zone last v h = ends
    with_server-GoesGlued (unreachable, w) servers zone last v h = ends
    with_server-GoesGlued (selected host ip, w) servers zone last v h =
        let (query_name, query_type) = query_for r lookup again name qtype class skip zone in
        if-GoesGlued (has v (query_key ip name zone)) (λ _. ends)
          λ _.
            first_reply-GoesGlued query_name query_type
              (query_upstream r.out r.cfg w.clock ip query_name query_type class) ip servers zone
              last (add v (query_key ip name zone)) w
              (λ m after zone e. glue.replies w.clock ip query_name query_type class m after zone e)
              h

    -- With servers that have IPv4 addresses a round goes on only with such servers.
    pub step-GoesGlued :
        (servers : List NsEntry) (zone : Bytes) (last : Option Failure) (v : Visited) (w : World)
        → HaveIpv4 servers
        → GoesGlued (step r lookup again name qtype class skip servers zone last v w)
    unfolding step
    step-GoesGlued servers zone last v w h =
        with_server-GoesGlued (select_and_resolve_ns r lookup servers zone w) servers zone last v h
