-- ===== src/Resolver/Iterate/Unasked.antt =====
-- `resolveIterativeFromInner` of resolver/resolver.go where every server comes with an IPv4 address:
-- the search for the address of a server makes no difference.
use labyrinth.Prelude.{
  ℕ, zero, suc, ◌+◌, ◌≡◌, ◌⊎◌, Bool, true, false, List, [], ◌∷◌, Option, Bytes, refl, ap, ◌∙◌,
  fun_ext, ltb, if◌then◌else◌, inl, inr, Bool-cases,
}
use labyrinth.Text.{equal}
use labyrinth.Text.Labels.{equal_iff}
use labyrinth.Dns.Message.{Message}
use labyrinth.Security.Bailiwick.{sanitize_bailiwick}
use labyrinth.Resolver.Classify.{
  ResponseType, answer, cname, dname, referral, nx_domain, no_data, serv_fail, classify_response,
}
use labyrinth.Resolver.Infra.{NsEntry, sort_by_rtt}
use labyrinth.Resolver.Upstream.{Failure, Reply, got, failed, query_upstream}
use labyrinth.Resolver.Delegation.{to_name_server_list}
use labyrinth.Resolver.World.{World, Resolver, Visited, has, add}
use labyrinth.Resolver.Servers.{
  Selection, selected, unreachable, stuck, Lookup, first_ipv4, first_ipv6, search_cache, ask_pass,
  select_and_resolve_ns,
}
use labyrinth.Resolver.Servers.Fastest.{sort_by_rtt-Member}
use labyrinth.Resolver.Iterate.{
  second_reply, first_reply, timed, must_repeat, query_for, ask_server, with_server, step,
  next_round, rounds, resolve_from,
}
use labyrinth.Resolver.Replies.{
  Step, stop, go_on, Again, query_key, follow_alias, follow_cname, follow_dname, finish_answer,
  finish_denial, follow_referral, drop_server, dispatch,
}
use labyrinth.Resolver.Iterate.Glued.{HaveIpv4, GivesGlue, GoesGlued, ends, goes, step-GoesGlued}

if_same :
    (test : Bool) {a b c d : Step}
    → a ≡ b
    → c ≡ d
    → (if test then a else c) ≡ (if test then b else d)
if_same true h k = h
if_same false h k = k

-- No servers, or a first one with an IPv4 address.
first_ipv4-HaveIpv4 :
    (es : List NsEntry)
    → HaveIpv4 es
    → (es ≡ []) ⊎ ((host : Bytes) × (ip : Bytes) × (first_ipv4 es ≡ selected host ip))
unfolding first_ipv4
first_ipv4-HaveIpv4 [] h = inl refl
first_ipv4-HaveIpv4 (e ∷ es) h = elim (Bool-cases (equal e.ipv4 [])) [
  | inl n ↦ absurd (h e (inl refl) ((equal_iff e.ipv4 []).0 n))
  | inr s ↦ inr (e.hostname, e.ipv4, rw s refl)
]

module _ (r : Resolver) (one two : Lookup) where
  select-same :
      (servers : List NsEntry) (zone : Bytes) (w : World)
      → HaveIpv4 servers
      → select_and_resolve_ns r one servers zone w ≡ select_and_resolve_ns r two servers zone w
  unfolding select_and_resolve_ns first_ipv4 first_ipv6 search_cache ask_pass
  select-same servers zone w h =
      let sorted : List NsEntry = sort_by_rtt w.infra servers in
      elim (first_ipv4-HaveIpv4 sorted (λ x m. h x ((sort_by_rtt-Member w.infra x servers).0 m))) [
        | inr (host, ip, first) ↦ rw first refl
        | inl none_left ↦
            rw none_left
              (elim (Bool-cases r.cfg.prefer_ipv4) [ inl p ↦ rw p refl | inr n ↦ rw n refl ])
      ]

  module _ (again : Again) (name : Bytes) (qtype class : ℕ) (skip : Bool) where
    dispatch-same :
        (t : ResponseType) (msg : Message) (ip : Bytes) (servers : List NsEntry) (zone : Bytes)
        (last : Option Failure) (v : Visited) (w : World)
        → dispatch r one again name qtype class skip t msg ip servers zone last v w
          ≡ dispatch r two again name qtype class skip t msg ip servers zone last v w
    unfolding dispatch follow_alias follow_cname follow_dname finish_answer finish_denial
        follow_referral drop_server
    dispatch-same answer msg ip servers zone last v w = refl
    dispatch-same cname msg ip servers zone last v w = refl
    dispatch-same dname msg ip servers zone last v w = refl
    dispatch-same referral msg ip servers zone last v w = refl
    dispatch-same nx_domain msg ip servers zone last v w = refl
    dispatch-same no_data msg ip servers zone last v w = refl
    dispatch-same serv_fail msg ip servers zone last v w = refl

    second_reply-same :
        (reply : Reply Message × ℕ) (ip : Bytes) (servers : List NsEntry) (zone : Bytes)
        (last : Option Failure) (v : Visited) (w : World)
        → second_reply r one again name qtype class skip reply ip servers zone last v w
          ≡ second_reply r two again name qtype class skip reply ip servers zone last v w
    unfolding second_reply drop_server
    second_reply-same (failed f, clock) ip servers zone last v w = refl
    second_reply-same (got m, clock) ip servers zone last v w =
        dispatch-same _ (sanitize_bailiwick m zone) ip servers zone last v _

    first_reply-same :
        (query_name : Bytes) (query_type : ℕ) (reply : Reply Message × ℕ) (ip : Bytes)
        (servers : List NsEntry) (zone : Bytes) (last : Option Failure) (v : Visited) (w : World)
        → first_reply r one again name qtype class skip query_name query_type reply ip servers zone
            last v w
          ≡ first_reply r two again name qtype class skip query_name query_type reply ip servers
              zone last v w
    unfolding first_reply drop_server
    first_reply-same query_name query_type (failed f, clock) ip servers zone last v w = refl
    first_reply-same query_name query_type (got m, clock) ip servers zone last v w =
        let msg = sanitize_bailiwick m zone in
        let rtype = classify_response msg query_name query_type in
        let w' = timed r one again name qtype class skip ip clock w in
        if_same (must_repeat r one again name qtype class skip query_name query_type rtype)
          (second_reply-same (query_upstream r.out r.cfg clock ip name qtype class) ip servers zone
            last v w')
          (dispatch-same rtype msg ip servers zone last v w')

    with_server-same :
        (s : Selection × World) (servers : List NsEntry) (zone : Bytes) (last : Option Failure)
        (v : Visited)
        → with_server r one again name qtype class skip s servers zone last v
          ≡ with_server r two again name qtype class skip s servers zone last v
    unfolding with_server ask_server
    with_server-same (stuck, w) servers zone last v = refl
    with_server-same (unreachable, w) servers zone last v = refl
    with_server-same (selected host ip, w) servers zone last v =
        let (query_name, query_type) = query_for r one again name qtype class skip zone in
        if_same (has v (query_key ip name zone)) refl (
          first_reply-same query_name query_type
            (query_upstream r.out r.cfg w.clock ip query_name query_type class) ip servers zone last
            (add v (query_key ip name zone)) w)

    step-same :
        (servers : List NsEntry) (zone : Bytes) (last : Option Failure) (v : Visited) (w : World)
        → HaveIpv4 servers
        → step r one again name qtype class skip servers zone last v w
          ≡ step r two again name qtype class skip servers zone last v w
    unfolding step
    step-same servers zone last v w h =
        rw (select-same servers zone w h)
          (with_server-same (select_and_resolve_ns r two servers zone w) servers zone last v)

    module _ (glue : GivesGlue r) where
      next_round-same :
          (n : ℕ) (s : Step)
          → GoesGlued s
          → ((servers : List NsEntry) (zone : Bytes) (last : Option Failure) (v : Visited)
                (w : World)
              → HaveIpv4 servers
              → rounds r one again name qtype class skip n servers zone last v w
                ≡ rounds r two again name qtype class skip n servers zone last v w)
          → next_round r one again name qtype class skip
              (rounds r one again name qtype class skip n)
              s
            ≡ next_round r two again name qtype class skip
                (rounds r two again name qtype class skip n)
                s
      next_round-same n (stop final v w) ends ih = refl
      next_round-same n (go_on servers zone last v w) (goes h) ih = ih servers zone last v w h

      rounds-same :
          (n : ℕ) (servers : List NsEntry) (zone : Bytes) (last : Option Failure) (v : Visited)
          (w : World)
          → HaveIpv4 servers
          → rounds r one again name qtype class skip n servers zone last v w
            ≡ rounds r two again name qtype class skip n servers zone last v w
      unfolding rounds
      rounds-same zero servers zone last v w h = refl
      rounds-same (suc n) servers zone last v w h = rw (step-same servers zone last v w h) (
          next_round-same n (step r two again name qtype class skip servers zone last v w)
            (step-GoesGlued r two again name qtype class skip glue servers zone last v w h)
            (rounds-same n))

  module _ (glue : GivesGlue r) (qtype class : ℕ) (skip : Bool) where
    -- With servers that have IPv4 addresses the result and the state do not depend on the search for
    -- the address of a server.
    pub resolve_from-same :
        (fuel : ℕ) (name : Bytes) (cname_depth : ℕ) (v : Visited) (servers : List NsEntry)
        (zone : Bytes) (w : World)
        → HaveIpv4 servers
        → resolve_from r one qtype class skip fuel name cname_depth v servers zone w
          ≡ resolve_from r two qtype class skip fuel name cname_depth v servers zone w
    unfolding resolve_from
    resolve_from-same zero name cname_depth v servers zone w h = refl
    resolve_from-same (suc fuel) name cname_depth v servers zone w h =
        let again_with : Lookup → Again = λ lookup target v w.
          resolve_from r lookup qtype class skip fuel target (cname_depth + 1) v
            (to_name_server_list r.root_servers) [] w in
        let again_same : again_with one ≡ again_with two = fun_ext λ target. fun_ext λ v.
          fun_ext λ w.
            resolve_from-same fuel target (cname_depth + 1) v (to_name_server_list r.root_servers)
              [] w glue.roots in
        elim (Bool-cases (ltb r.cfg.max_cname_depth cname_depth)) [
          | inl deep ↦ rw deep refl
          | inr fine ↦ rw fine (
              rounds-same (again_with one) name qtype class skip glue r.cfg.max_depth servers zone
                Option.none v w h
              ∙ ap
                  (λ again.
                    rounds r two again name qtype class skip r.cfg.max_depth servers zone
                      Option.none v w)
                  again_same)
        ]
