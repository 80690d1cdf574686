-- ===== src/Resolver/Servers/Fastest.antt =====
-- Which server `selectAndResolveNS` of resolver/resolver.go takes when one has an IPv4 address.
use labyrinth.Prelude.{
  ◌≤◌, ◌≡◌, ◌≢◌, ◌↔◌, List, [], ◌∷◌, Bytes, refl, leb, inl, inr, arith, Bool-cases,
}
use labyrinth.Prelude.Select.{Member}
use labyrinth.Text.{equal}
use labyrinth.Text.Labels.{equal_iff}
use labyrinth.Resolver.Infra.{NsEntry, InfraCache, entry_rtt, insert_entry, sort_by_rtt}
use labyrinth.Resolver.Infra.Ranking.{IsRanked, sort_by_rtt-IsRanked_stable}
use labyrinth.Resolver.World.{World, Resolver}
use labyrinth.Resolver.Servers.{selected, Lookup, first_ipv4, select_and_resolve_ns}

insert_entry-Member :
    (ic : InfraCache) (e x : NsEntry) (xs : List NsEntry)
    → Member x (insert_entry ic e xs) ↔ Member x (e ∷ xs)
unfolding insert_entry
insert_entry-Member ic e x [] = (λ m. m, λ m. m)
insert_entry-Member ic e x (y ∷ ys) = elim (Bool-cases (leb (entry_rtt ic e) (entry_rtt ic y))) [
  | inl l ↦ rw l (λ m. m, λ m. m)
  | inr g ↦
      let (to, from) = insert_entry-Member ic e x ys in rw g (moved y ys _ to, back y ys _ from)
]
  where
    moved :
        (y : NsEntry) (ys zs : List NsEntry)
        → (Member x zs → Member x (e ∷ ys))
        → Member x (y ∷ zs)
        → Member x (e ∷ y ∷ ys)
    moved y ys zs f (inl h) = inr (inl h)
    moved y ys zs f (inr m) = elim (f m) [ inl h ↦ inl h | inr n ↦ inr (inr n) ]

    back :
        (y : NsEntry) (ys zs : List NsEntry)
        → (Member x (e ∷ ys) → Member x zs)
        → Member x (e ∷ y ∷ ys)
        → Member x (y ∷ zs)
    back y ys zs f (inl h) = inr (f (inl h))
    back y ys zs f (inr (inl h)) = inl h
    back y ys zs f (inr (inr m)) = inr (f (inr m))

pub sort_by_rtt-Member :
    (ic : InfraCache) (x : NsEntry) (es : List NsEntry) → Member x (sort_by_rtt ic es) ↔ Member x es
unfolding sort_by_rtt
sort_by_rtt-Member ic x [] = (λ m. m, λ m. m)
sort_by_rtt-Member ic x (e ∷ es) =
    let (to, from) = insert_entry-Member ic e x (sort_by_rtt ic es) in
    let (in_to, in_from) = sort_by_rtt-Member ic x es in
    (
      λ m. elim (to m) [ inl h ↦ inl h | inr n ↦ inr (in_to n) ],
      λ m. from (elim m [ inl h ↦ inl h | inr n ↦ inr (in_from n) ]),
    )

head_least :
    (ic : InfraCache) (e x : NsEntry) (xs : List NsEntry)
    → IsRanked ic (e ∷ xs)
    → Member x (e ∷ xs)
    → entry_rtt ic e ≤ entry_rtt ic x
head_least ic e x xs r (inl h) = rw (← h) (omega arith)
head_least ic e x [] r (inr m) = absurd m
head_least ic e x (y ∷ ys) r (inr m) = omega (arith, head_least ic y x ys r.1 m)

-- The entry has an IPv4 address, and no other entry with one has a smaller effective time.
pub record IsFastest (ic : InfraCache) (es : List NsEntry) (host ip : Bytes) : Type 0 where
  pub entry : NsEntry
  pub member : Member entry es
  pub same_host : entry.hostname ≡ host
  pub same_ip : entry.ipv4 ≡ ip
  pub addressed : entry.ipv4 ≢ []
  pub least : (x : NsEntry) → Member x es → x.ipv4 ≢ [] → entry_rtt ic entry ≤ entry_rtt ic x

tail-IsRanked :
    (ic : InfraCache) (e : NsEntry) (xs : List NsEntry) → IsRanked ic (e ∷ xs) → IsRanked ic xs
tail-IsRanked ic e [] r = tt
tail-IsRanked ic e (x ∷ xs) r = r.1

first_ipv4-IsFastest :
    (ic : InfraCache) (es : List NsEntry) (x : NsEntry)
    → IsRanked ic es
    → Member x es
    → x.ipv4 ≢ []
    → (host : Bytes) × (ip : Bytes) × (first_ipv4 es ≡ selected host ip) × IsFastest ic es host ip
unfolding first_ipv4
first_ipv4-IsFastest ic [] x r m given = absurd m
first_ipv4-IsFastest ic (e ∷ es) x r m given = elim (Bool-cases (equal e.ipv4 [])) [
  | inr s ↦ (
    e.hostname,
    e.ipv4,
    rw s refl,
    record {
      entry = e;
      member = inl refl;
      same_host = refl;
      same_ip = refl;
      addressed = λ none_given. cc ((equal_iff e.ipv4 []).1 none_given);
      least = λ y n _. head_least ic e y es r n;
    },
  )
  | inl n ↦
      let missing : e.ipv4 ≡ [] = (equal_iff e.ipv4 []).0 n in
      let later : Member x es = elim m [ inl h ↦ absurd (given (rw (← h) missing)) | inr l ↦ l ] in
      let (host, ip, first, fastest) =
        first_ipv4-IsFastest ic es x (tail-IsRanked ic e es r) later given in
      (
        host,
        ip,
        rw n first,
        record {
          entry = fastest.entry;
          member = inr fastest.member;
          same_host = fastest.same_host;
          same_ip = fastest.same_ip;
          addressed = fastest.addressed;
          least = λ y k has_one. elim k [
            | inl h ↦ absurd (has_one (rw (← h) missing))
            | inr l ↦ fastest.least y l has_one
          ];
        },
      )
]

-- If some of the servers has an IPv4 address, `selectAndResolveNS` takes one of the servers with such
-- an address that has the least effective time among these, and changes nothing.
pub select_and_resolve_ns-IsFastest :
    (r : Resolver) (lookup : Lookup) (servers : List NsEntry) (zone : Bytes) (w : World)
    (x : NsEntry)
    → Member x servers
    → x.ipv4 ≢ []
    → (host : Bytes) × (ip : Bytes) × (select_and_resolve_ns r lookup servers zone w
        ≡ (selected host ip, w))
      × IsFastest w.infra servers host ip
unfolding select_and_resolve_ns
select_and_resolve_ns-IsFastest r lookup servers zone w x m given =
    let ranked = (sort_by_rtt-IsRanked_stable w.infra servers).0 in
    let (host, ip, first, fastest) =
      first_ipv4-IsFastest w.infra (sort_by_rtt w.infra servers) x ranked
        ((sort_by_rtt-Member w.infra x servers).1 m) given in
    (
      host,
      ip,
      rw first refl,
      record {
        entry = fastest.entry;
        member = (sort_by_rtt-Member w.infra fastest.entry servers).0 fastest.member;
        same_host = fastest.same_host;
        same_ip = fastest.same_ip;
        addressed = fastest.addressed;
        least = λ y n has_one. fastest.least y ((sort_by_rtt-Member w.infra y servers).1 n) has_one;
      },
    )
