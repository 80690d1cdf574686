-- ===== src/Cache/Store/Queued.antt =====
-- The queue's invariant under the store operations of cache/cache.go.
use labyrinth.Prelude.{
  ℕ, ◌+◌, ◌&&◌, not, List, [], Option, none, some, Bytes, ◌≡◌, inl, inr, ◌==◌, arith, refl, subst,
  Bool-cases,
}
use labyrinth.Text.{equal}
use labyrinth.Dns.Message.{ResourceRecord}
use labyrinth.Cache.Entry.{
  NegativeType, Entry, extract_ttl, extract_negative_ttl, has_any_soa, authority_covers_name,
}
use labyrinth.Cache.Shard.{CacheKey, Shard, enforce_max_entries}
use labyrinth.Cache.Shard.Queue.{IsQueued, push_eviction_entry-IsQueued}
use labyrinth.Cache.Shard.Requeue.{enforce_max_entries-IsQueued}
use labyrinth.Cache.Store.{
  Cache, shard_index, put_shard, put_entry, store_with_status, store, store_with_ecs_status,
  store_with_ecs, store_negative, store_failure,
}
use labyrinth.Cache.Store.Room.{with_entry}

-- The queue of every shard is in order and has an item for every entry.
abbrev pub AllQueued : Cache → Type 0
AllQueued c = (i : ℕ) → IsQueued (c.shards i)

pub put_shard-AllQueued :
    (i : ℕ) (s : Shard) (c : Cache) (n : ℕ)
    → AllQueued c
    → IsQueued s
    → AllQueued (put_shard i s (record c { next_id = n }))
unfolding put_shard
put_shard-AllQueued i s c n a q j = elim (Bool-cases (j == i)) [
  | inl e ↦ rw e q
  | inr d ↦ rw d (a j)
]

-- The operation leaves such queues, if it ends.
abbrev pub KeepsQueues : Option Cache → Type 0
KeepsQueues r = (c : Cache) → r ≡ some c → AllQueued c

unchanged : (c : Cache) → AllQueued c → KeepsQueues (some c)
unchanged c a c' e = let d : c ≡ c' = cc e in subst (λ t. AllQueued t) d a

put_entry-by :
    (now : ℕ) (key : CacheKey) (e : Entry) (c : Cache) (o : Option Shard)
    → enforce_max_entries now c.max_entries (with_entry key e (c.shards (shard_index key.name))) ≡ o
    → AllQueued c
    → KeepsQueues (put_entry now key e c)
unfolding put_entry
put_entry-by now key e c none h a c' r = absurd (ground (arith, h))
put_entry-by now key e c (some s) h a c' r =
    let d : put_shard (shard_index key.name) s (record c { next_id = c.next_id + 1 }) ≡ c' =
      ground (arith, h) in
    let q =
      enforce_max_entries-IsQueued now c.max_entries _ s
        (push_eviction_entry-IsQueued key e (c.shards (shard_index key.name))
          (a (shard_index key.name)))
        h in
    subst (λ t. AllQueued t) d (put_shard-AllQueued (shard_index key.name) s c (c.next_id + 1) a q)

put_entry-KeepsQueues :
    (now : ℕ) (key : CacheKey) (e : Entry) (c : Cache)
    → AllQueued c
    → KeepsQueues (put_entry now key e c)
put_entry-KeepsQueues now key e c a = put_entry-by now key e c _ refl a

module _ (now : ℕ) (c : Cache) (a : AllQueued c) (name : Bytes) (qtype class : ℕ) where
  store_with_status-KeepsQueues :
      (answers authority : List ResourceRecord) (status : Bytes)
      → KeepsQueues (store_with_status now c name qtype class answers authority status)
  unfolding store_with_status
  store_with_status-KeepsQueues answers authority status =
      elim (Bool-cases (extract_ttl c.min_ttl answers == 0)) [
        | inl z ↦ rw z (unchanged c a)
        | inr n ↦ rw n (put_entry-KeepsQueues now _ _ c a)
      ]

  store_with_ecs_status-KeepsQueues :
      (prefix : Bytes) (scope : ℕ) (answers authority : List ResourceRecord) (status : Bytes)
      → KeepsQueues
          (store_with_ecs_status now c name qtype class prefix scope answers authority status)
  unfolding store_with_ecs_status
  store_with_ecs_status-KeepsQueues prefix scope answers authority status =
      elim (Bool-cases (equal prefix [])) [
        | inl g ↦ rw g (store_with_status-KeepsQueues answers authority status)
        | inr p ↦ elim (Bool-cases (extract_ttl c.min_ttl answers == 0)) [
          | inl z ↦ rw (p, z) (unchanged c a)
          | inr n ↦ rw (p, n) (put_entry-KeepsQueues now _ _ c a)
        ]
      ]

  store_with_ecs-KeepsQueues :
      (prefix : Bytes) (answers authority : List ResourceRecord)
      → KeepsQueues (store_with_ecs now c name qtype class prefix answers authority)
  unfolding store_with_ecs store
  store_with_ecs-KeepsQueues prefix answers authority = elim (Bool-cases (equal prefix [])) [
    | inl g ↦ rw g (store_with_status-KeepsQueues answers authority [])
    | inr p ↦ rw p (put_entry-KeepsQueues now _ _ c a)
  ]

  store_negative-KeepsQueues :
      (neg : NegativeType) (rcode : ℕ) (authority : List ResourceRecord)
      → KeepsQueues (store_negative now c name qtype class neg rcode authority)
  unfolding store_negative
  store_negative-KeepsQueues neg rcode authority =
      elim (Bool-cases (has_any_soa authority && not (authority_covers_name name authority))) [
        | inl f ↦ rw f (unchanged c a)
        | inr o ↦ elim (Bool-cases (extract_negative_ttl authority == 0)) [
          | inl z ↦ rw (o, z) (unchanged c a)
          | inr n ↦ rw (o, n) (put_entry-KeepsQueues now _ _ c a)
        ]
      ]

  store_failure-KeepsQueues : (ttl : ℕ) → KeepsQueues (store_failure now c name qtype class ttl)
  unfolding store_failure
  store_failure-KeepsQueues ttl = put_entry-KeepsQueues now _ _ c a

-- If the eviction queue of every shard is in order and has an item for every entry, so it is after
-- each store operation, evictions for room included.
pub store-AllQueued :
    (now : ℕ) (c : Cache) (name : Bytes) (qtype class : ℕ)
    → AllQueued c
    → ((answers authority : List ResourceRecord) (status : Bytes)
        → KeepsQueues (store_with_status now c name qtype class answers authority status))
      × ((prefix : Bytes) (scope : ℕ) (answers authority : List ResourceRecord) (status : Bytes)
          → KeepsQueues
              (store_with_ecs_status now c name qtype class prefix scope answers authority status))
      × ((prefix : Bytes) (answers authority : List ResourceRecord)
          → KeepsQueues (store_with_ecs now c name qtype class prefix answers authority))
      × ((neg : NegativeType) (rcode : ℕ) (authority : List ResourceRecord)
          → KeepsQueues (store_negative now c name qtype class neg rcode authority))
      × ((ttl : ℕ) → KeepsQueues (store_failure now c name qtype class ttl))
store-AllQueued now c name qtype class a = (
  store_with_status-KeepsQueues now c a name qtype class,
  store_with_ecs_status-KeepsQueues now c a name qtype class,
  store_with_ecs-KeepsQueues now c a name qtype class,
  store_negative-KeepsQueues now c a name qtype class,
  store_failure-KeepsQueues now c a name qtype class,
)
