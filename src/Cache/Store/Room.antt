-- ===== src/Cache/Store/Room.antt =====
-- The limits of the cache under the store operations of cache/cache.go.
use labyrinth.Prelude.{
  ℕ, ◌+◌, ◌≤◌, ◌<◌, ◌&&◌, not, List, [], Option, some, Bytes, ◌≡◌, ◌⊎◌, inl, inr, if◌then◌else◌,
  ◌==◌, ==_iff, length, arith, refl, Bool-cases,
}
use labyrinth.Text.{equal}
use labyrinth.Dns.Message.{ResourceRecord}
use labyrinth.Cache.Entry.{
  NegativeType, Entry, extract_ttl, extract_negative_ttl, has_any_soa, authority_covers_name,
}
use labyrinth.Cache.Entry.Ttl.{clamp_ttl-lt, failure_ttl-bounds}
use labyrinth.Cache.Shard.{
  CacheKey, EntryMap, Shard, insert, push_eviction_entry, max_uint32, shard_limit,
  enforce_max_entries,
}
use labyrinth.Cache.Shard.Evict.{HasTtls, HasTtls-insert, enforce_max_entries-some}
use labyrinth.Cache.Store.{
  Cache, shard_index, put_shard, put_entry, store_with_status, store, store_with_ecs_status,
  store_with_ecs, store_negative, store_failure,
}

-- A limit, if there is one, for every shard.
abbrev pub Fits : ℕ → EntryMap → Type 0
Fits max_entries m = (max_entries ≡ 0) ⊎ (length m ≤ shard_limit max_entries)

-- The configured TTLs and those of the entries are below the greatest number of 32 bits, and no
-- shard is over its share of the limit.
pub record IsValid (c : Cache) : Type 0 where
  pub min_bound : c.min_ttl < max_uint32
  pub max_bound : c.max_ttl < max_uint32
  pub neg_bound : c.neg_max_ttl < max_uint32
  pub ttls : (i : ℕ) → HasTtls (c.shards i).entries
  pub fits : (i : ℕ) → Fits c.max_entries (c.shards i).entries

-- The operation ends, in a valid cache.
abbrev pub EndsValid : Option Cache → Type 0
EndsValid r = (c : Cache) × (r ≡ some c) × IsValid c

pub put_shard-IsValid :
    (i : ℕ) (s : Shard) (c : Cache) (n : ℕ)
    → IsValid c
    → HasTtls s.entries
    → Fits c.max_entries s.entries
    → IsValid (put_shard i s (record c { next_id = n }))
unfolding put_shard
put_shard-IsValid i s c n v h f = record {
  min_bound = v.min_bound;
  max_bound = v.max_bound;
  neg_bound = v.neg_bound;
  ttls = λ j. elim (Bool-cases (j == i)) [ inl e ↦ rw e h | inr d ↦ rw d (v.ttls j) ];
  fits = λ j. elim (Bool-cases (j == i)) [ inl e ↦ rw e f | inr d ↦ rw d (v.fits j) ];
}

limit_fits :
    (max_entries before after : ℕ)
    → after ≤ (if max_entries == 0 then before else shard_limit max_entries)
    → (max_entries ≡ 0) ⊎ (after ≤ shard_limit max_entries)
limit_fits max_entries before after h = elim (Bool-cases (max_entries == 0)) [
  | inl e ↦ inl ((==_iff _ _).0 e)
  | inr n ↦ inr (rw n at h)
]

-- The shard of a key with the entry put in, before the limit is enforced.
abbrev pub with_entry : CacheKey → Entry → Shard → Shard
with_entry key e s = push_eviction_entry key e (record s { entries = insert key e s.entries })

pub put_entry-some :
    (now : ℕ) (key : CacheKey) (e : Entry) (c : Cache) (s : Shard)
    → enforce_max_entries now c.max_entries (with_entry key e (c.shards (shard_index key.name)))
      ≡ some s
    → put_entry now key e c
      ≡ some (put_shard (shard_index key.name) s (record c { next_id = c.next_id + 1 }))
unfolding put_entry
put_entry-some now key e c s h = ground (arith, h)

put_entry-EndsValid :
    (now : ℕ) (key : CacheKey) (e : Entry) (c : Cache)
    → IsValid c
    → e.orig_ttl < max_uint32
    → EndsValid (put_entry now key e c)
unfolding push_eviction_entry
put_entry-EndsValid now key e c v b =
    let i = shard_index key.name in
    let s = c.shards i in
    let s' = with_entry key e s in
    let (s'', r, room) =
      enforce_max_entries-some now c.max_entries s' (HasTtls-insert key e s.entries b (v.ttls i)) in
    (
      put_shard i s'' (record c { next_id = c.next_id + 1 }),
      put_entry-some now key e c s'' r,
      put_shard-IsValid i s'' c (c.next_id + 1) v room.ttls
          (limit_fits c.max_entries _ _ room.within),
    )

module _ (now : ℕ) (c : Cache) (v : IsValid c) (name : Bytes) (qtype class : ℕ) where
  store_with_status-EndsValid :
      (answers authority : List ResourceRecord) (status : Bytes)
      → EndsValid (store_with_status now c name qtype class answers authority status)
  unfolding store_with_status
  store_with_status-EndsValid answers authority status =
      elim (Bool-cases (extract_ttl c.min_ttl answers == 0)) [
        | inl z ↦ rw z (c, refl, v)
        | inr n ↦ rw n (
            put_entry-EndsValid now _ _ c v (clamp_ttl-lt _ _ _ max_uint32 v.min_bound v.max_bound))
      ]

  store_with_ecs_status-EndsValid :
      (prefix : Bytes) (scope : ℕ) (answers authority : List ResourceRecord) (status : Bytes)
      → EndsValid
          (store_with_ecs_status now c name qtype class prefix scope answers authority status)
  unfolding store_with_ecs_status
  store_with_ecs_status-EndsValid prefix scope answers authority status =
      elim (Bool-cases (equal prefix [])) [
        | inl g ↦ rw g (store_with_status-EndsValid answers authority status)
        | inr p ↦ elim (Bool-cases (extract_ttl c.min_ttl answers == 0)) [
          | inl z ↦ rw (p, z) (c, refl, v)
          | inr n ↦
              rw (p, n)
                (put_entry-EndsValid now _ _ c v
                  (clamp_ttl-lt _ _ _ max_uint32 v.min_bound v.max_bound))
        ]
      ]

  store_with_ecs-EndsValid :
      (prefix : Bytes) (answers authority : List ResourceRecord)
      → EndsValid (store_with_ecs now c name qtype class prefix answers authority)
  unfolding store_with_ecs store
  store_with_ecs-EndsValid prefix answers authority = elim (Bool-cases (equal prefix [])) [
    | inl g ↦ rw g (store_with_status-EndsValid answers authority [])
    | inr p ↦
        rw p
          (put_entry-EndsValid now _ _ c v (clamp_ttl-lt _ _ _ max_uint32 v.min_bound v.max_bound))
  ]

  store_negative-EndsValid :
      (neg : NegativeType) (rcode : ℕ) (authority : List ResourceRecord)
      → EndsValid (store_negative now c name qtype class neg rcode authority)
  unfolding store_negative
  store_negative-EndsValid neg rcode authority =
      elim (Bool-cases (has_any_soa authority && not (authority_covers_name name authority))) [
        | inl f ↦ rw f (c, refl, v)
        | inr o ↦ elim (Bool-cases (extract_negative_ttl authority == 0)) [
          | inl z ↦ rw (o, z) (c, refl, v)
          | inr n ↦
              rw (o, n)
                (put_entry-EndsValid now _ _ c v
                  (clamp_ttl-lt _ _ _ max_uint32 v.min_bound v.neg_bound))
        ]
      ]

  store_failure-EndsValid : (ttl : ℕ) → EndsValid (store_failure now c name qtype class ttl)
  unfolding store_failure
  store_failure-EndsValid ttl =
      put_entry-EndsValid now _ _ c v (omega (arith, (failure_ttl-bounds ttl).1))

-- From a cache that is valid, every store operation ends in one that is valid: the eviction loop
-- stops, no shard is over its share of the limit, and every TTL is below the greatest number of 32
-- bits.
pub store-IsValid :
    (now : ℕ) (c : Cache) (name : Bytes) (qtype class : ℕ)
    → IsValid c
    → ((answers authority : List ResourceRecord) (status : Bytes)
        → EndsValid (store_with_status now c name qtype class answers authority status))
      × ((prefix : Bytes) (scope : ℕ) (answers authority : List ResourceRecord) (status : Bytes)
          → EndsValid
              (store_with_ecs_status now c name qtype class prefix scope answers authority status))
      × ((prefix : Bytes) (answers authority : List ResourceRecord)
          → EndsValid (store_with_ecs now c name qtype class prefix answers authority))
      × ((neg : NegativeType) (rcode : ℕ) (authority : List ResourceRecord)
          → EndsValid (store_negative now c name qtype class neg rcode authority))
      × ((ttl : ℕ) → EndsValid (store_failure now c name qtype class ttl))
store-IsValid now c name qtype class v = (
  store_with_status-EndsValid now c v name qtype class,
  store_with_ecs_status-EndsValid now c v name qtype class,
  store_with_ecs-EndsValid now c v name qtype class,
  store_negative-EndsValid now c v name qtype class,
  store_failure-EndsValid now c v name qtype class,
)
