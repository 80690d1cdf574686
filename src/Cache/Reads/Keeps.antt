-- ===== src/Cache/Reads/Keeps.antt =====
-- The invariants of the cache under `Get` and `Delete` of cache/cache.go.
use labyrinth.Prelude.{
  ℕ, ◌+◌, ◌*◌, ◌<◌, Bool, true, false, [], ◌∷◌, Option, none, some, Bytes, ◌≡◌, inl, inr,
  if◌then◌else◌, ◌==◌, arith, refl, ap, sym, ◌∙◌, subst, Bool-cases, Option-cases,
}
use labyrinth.Text.{to_lower}
use labyrinth.Cache.Entry.{Entry, remaining_ttl}
use labyrinth.Cache.Shard.{CacheKey, EntryMap, Shard, same_key, lookup, delete, insert, max_uint32}
use labyrinth.Cache.Shard.Keys.{
  same_key_iff, lookup-insert-same, lookup-insert-other, length-delete, length-delete-lt,
}
use labyrinth.Cache.Shard.Evict.{HasTtls, HasTtls-delete}
use labyrinth.Cache.Shard.Queue.{HasItems, HasItems-delete}
use labyrinth.Cache.Store.{Cache, shard_index, key_for}
use labyrinth.Cache.Store.Room.{IsValid, Fits, put_shard-IsValid}
use labyrinth.Cache.Store.Queued.{AllQueued, put_shard-AllQueued}
use labyrinth.Cache.Reads.{
  find_entry, find_or_sentinel, drop_key, mark_prefetched, get_entry, get, delete_name,
}

-- Both invariants.
pub record IsSound (c : Cache) : Type 0 where
  pub valid : IsValid c
  pub queued : AllQueued c

drop_key-IsSound : (key : CacheKey) (c : Cache) → IsSound c → IsSound (drop_key key c)
unfolding drop_key
drop_key-IsSound key c h =
    let i = shard_index key.name in
    let s = c.shards i in
    record {
      valid =
          put_shard-IsValid i _ c c.next_id h.valid (HasTtls-delete key s.entries (h.valid.ttls i))
            (shorter s.entries (h.valid.fits i));
      queued =
          put_shard-AllQueued i _ c c.next_id h.queued
            ((h.queued i).0, HasItems-delete key s.entries s.evict_q (h.queued i).1);
    }
  where
    shorter : (m : EntryMap) → Fits c.max_entries m → Fits c.max_entries (delete key m)
    shorter m (inl z) = inl z
    shorter m (inr f) = inr (omega (arith, f, length-delete key m))

HasTtls-lookup :
    (m : EntryMap) (key : CacheKey) (e : Entry)
    → HasTtls m
    → lookup key m ≡ some e
    → e.orig_ttl < max_uint32
unfolding lookup
HasTtls-lookup [] key e h l = absurd cc
HasTtls-lookup ((k, x) ∷ m) key e (b, h) l = elim (Bool-cases (same_key k key)) [
  | inl s ↦ let d : x ≡ e = ground arith in subst (λ t. t.orig_ttl < max_uint32) d b
  | inr n ↦ HasTtls-lookup m key e h (rw n at l)
]

-- An entry in place of one with the same number and the same times.
HasItems-replace :
    (key : CacheKey) (e : Entry) (s : Shard)
    → lookup key s.entries ≡ some e
    → HasItems s.entries s.evict_q
    → HasItems (insert key (record e { prefetched = true }) s.entries) s.evict_q
HasItems-replace key e s l h k x r = elim (Bool-cases (same_key key k)) [
  | inr n ↦ h k x (sym (lookup-insert-other key k _ s.entries n) ∙ r)
  | inl same ↦
      let a : key ≡ k = (same_key_iff key k).0 same in
      let b : record e { prefetched = true } ≡ x = cc (
        lookup-insert-same key (record e { prefetched = true }) s.entries,
        r,
        ap (λ t. lookup t (insert key (record e { prefetched = true }) s.entries)) a,
      ) in
      let (item, p, i) = h key e l in
      (
        item,
        p,
        record {
          its_key = i.its_key ∙ a;
          its_id = i.its_id ∙ ap (λ t. t.id) b;
          its_time = i.its_time ∙ ap (λ t. t.inserted_at + t.orig_ttl * 1000000000) b;
        },
      )
]

mark_prefetched-IsSound :
    (key : CacheKey) (e : Entry) (c : Cache)
    → find_entry key c ≡ some e
    → IsSound c
    → IsSound (mark_prefetched key e c)
unfolding mark_prefetched find_entry insert
mark_prefetched-IsSound key e c l h =
    let i = shard_index key.name in
    let s = c.shards i in
    record {
      valid =
          put_shard-IsValid i _ c c.next_id h.valid
            (
              HasTtls-lookup s.entries key e (h.valid.ttls i) l,
              HasTtls-delete key s.entries (h.valid.ttls i),
            )
            (same_size (h.valid.fits i));
      queued =
          put_shard-AllQueued i _ c c.next_id h.queued
            ((h.queued i).0, HasItems-replace key e s l (h.queued i).1);
    }
  where
    same_size :
        Fits c.max_entries (c.shards (shard_index key.name)).entries
        → Fits c.max_entries
            (insert key (record e { prefetched = true }) (c.shards (shard_index key.name)).entries)
    same_size (inl z) = inl z
    same_size (inr f) =
        inr (omega (arith, f, length-delete-lt key (c.shards (shard_index key.name)).entries e l))

get_entry-IsSound :
    (now : ℕ) (c : Cache) (key : CacheKey) (e : Entry)
    → find_entry key c ≡ some e
    → IsSound c
    → IsSound (get_entry now c key e).cache
unfolding get_entry
get_entry-IsSound now c key e l h = elim (Bool-cases (remaining_ttl e now == 0)) [
  | inl z ↦ rw z (dropped c.serve_stale)
  | inr n ↦ rw n (marked _)
]
  where
    dropped : (stale : Bool) → IsSound (if stale then c else drop_key key c)
    dropped true = h
    dropped false = drop_key-IsSound key c h

    marked : (starts : Bool) → IsSound (if starts then mark_prefetched key e c else c)
    marked true = mark_prefetched-IsSound key e c l h
    marked false = h

find_or_sentinel-find_entry :
    (c : Cache) (name : Bytes) (qtype class : ℕ) (key : CacheKey) (e : Entry)
    → find_or_sentinel c name qtype class ≡ some (key, e)
    → find_entry key c ≡ some e
unfolding find_or_sentinel
find_or_sentinel-find_entry c name qtype class key e h =
    elim (Option-cases (find_entry (key_for name qtype class) c)) [
      | inr (x, l) ↦
          let d : ◌≡◌ {A = CacheKey × Entry} (key_for name qtype class, x) (key, e) =
            ground (arith, l) in
          moved d l
      | inl n ↦ elim (Option-cases (find_entry (key_for name 0 class) c)) [
        | inr (x, l) ↦
            let d : ◌≡◌ {A = CacheKey × Entry} (key_for name 0 class, x) (key, e) =
              ground (arith, n, l) in
            moved d l
        | inl m ↦ absurd (ground (arith, n, m))
      ]
    ]
  where
    moved :
        {k : CacheKey} {x : Entry}
        → ◌≡◌ {A = CacheKey × Entry} (k, x) (key, e)
        → find_entry k c ≡ some x
        → find_entry key c ≡ some e
    moved d l = ap (λ t. find_entry t c) (sym (ap (λ t. t.0) d)) ∙ l ∙ ap (λ t. some t.1) d

get-found :
    (now : ℕ) (c : Cache) (name : Bytes) (qtype class : ℕ) (key : CacheKey) (e : Entry)
    → find_or_sentinel c (to_lower name) qtype class ≡ some (key, e)
    → get now c name qtype class ≡ get_entry now c key e
unfolding get
get-found now c name qtype class key e h = ground (arith, h)

get-missing :
    (now : ℕ) (c : Cache) (name : Bytes) (qtype class : ℕ)
    → find_or_sentinel c (to_lower name) qtype class ≡ none
    → (get now c name qtype class).cache ≡ c
unfolding get
get-missing now c name qtype class h = ground (arith, h)

delete_name-by :
    (c : Cache) (name : Bytes) (qtype class : ℕ) (o : Option Entry)
    → find_entry (key_for (to_lower name) qtype class) c ≡ o
    → IsSound c
    → IsSound (delete_name c name qtype class).0
unfolding delete_name
delete_name-by c name qtype class none n h =
    let d : c ≡ (delete_name c name qtype class).0 = ground (arith, n) in subst IsSound d h
delete_name-by c name qtype class (some e) l h =
    let key = key_for (to_lower name) qtype class in
    let d : drop_key key c ≡ (delete_name c name qtype class).0 = ground (arith, l) in
    subst IsSound d (drop_key-IsSound key c h)

-- `Get` and `Delete` keep the invariants of the cache: no shard over its share of the limit, every
-- TTL below the greatest number of 32 bits, and an item in the queue for every entry.
pub get-IsSound :
    (now : ℕ) (c : Cache) (name : Bytes) (qtype class : ℕ)
    → IsSound c
    → IsSound (get now c name qtype class).cache × IsSound (delete_name c name qtype class).0
get-IsSound now c name qtype class h = (
  elim (Option-cases (find_or_sentinel c (to_lower name) qtype class)) [
    | inl n ↦ subst IsSound (sym (get-missing now c name qtype class n)) h
    | inr (p, l) ↦
        subst IsSound (sym (ap (λ r. r.cache) (get-found now c name qtype class p.0 p.1 l))) (
          get_entry-IsSound now c p.0 p.1
            (find_or_sentinel-find_entry c (to_lower name) qtype class p.0 p.1 l) h)
  ],
  delete_name-by c name qtype class _ refl h,
)
