-- ===== src/Cache/Shard/Evict.antt =====
-- The eviction for room: `enforceMaxEntriesLocked` of cache/cache.go.
use labyrinth.Prelude.{
  ℕ, zero, suc, ◌≤◌, ◌<◌, true, List, [], ◌∷◌, Option, none, some, ◌≡◌, ◌⊎◌, inl, inr,
  if◌then◌else◌, ltb, ◌==◌, length, arith, refl, Bool-cases, Option-cases,
}
use labyrinth.Cache.Entry.{Entry, remaining_ttl}
use labyrinth.Cache.Entry.Ttl.{remaining_ttl-le}
use labyrinth.Cache.Shard.{
  CacheKey, EntryMap, EvictionItem, Shard, same_key, lookup, delete, insert, is_current, next_item,
  least_remaining, max_uint32, next_eviction_key, evict_loop, shard_limit, enforce_max_entries,
}
use labyrinth.Cache.Shard.Keys.{same_key_refl, lookup-delete, length-delete-lt}

-- Every TTL is below the greatest number of 32 bits.
abbrev pub HasTtls : EntryMap → Type 0
HasTtls [] = Unit {0}
HasTtls ((k, e) ∷ m) = (e.orig_ttl < max_uint32) × HasTtls m

pub HasTtls-delete : (key : CacheKey) (m : EntryMap) → HasTtls m → HasTtls (delete key m)
unfolding delete
HasTtls-delete key [] h = tt
HasTtls-delete key ((k, e) ∷ m) (b, h) = elim (Bool-cases (same_key k key)) [
  | inl s ↦ rw s (HasTtls-delete key m h)
  | inr n ↦ rw n (b, HasTtls-delete key m h)
]

pub HasTtls-insert :
    (key : CacheKey) (e : Entry) (m : EntryMap)
    → e.orig_ttl < max_uint32
    → HasTtls m
    → HasTtls (insert key e m)
unfolding insert
HasTtls-insert key e m b h = (b, HasTtls-delete key m h)

abbrev IsKey : CacheKey → EntryMap → Type 0
IsKey key m = (e : Entry) × (lookup key m ≡ some e)

is_current-IsKey :
    (item : EvictionItem) (m : EntryMap) → is_current item m ≡ true → IsKey item.key m
unfolding is_current
is_current-IsKey item m h = elim (Option-cases (lookup item.key m)) [
  | inl e ↦ absurd (ground arith)
  | inr (e, l) ↦ (e, l)
]

next_item-IsKey :
    (q : List EvictionItem) (m : EntryMap) (key : CacheKey)
    → (next_item q m).0 ≡ some key
    → IsKey key m
unfolding next_item
next_item-IsKey [] m key h = absurd cc
next_item-IsKey (item ∷ q) m key h = elim (Bool-cases (is_current item m)) [
  | inl c ↦
      let e : item.key ≡ key = ground arith in
      let k : IsKey item.key m = is_current-IsKey item m c in (k.0, rw (← e) k.1)
  | inr n ↦ next_item-IsKey q m key (rw n at h)
]

-- A key of the rest of the map is a key of the map, if not in front of it.
IsKey-cons : (a key : CacheKey) (x : Entry) (m : EntryMap) → IsKey key m → IsKey key ((a, x) ∷ m)
unfolding lookup
IsKey-cons a key x m (e, h) = elim (Bool-cases (same_key a key)) [
  | inl s ↦ (x, rw s)
  | inr n ↦ (e, rw n h)
]

front_key : (key : CacheKey) (e : Entry) (m : EntryMap) → lookup key ((key, e) ∷ m) ≡ some e
unfolding lookup
front_key key e m = rw (same_key_refl key)

least_remaining-IsKey :
    (now least : ℕ) (found : Option CacheKey) (m : EntryMap) (key : CacheKey)
    → least_remaining now least found m ≡ some key
    → (found ≡ some key) ⊎ IsKey key m
unfolding least_remaining
least_remaining-IsKey now least found [] key h = inl h
least_remaining-IsKey now least found ((k, e) ∷ m) key h =
    let better = ltb (remaining_ttl e now) least in
    elim (least_remaining-IsKey now (if better then remaining_ttl e now else least)
      (if better then some k else found) m key h) [
        | inr i ↦ inr (IsKey-cons k key e m i)
        | inl f ↦ elim (Bool-cases (ltb (remaining_ttl e now) least)) [
          | inr n ↦ inl (rw n at f)
          | inl b ↦
              let g : some k ≡ some key = rw b at f in
              let s : k ≡ key = cc g in inr (e, rw s (front_key key e m))
        ]
      ]

least_remaining-some :
    (now least : ℕ) (k : CacheKey) (m : EntryMap)
    → (key : CacheKey) × (least_remaining now least (some k) m ≡ some key)
unfolding least_remaining
least_remaining-some now least k [] = (k, refl)
least_remaining-some now least k ((a, e) ∷ m) =
    elim (Bool-cases (ltb (remaining_ttl e now) least)) [
      | inl b ↦ rw b (least_remaining-some now (remaining_ttl e now) a m)
      | inr n ↦ rw n (least_remaining-some now least k m)
    ]

-- In a map that has entries a key is found.
least_remaining-finds :
    (now : ℕ) (m : EntryMap)
    → HasTtls m
    → 0 < length m
    → (key : CacheKey) × (least_remaining now max_uint32 none m ≡ some key)
unfolding least_remaining
least_remaining-finds now [] h pos = absurd (omega arith)
least_remaining-finds now ((k, e) ∷ m) (b, h) pos =
    let t : ltb (remaining_ttl e now) max_uint32 ≡ true = ground (arith, remaining_ttl-le e now) in
    rw t (least_remaining-some now (remaining_ttl e now) k m)

-- A shard that has entries gives up a key of its own, and the map is as it was.
next_eviction_key-finds :
    (now : ℕ) (s : Shard)
    → HasTtls s.entries
    → 0 < length s.entries
    → (key : CacheKey) × ((next_eviction_key now s).0 ≡ some key) × IsKey key s.entries
unfolding next_eviction_key
next_eviction_key-finds now s h pos = elim (Option-cases (next_item s.evict_q s.entries).0) [
  | inr (key, e) ↦ (key, ground (arith, e), next_item-IsKey s.evict_q s.entries key e)
  | inl n ↦
      let (key, e) = least_remaining-finds now s.entries h pos in
      elim (least_remaining-IsKey now max_uint32 none s.entries key e) [
        | inl f ↦ absurd cc
        | inr i ↦ (key, ground (arith, n, e), i)
      ]
]

pub next_eviction_key-entries :
    (now : ℕ) (s : Shard) → (next_eviction_key now s).1.entries ≡ s.entries
unfolding next_eviction_key
next_eviction_key-entries now s = elim (Option-cases (next_item s.evict_q s.entries).0) [
  | inl n ↦ ground (arith, n)
  | inr (key, e) ↦ ground (arith, e)
]

-- What the eviction leaves: at most the limit, entries of before only, and bounded TTLs.
pub record IsRoomy (limit : ℕ) (before after : EntryMap) : Type 0 where
  pub within : length after ≤ limit
  pub kept : (key : CacheKey) (e : Entry) → lookup key after ≡ some e → lookup key before ≡ some e
  pub ttls : HasTtls after

evict_loop-some :
    (fuel now limit : ℕ) (s : Shard)
    → HasTtls s.entries
    → length s.entries < fuel
    → (s' : Shard) × (evict_loop fuel now limit s ≡ some s') × IsRoomy limit s.entries s'.entries
unfolding evict_loop
evict_loop-some zero now limit s h lt = absurd (omega arith)
evict_loop-some (suc fuel) now limit s h lt = elim (Bool-cases (ltb limit (length s.entries))) [
  | inr n ↦ (s, rw n, record { within = ground arith; kept = λ key e l. l; ttls = h })
  | inl over ↦
      let (key, e, i) = next_eviction_key-finds now s h (ground arith) in
      let m = delete key s.entries in
      let short = length-delete-lt key s.entries i.0 i.1 in
      let (s', r, room) =
        evict_loop-some fuel now limit (record (next_eviction_key now s).1 { entries = m })
          (HasTtls-delete key s.entries h) (omega arith) in
      (
        s',
        rw (over, e, next_eviction_key-entries) r,
        record {
          within = room.within;
          kept = λ k x l. lookup-delete key k s.entries x (room.kept k x l);
          ttls = room.ttls;
        },
      )
]

-- If no TTL is the greatest number of 32 bits, the eviction ends, whatever the queue holds. It
-- leaves at most the shard's share of the limit where there is a limit, adds and changes no entry,
-- and keeps the bound on the TTLs.
pub enforce_max_entries-some :
    (now max_entries : ℕ) (s : Shard)
    → HasTtls s.entries
    → (s' : Shard) × (enforce_max_entries now max_entries s ≡ some s')
      × IsRoomy
          (if max_entries == 0 then length s.entries else shard_limit max_entries)
          s.entries
          s'.entries
unfolding enforce_max_entries
enforce_max_entries-some now max_entries s h = elim (Bool-cases (max_entries == 0)) [
  | inl off ↦ rw off (s, refl, record { within = omega arith; kept = λ key e l. l; ttls = h })
  | inr on ↦ rw on (evict_loop-some _ now (shard_limit max_entries) s h (omega arith))
]

-- Within the limit nothing is evicted.
pub enforce_max_entries-idle :
    (now max_entries : ℕ) (s : Shard)
    → (max_entries ≡ 0) ⊎ (length s.entries ≤ shard_limit max_entries)
    → enforce_max_entries now max_entries s ≡ some s
unfolding enforce_max_entries evict_loop
enforce_max_entries-idle now max_entries s (inl off) = ground (arith, off)
enforce_max_entries-idle now max_entries s (inr fits) = ground (arith, fits)
