-- ===== src/Cache/Shard.antt =====
-- One shard: the map of entries and the eviction queue of cache/eviction_heap.go. The map is a list
-- of keys with their entries, no key twice. The heap of `container/heap` is a list in the order in
-- which `Pop` returns its items: the least `expiresAt` first, and of equal ones the first pushed.
pub mod Keys
pub mod Evict
pub mod Queue
pub mod Requeue
pub mod Expire
use labyrinth.Prelude.{
  ℕ, zero, suc, ◌+◌, ◌-◌, ◌*◌, ◌/◌, ◌%◌, Bool, true, false, ◌||◌, ◌&&◌, not, List, [], ◌∷◌, Option,
  none, some, Bytes, if◌then◌else◌, ltb, leb, ◌==◌, length,
}
use labyrinth.Text.{equal}
use labyrinth.Cache.Entry.{Entry, remaining_ttl, second}

-- `cacheKey`.
pub record CacheKey : Type 0 where
  pub name : Bytes
  pub qtype : ℕ
  pub class : ℕ
  pub ecs_prefix : Bytes

-- `==` on keys.
unfoldable pub same_key : CacheKey → CacheKey → Bool
same_key a b =
    equal a.name b.name
    && a.qtype == b.qtype
    && a.class == b.class
    && equal a.ecs_prefix b.ecs_prefix

abbrev pub EntryMap : Type 0
EntryMap = List (CacheKey × Entry)

-- `evictionItem`; of the entry's pointer the id is kept.
pub record EvictionItem : Type 0 where
  pub key : CacheKey
  pub entry_id : ℕ
  pub expires_at : ℕ

pub record Shard : Type 0 where
  pub entries : EntryMap
  pub evict_q : List EvictionItem

-- `resetEntries`.
abbrev pub empty_shard : Shard
empty_shard = record { entries = []; evict_q = [] }

-- `s.entries[key]`.
unfoldable pub lookup : CacheKey → EntryMap → Option Entry
lookup key [] = none
lookup key ((k, e) ∷ m) = if same_key k key then some e else lookup key m

-- `delete(s.entries, key)`.
unfoldable pub delete : CacheKey → EntryMap → EntryMap
delete key [] = []
delete key ((k, e) ∷ m) = if same_key k key then delete key m else (k, e) ∷ delete key m

-- `s.entries[key] = entry`.
unfoldable pub insert : CacheKey → Entry → EntryMap → EntryMap
insert key e m = (key, e) ∷ delete key m

-- `heap.Push`.
unfoldable pub push_item : EvictionItem → List EvictionItem → List EvictionItem
push_item item [] = item ∷ []
push_item item (x ∷ q) =
    if ltb item.expires_at x.expires_at then item ∷ x ∷ q else x ∷ push_item item q

-- `pushEvictionEntry`.
unfoldable pub push_eviction_entry : CacheKey → Entry → Shard → Shard
push_eviction_entry key e s = record s {
  evict_q =
      push_item
        (record { key = key; entry_id = e.id; expires_at = e.inserted_at + e.orig_ttl * second })
        s.evict_q;
}

-- `!ok || current != item.entry`, negated: the item is for the entry that the map has now.
unfoldable pub is_current : EvictionItem → EntryMap → Bool
is_current item m = elim (lookup item.key m) [ none ↦ false | some e ↦ e.id == item.entry_id ]

-- The loop of `nextEvictionKeyLocked` over the queue: the key, and what is left of the queue.
unfoldable pub next_item : List EvictionItem → EntryMap → Option CacheKey × List EvictionItem
next_item [] m = (none, [])
next_item (item ∷ q) m = if is_current item m then (some item.key, q) else next_item q m

-- Its fall-back over the map: the first key with the least remaining TTL below the bound. Go visits
-- the keys in no fixed order, and the model in the order of the list.
unfoldable pub least_remaining : ℕ → ℕ → Option CacheKey → EntryMap → Option CacheKey
least_remaining now least found [] = found
least_remaining now least found ((k, e) ∷ m) =
    let rem = remaining_ttl e now in
    let better = ltb rem least in
    least_remaining now (if better then rem else least) (if better then some k else found) m

abbrev pub max_uint32 : ℕ
max_uint32 = 4294967295

-- `nextEvictionKeyLocked`.
unfoldable pub next_eviction_key : ℕ → Shard → Option CacheKey × Shard
next_eviction_key now s =
    let (found, q) = next_item s.evict_q s.entries in
    elim found [
      | some k ↦ (some k, record s { evict_q = q })
      | none ↦ (least_remaining now max_uint32 none s.entries, record s { evict_q = q })
    ]

-- The key that the loop deletes where none is found is the zero key.
abbrev pub zero_key : CacheKey
zero_key = record { name = []; qtype = 0; class = 0; ecs_prefix = [] }

abbrev pub key_or_zero : Option CacheKey → CacheKey
key_or_zero none = zero_key
key_or_zero (some k) = k

-- The loop of `enforceMaxEntriesLocked`; `none` means that the fuel ran out.
unfoldable pub evict_loop : ℕ → ℕ → ℕ → Shard → Option Shard
evict_loop zero now limit s = none
evict_loop (suc fuel) now limit s =
    let (found, s') = next_eviction_key now s in
    let rest =
      evict_loop fuel now limit (record s' { entries = delete (key_or_zero found) s'.entries }) in
    if ltb limit (length s.entries) then rest else some s

-- The limit of one shard, `c.maxEntries/shardCount+1`.
abbrev pub shard_limit : ℕ → ℕ
shard_limit max_entries = max_entries / 256 + 1

-- `enforceMaxEntriesLocked`: every round deletes an entry, so their number is fuel enough.
unfoldable pub enforce_max_entries : ℕ → ℕ → Shard → Option Shard
enforce_max_entries now max_entries s =
    if max_entries == 0
    then some s
    else evict_loop (length s.entries + 1) now (shard_limit max_entries) s

-- `evictExpiredLocked`: what is left, and how many entries were deleted.
unfoldable pub evict_expired_loop : ℕ → List EvictionItem → EntryMap → ℕ → Shard × ℕ
evict_expired_loop now [] m n = (record { entries = m; evict_q = [] }, n)
evict_expired_loop now (item ∷ q) m n =
    let due : Bool = elim (lookup item.key m) [
      | none ↦ false
      | some e ↦ e.id == item.entry_id && remaining_ttl e now == 0
    ] in
    let rest =
      evict_expired_loop now q (if due then delete item.key m else m) (if due then n + 1 else n) in
    if ltb now item.expires_at then (record { entries = m; evict_q = item ∷ q }, n) else rest

unfoldable pub evict_expired : ℕ → Shard → Shard × ℕ
evict_expired now s = evict_expired_loop now s.evict_q s.entries 0

-- `evictExpiredFallbackLocked`.
unfoldable pub evict_expired_fallback : ℕ → EntryMap → EntryMap × ℕ
evict_expired_fallback now [] = ([], 0)
evict_expired_fallback now ((k, e) ∷ m) =
    let (rest, n) = evict_expired_fallback now m in
    if remaining_ttl e now == 0 then (rest, n + 1) else ((k, e) ∷ rest, n)
